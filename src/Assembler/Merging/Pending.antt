-- ===== src/Assembler/Merging/Pending.antt =====
-- What a `MergingOpAssembler` has written, and what it holds back.
use etherpad_go.Prelude.{
  pos, eqb_ℤ, ◌≡◌, refl, List, [], ◌∷◌, ◌++◌, Text, append_assoc, append-nil, arith, true, false,
  Bool-cases, inl, inr, if◌then◌else◌, ◌==◌,
}
use etherpad_go.Op.{OpCode, Op, is_blank}
use etherpad_go.Op.RoundTrip.{serialize, serialize-append}
use etherpad_go.Assembler.Merging.{Merging, new_merging, flush}

-- What the buffer would write.
abbrev pub rest_op : Merging → Op
rest_op m = record m.buf_op { chars = m.additional; lines = pos 0 }

abbrev pub pending : Merging → List Op
pending m =
    if is_blank m.buf_op.opcode
    then []
    else if m.additional == 0
    then m.buf_op ∷ []
    else m.buf_op ∷ rest_op m ∷ []

abbrev pub AllOps : (OpCode → Text → Type 0) → List Op → Type 0
AllOps Q [] = Unit
AllOps Q (op ∷ ops) = Q op.opcode op.attribs × AllOps Q ops

pub AllOps-append :
    (Q : OpCode → Text → Type 0) (xs ys : List Op) → AllOps Q xs → AllOps Q ys → AllOps Q (xs ++ ys)
AllOps-append Q [] ys hx hy = hy
AllOps-append Q (x ∷ xs) ys hx hy = (hx.0, AllOps-append Q xs ys hx.1 hy)

-- The ops `outs` are written already, and characters are held back only behind a newline. All that
-- is written or held has `Q`.
pub record Holds (Q : OpCode → Text → Type 0) (m : Merging) (outs : List Op) : Type 0 where
  pub outs_good : AllOps Q outs
  pub buf_good : is_blank m.buf_op.opcode ≡ false → Q m.buf_op.opcode m.buf_op.attribs
  pub written : m.assem.serialized ≡ serialize outs
  pub blank_empty : is_blank m.buf_op.opcode ≡ true → m.additional ≡ 0
  pub no_lines : eqb_ℤ m.buf_op.lines (pos 0) ≡ true → m.additional ≡ 0

pub Holds-new : (Q : OpCode → Text → Type 0) → Holds Q new_merging []
Holds-new Q = record {
  outs_good = tt;
  buf_good = λ e. cc;
  written = refl;
  blank_empty = λ e. refl;
  no_lines = λ e. refl;
}

module _ (m : Merging) where
  pub flush-written : (flush false m).assem.serialized ≡ m.assem.serialized ++ serialize (pending m)
  unfolding flush
  flush-written = elim (Bool-cases (is_blank m.buf_op.opcode)) [
    | inl b ↦ rw (b, append-nil)
    | inr b ↦ elim (Bool-cases (m.additional == 0)) [
      | inl z ↦ rw (b, z, append-nil)
      | inr z ↦ rw (b, z, append-nil, append_assoc)
    ]
  ]

  pub flush-blank : is_blank (flush false m).buf_op.opcode ≡ true
  unfolding flush
  flush-blank = ground arith

  flush-additional :
      (is_blank m.buf_op.opcode ≡ true → m.additional ≡ 0) → (flush false m).additional ≡ 0
  unfolding flush
  flush-additional h = ground arith

-- A flush writes what is pending.
pub pending-AllOps :
    (Q : OpCode → Text → Type 0) (m : Merging)
    → (is_blank m.buf_op.opcode ≡ false → Q m.buf_op.opcode m.buf_op.attribs)
    → AllOps Q (pending m)
pending-AllOps Q m h = elim (Bool-cases (is_blank m.buf_op.opcode)) [
  | inl b ↦ rw b tt
  | inr b ↦ elim (Bool-cases (m.additional == 0)) [
    | inl z ↦ rw (b, z) (h b, tt)
    | inr z ↦ rw (b, z) (h b, (h b, tt))
  ]
]

pub flush-Holds :
    (Q : OpCode → Text → Type 0) (m : Merging) (outs : List Op)
    → Holds Q m outs
    → Holds Q (flush false m) (outs ++ pending m)
flush-Holds Q m outs h = record {
  outs_good = AllOps-append Q outs (pending m) h.outs_good (pending-AllOps Q m h.buf_good);
  buf_good = λ e. cc (flush-blank m, e);
  written = rw (flush-written m, serialize-append outs (pending m), h.written);
  blank_empty = λ _. flush-additional m h.blank_empty;
  no_lines = λ _. flush-additional m h.blank_empty;
}

pub pending-blank : (m : Merging) → is_blank m.buf_op.opcode ≡ true → pending m ≡ []
pending-blank m h = rw h
