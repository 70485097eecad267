-- ===== src/Splice/Meaning.antt =====
-- The ops of a splice, applied to the text: the deleted piece is gone, the inserted one in its place.
use etherpad_go.Prelude.{
  ℕ, ◌+◌, ◌-◌, ◌≤◌, ◌<◌, pos, true, false, Bool-cases, inl, inr, ◌==◌, ◌≡◌, refl, sym, ap, ◌∙◌,
  List, [], ◌∷◌, ◌++◌, append_assoc, append-nil, Option, some, drop-add, ltb_ℤ, ◌+ℤ◌, ◌-ℤ◌, Text,
  length, take, drop, count_lines, newline, arith, length-take_le, length-drop, take-append-drop,
  count_lines-append, if◌then◌else◌, min,
}
use etherpad_go.Op.{OpCode, Op, plus, minus, keep, is_blank, deserialize_ops}
use etherpad_go.Op.RoundTrip.{AllWire, serialize, deserialize_ops-serialize}
use etherpad_go.Apply.Runs.{Covers, Runs}
use etherpad_go.Apply.{apply_ops, apply_start, take_rest}
use etherpad_go.Apply.Meaning.{apply_complete}
use etherpad_go.Assembler.Merging.Pending.{AllOps, AllOps-append}
use etherpad_go.Assembler.Smart.Tracks.{Good}
use etherpad_go.Assembler.Smart.Normal.{IsAttribs, append_all-written}
use etherpad_go.Changeset.{pack, rune_slice}
use etherpad_go.Num.{int_limit}
use etherpad_go.Pool.{APool}
use etherpad_go.Result.{ok, ◌>>=◌}
use etherpad_go.Splice.{
  last_line_start, lines_and_rest, ops_from_text, splice_within, make_splice, assembled,
}

last_line_start-le : (s : Text) → last_line_start s ≤ length s
unfolding last_line_start
last_line_start-le [] = omega arith
last_line_start-le (c ∷ s) = ground (arith, last_line_start-le s)

one_line : (c : ℕ) → (c == newline) ≡ true → count_lines (c ∷ []) ≡ 1
unfolding count_lines
one_line c d = rw d

last_line_start-lines : (s : Text) → count_lines (take (last_line_start s) s) ≡ count_lines s
unfolding last_line_start count_lines
last_line_start-lines [] = refl
last_line_start-lines (c ∷ s) = elim (Bool-cases (last_line_start s == 0)) [
  | inl e ↦
      let z : last_line_start s ≡ 0 = ground arith in
      let h = rw z at (last_line_start-lines s) in
      elim (Bool-cases (c == newline)) [
        | inl d ↦ rw (e, d) (one_line c d ∙ ap (λ n. 1 + n) h)
        | inr d ↦ rw (e, d) (ap (λ n. 0 + n) h)
      ]
  | inr e ↦ rw e (ap (λ n. (if c == newline then 1 else 0) + n) (last_line_start-lines s))
]

-- The two pieces: up to the last newline, and the rest, which has no newline.
module _ (s : Text) where
  length-front : length (take (last_line_start s) s) ≡ last_line_start s
  length-front = length-take_le (last_line_start s) s (last_line_start-le s)

  rest-lines : count_lines (drop (last_line_start s) s) ≡ 0
  rest-lines =
      let e = ap count_lines (take-append-drop (last_line_start s) s) in
      omega (
        arith,
        e,
        count_lines-append (take (last_line_start s) s) (drop (last_line_start s) s),
        last_line_start-lines s,
      )

  no_lines : (last_line_start s == 0) ≡ true → pos 0 ≡ pos (count_lines s)
  no_lines e = let z : last_line_start s ≡ 0 = ground arith in ap pos (sym (rw z at rest-lines))

  -- `s` in front of a text, as its two pieces.
  split_front :
      (t : Text) → s ++ t ≡ take (last_line_start s) s ++ (drop (last_line_start s) s ++ t)
  split_front t =
      ap (λ x. x ++ t) (sym (take-append-drop (last_line_start s) s))
      ∙ append_assoc (take (last_line_start s) s) (drop (last_line_start s) s) t

  Covers-front :
      (k : OpCode) (a : Text)
      → Covers
          (record {
            opcode = k;
            chars = last_line_start s;
            lines = pos (count_lines s);
            attribs = a;
          })
          (take (last_line_start s) s)
  Covers-front k a = (length-front, ap pos (sym (last_line_start-lines s)))

  Covers-rest :
      (k : OpCode) (a : Text)
      → Covers
          (record { opcode = k; chars = length s - last_line_start s; lines = pos 0; attribs = a })
          (drop (last_line_start s) s)
  Covers-rest k a = (length-drop (last_line_start s) s, ap pos (sym rest-lines))

  pub Runs-keep :
      (a : Text) (ops : List Op) (bank t u : Text)
      → Runs ops bank t u
      → Runs (lines_and_rest keep s a ++ ops) bank (s ++ t) (s ++ u)
  Runs-keep a ops bank t u r = elim (Bool-cases (last_line_start s == 0)) [
    | inl e ↦ rw e (s, t, u, (refl, no_lines e), refl, refl, r)
    | inr e ↦ rw e (
      _,
      _,
      _,
      Covers-front keep a,
      split_front t,
      split_front u,
      (_, _, _, Covers-rest keep a, refl, refl, r),
    )
  ]

  pub Runs-minus :
      (a : Text) (ops : List Op) (bank t u : Text)
      → Runs ops bank t u
      → Runs (lines_and_rest minus s a ++ ops) bank (s ++ t) u
  Runs-minus a ops bank t u r = elim (Bool-cases (last_line_start s == 0)) [
    | inl e ↦ rw e (s, t, (refl, no_lines e), refl, r)
    | inr e ↦ rw e (_, _, Covers-front minus a, split_front t, (_, _, Covers-rest minus a, refl, r))
  ]

  pub Runs-plus :
      (a : Text) (ops : List Op) (bank t u : Text)
      → Runs ops bank t u
      → Runs (lines_and_rest plus s a ++ ops) (s ++ bank) t (s ++ u)
  Runs-plus a ops bank t u r = elim (Bool-cases (last_line_start s == 0)) [
    | inl e ↦ rw e (s, bank, u, (refl, no_lines e), refl, refl, r)
    | inr e ↦ rw e (
      _,
      _,
      _,
      Covers-front plus a,
      split_front bank,
      split_front u,
      (_, _, _, Covers-rest plus a, refl, refl, r),
    )
  ]

-- The ops of a splice that deletes `del` behind `pre` run from the text to the spliced one.
splice-Runs :
    (pre del ins post a : Text)
    → Runs
        (lines_and_rest keep pre [] ++ (lines_and_rest minus del [] ++ lines_and_rest plus ins a))
        ins
        (pre ++ (del ++ post))
        (pre ++ (ins ++ post))
splice-Runs pre del ins post a =
    let inserted =
      rw (append-nil ins, append-nil (lines_and_rest plus ins a)) at
        (Runs-plus ins a [] [] post post refl) in
    Runs-keep pre [] _ ins (del ++ post) (ins ++ post)
      (Runs-minus del [] _ ins post (ins ++ post) inserted)

lines_and_rest-Good :
    (k : OpCode) (s a : Text)
    → is_blank k ≡ false
    → IsAttribs a
    → AllOps (Good IsAttribs) (lines_and_rest k s a)
lines_and_rest-Good k s a h f = elim (Bool-cases (last_line_start s == 0)) [
  | inl e ↦ rw e ((h, f), tt)
  | inr e ↦ rw e ((h, f), ((h, f), tt))
]

IsAttribs-nil : IsAttribs []
IsAttribs-nil = ([], tt, refl)

-- The pieces of a text at two places.
cut_text :
    (orig : Text) (start ndel : ℕ)
    → orig
      ≡ rune_slice orig 0 start
        ++ (rune_slice orig start (start + ndel) ++ drop (start + ndel) orig)
cut_text orig start ndel =
    let e0 : start - 0 ≡ start = omega arith in
    let e1 : start + ndel - start ≡ ndel = omega arith in
    rw (e0, e1, drop-add start ndel orig, take-append-drop ndel (drop start orig))
      (sym (take-append-drop start orig))

-- What `MakeSplice` gives for a start and a number of deletions within the text.
pub record Spliced (orig : Text) (start ndel : ℕ) (ins a : Text) (pool : Option APool)
    : Type 0 where
  pub op_str : Text
  pub ops : List Op
  pub returned :
      make_splice orig (pos start) (pos ndel) ins (some a) pool
      ≡ ok (
        pack (pos (length orig)) (pos (length orig) +ℤ pos (length ins) -ℤ pos ndel) op_str ins,
        pool,
      )
  pub parsed : deserialize_ops op_str ≡ ok ops
  pub applied :
      (apply_ops ops (apply_start ins orig) >>= take_rest)
      ≡ ok (rune_slice orig 0 start ++ (ins ++ drop (start + ndel) orig))

module _ (orig : Text) (start ndel : ℕ) (ins a : Text) (pool : Option APool)
    (h : start + ndel ≤ length orig) where
  abbrev pub made_ops : List Op
  made_ops =
      lines_and_rest keep (rune_slice orig 0 start) []
      ++ (lines_and_rest minus (rune_slice orig start (start + ndel)) []
          ++ lines_and_rest plus ins a)

  pub make_splice-returned :
      make_splice orig (pos start) (pos ndel) ins (some a) pool
      ≡ ok (
        pack
            (pos (length orig))
            (pos (length orig) +ℤ pos (length ins) -ℤ pos ndel)
            (assembled made_ops)
            ins,
        pool,
      )
  unfolding make_splice splice_within ops_from_text
  make_splice-returned =
      let p : ltb_ℤ (pos start) (pos 0) ≡ false = ground arith in
      let q : ltb_ℤ (pos ndel) (pos 0) ≡ false = ground arith in
      let m : min start (length orig) ≡ start = omega arith in
      let n : min ndel (length orig - start) ≡ ndel = omega arith in rw (p, q, m, n)

  -- The assembled ops are written ops that replace the deleted piece.
  pub made_ops-written :
      IsAttribs a
      → length ins + length orig < int_limit
      → (ops : List Op) × (assembled made_ops ≡ serialize ops)
        × AllWire ops
        × Runs ops ins orig (rune_slice orig 0 start ++ (ins ++ drop (start + ndel) orig))
  made_ops-written f small =
      let pre = rune_slice orig 0 start in
      let del = rune_slice orig start (start + ndel) in
      let post = drop (start + ndel) orig in
      let run : Runs made_ops ins orig (pre ++ (ins ++ post)) =
        rw (← cut_text orig start ndel) at (splice-Runs pre del ins post a) in
      let good =
        AllOps-append (Good IsAttribs) (lines_and_rest keep pre []) _
          (lines_and_rest-Good keep pre [] refl IsAttribs-nil)
          (AllOps-append (Good IsAttribs) (lines_and_rest minus del []) (lines_and_rest plus ins a)
            (lines_and_rest-Good minus del [] refl IsAttribs-nil)
            (lines_and_rest-Good plus ins a refl f)) in
      append_all-written made_ops ins orig (pre ++ (ins ++ post)) good small run

  -- `MakeSplice` within the text, with attributes `*a*b…`: it returns a changeset for the text's
  -- length whose bank is the inserted text, its op text is read without error, and these ops, applied
  -- to the text, replace the `ndel` characters at `start` by the inserted text.
  pub make_splice-Spliced :
      IsAttribs a → length ins + length orig < int_limit → Spliced orig start ndel ins a pool
  make_splice-Spliced f small =
      let (ops, e, w, r) = made_ops-written f small in
      record {
        op_str = assembled made_ops;
        ops = ops;
        returned = make_splice-returned;
        parsed = ap deserialize_ops e ∙ deserialize_ops-serialize ops w;
        applied =
            apply_complete ops ins orig
              (rune_slice orig 0 start ++ (ins ++ drop (start + ndel) orig)) r;
      }
