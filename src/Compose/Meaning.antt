-- ===== src/Compose/Meaning.antt =====
-- `Compose` of two changesets, applied to a text, gives what the one and then the other give.
use etherpad_go.Prelude.{
  ℕ, zero, suc, ◌+◌, ◌<◌, pos, eqb_ℤ, eqb_ℤ→eq, eqb_ℤ-refl, true, false, ◌&&◌, Bool-cases, inl, inr,
  ◌≡◌, refl, sym, ap, ◌∙◌, subst, Option, some, List, [], ◌∷◌, ◌++◌, Text, length, arith,
}
use etherpad_go.Num.{int_limit}
use etherpad_go.Op.{Op, is_blank, deserialize_ops}
use etherpad_go.Op.RoundTrip.{AllWire, serialize, deserialize_ops-serialize}
use etherpad_go.Op.Parsed.{deserialize_ops-Good}
use etherpad_go.Pool.{APool}
use etherpad_go.Result.{ok, >>=-eq-ok}
use etherpad_go.Apply.{apply_unpacked}
use etherpad_go.Apply.Runs.{Runs}
use etherpad_go.Apply.Meaning.{apply_sound, apply_complete}
use etherpad_go.Assembler.Smart.{Smart, new_smart, end_document, to_string}
use etherpad_go.Assembler.Smart.Keeps.{Knows, Knows-new}
use etherpad_go.Assembler.Smart.Normal.{IsAttribs, Knows-written}
use etherpad_go.Changeset.{Changeset, pack}
use etherpad_go.Slicer.Cuts.{behind}
use etherpad_go.Zip.{Cursor, next, is_done, emit, zip_loop, apply_zip}
use etherpad_go.Compose.{ComposeState, compose_callback, compose_start, compose_unpacked}
use etherpad_go.Compose.Step.{weight, Banks, Stepped}
use etherpad_go.Compose.Step.Rounds.{compose_callback-Stepped}
use etherpad_go.Compose.Loop.{
  AllGood, head, tail, behind-head, Ends-head, head-IsAttribs, tail-AllGood, behind-AllGood,
  length-behind, length-head, At, advance, advance-At, Looped, Looped-end, Looped-round, emit-Knows,
  blank_both,
}

-- The round on what is left of both changesets, where something is left.
head-Stepped :
    (xs ys : List Op) (s : ComposeState) (b1 b2 t u v : Text)
    → AllGood xs
    → AllGood ys
    → (is_blank (head xs).opcode && is_blank (head ys).opcode) ≡ false
    → Banks s b1 b2
    → Runs xs b1 t u
    → Runs ys b2 u v
    → Stepped (head xs) (head ys) s (tail xs) (tail ys) t v
head-Stepped xs ys s b1 b2 t u v g1 g2 h k r1 r2 =
    compose_callback-Stepped (head xs).chars (head ys).chars (head xs).lines (head ys).lines
      (head xs).attribs (head ys).attribs s (tail xs) (tail ys) b1 b2 t u v k (head-IsAttribs xs g1)
      (head-IsAttribs ys g2) (head xs).opcode (head ys).opcode h (Ends-head xs g1) (Ends-head ys g2)
      (subst (λ l. Runs l b1 t u) (sym (behind-head xs g1)) r1)
      (subst (λ l. Runs l b2 u v) (sym (behind-head ys g2)) r2)

-- After a round fewer rounds are left.
fewer :
    (xs ys : List Op) (o1 o2 : Op) (f : ℕ)
    → AllGood xs
    → AllGood ys
    → length xs + length ys < suc f
    → weight o1.opcode + weight o2.opcode < weight (head xs).opcode + weight (head ys).opcode
    → length (behind o1 (tail xs)) + length (behind o2 (tail ys)) < f
fewer xs ys o1 o2 f g1 g2 n h = omega (
  arith,
  h,
  length-head xs g1,
  length-head ys g2,
  length-behind o1 (tail xs),
  length-behind o2 (tail ys),
)

zip_loop-Looped :
    (f : ℕ) (c1 c2 : Cursor) (xs ys : List Op) (s : ComposeState) (sm : Smart) (given : List Op)
    (b1 b2 t u v : Text)
    → At c1 xs
    → At c2 ys
    → AllGood xs
    → AllGood ys
    → length xs + length ys < f
    → Banks s b1 b2
    → Knows IsAttribs sm given
    → Runs xs b1 t u
    → Runs ys b2 u v
    → Looped (zip_loop compose_callback f c1 c2 s sm) s given t v
unfolding zip_loop
zip_loop-Looped zero c1 c2 xs ys s sm given b1 b2 t u v a1 a2 g1 g2 n k kn r1 r2 =
    absurd (omega arith)
zip_loop-Looped (suc f) c1 c2 xs ys s sm given b1 b2 t u v a1 a2 g1 g2 n k kn r1 r2 =
    elim (Bool-cases (is_done c1.current && is_done c2.current)) [
      | inl d ↦
          rw (d, zip_loop)
            (Looped-end sm s given xs ys b1 b2 t u v (a1.at_end (ground arith))
              (a2.at_end (ground arith)) kn r1 r2)
      | inr d ↦
          rw (d, zip_loop, a1.refilled, a2.refilled)
            (elim (Bool-cases (is_blank (head xs).opcode && is_blank (head ys).opcode)) [
              | inl b ↦
                  let (e1, e2) = blank_both xs ys g1 g2 b in
                  rw b (Looped-end sm s given xs ys b1 b2 t u v e1 e2 kn r1 r2)
              | inr b ↦
                  let z = head-Stepped xs ys s b1 b2 t u v g1 g2 b k r1 r2 in
                  rw b (
                    Looped-round sm s given (head xs) (head ys) (tail xs) (tail ys) t v
                      (λ o1 o2 s' sm'.
                        zip_loop compose_callback f (advance xs o1) (advance ys o2) s' sm')
                      z
                      (zip_loop-Looped f (advance xs z.z.op1) (advance ys z.z.op2)
                        (behind z.z.op1 (tail xs)) (behind z.z.op2 (tail ys)) z.z.state
                        (emit z.z.out sm) (given ++ behind z.z.out []) z.b1 z.b2 z.t' z.u' z.v'
                        (advance-At xs z.z.op1 z.stays1) (advance-At ys z.z.op2 z.stays2)
                        (behind-AllGood z.z.op1 (tail xs) z.attribs1 (tail-AllGood xs g1))
                        (behind-AllGood z.z.op2 (tail ys) z.attribs2 (tail-AllGood ys g2))
                        (fewer xs ys z.z.op1 z.z.op2 f g1 g2 n z.progress) z.banks
                        (emit-Knows z.z.out sm given z.attribs_out kn) z.left1 z.left2))
            ])
    ]

-- What an application that succeeds has done.
pub apply_unpacked-eq_ok :
    (u : Changeset) (text w : Text)
    → apply_unpacked u text ≡ ok w
    → (ops : List Op) × (deserialize_ops u.ops ≡ ok ops)
      × Runs ops u.char_bank text w
      × (pos (length text) ≡ u.old_len)
unfolding apply_unpacked
apply_unpacked-eq_ok u text w h = elim (Bool-cases (eqb_ℤ (pos (length text)) u.old_len)) [
  | inl e ↦
      let (ops, e1, e2) = >>=-eq-ok (deserialize_ops u.ops) _ (rw e at h) in
      (ops, e1, apply_sound ops u.char_bank text w e2, eqb_ℤ→eq (pos (length text)) u.old_len e)
  | inr e ↦ cc (rw e at h)
]

-- The changeset that `Compose` makes of two changesets, and what it does to a text.
pub record Composes (u1 u2 : Changeset) (p : APool) (t v : Text) : Type 0 where
  pub op_str : Text
  pub ops : List Op
  pub bank : Text
  pub pool : Option APool
  pub written : op_str ≡ serialize ops
  pub wire : AllWire ops
  pub composed : compose_unpacked u1 u2 (some p) ≡ ok (pack u1.old_len u2.new_len op_str bank, pool)
  pub applied :
      apply_unpacked
        (record { old_len = u1.old_len; new_len = u2.new_len; ops = op_str; char_bank = bank })
        t
      ≡ ok v

-- The start of `ApplyZip`: both cursors at their first op.
next-At : (xs : List Op) → AllGood xs → At (next xs) xs
next-At [] g = record { refilled = refl; at_end = λ e. refl }
next-At (x ∷ xs) ((b, f), g) = record { refilled = rw b refl; at_end = λ e. cc }

start-Banks :
    (u1 u2 : Changeset) (p : APool) → Banks (compose_start u1 u2 (some p)) u1.char_bank u2.char_bank
start-Banks u1 u2 p = record { first = refl; second = refl; pool = p; has_pool = refl }

-- Let one changeset take the text `t` to `u`, with `u`'s length as its new length, and another take
-- `u` to `v`, all of lengths that an `int` holds. Then `Compose` of both, with a pool, returns a
-- changeset without error or panic, and this changeset takes `t` to `v`.
pub compose_unpacked-Composes :
    (u1 u2 : Changeset) (p : APool) (t u v : Text)
    → apply_unpacked u1 t ≡ ok u
    → u1.new_len ≡ pos (length u)
    → apply_unpacked u2 u ≡ ok v
    → length t < int_limit
    → length v < int_limit
    → Composes u1 u2 p t v
unfolding compose_unpacked apply_zip apply_unpacked
compose_unpacked-Composes u1 u2 p t u v h1 hn h2 lt lv =
    let (xs, e1, r1, m1) = apply_unpacked-eq_ok u1 t u h1 in
    let (ys, e2, r2, m2) = apply_unpacked-eq_ok u2 u v h2 in
    let g1 = deserialize_ops-Good u1.ops xs e1 in
    let g2 = deserialize_ops-Good u2.ops ys e2 in
    let l =
      zip_loop-Looped (length xs + length ys + 1) (next xs) (next ys) xs ys
        (compose_start u1 u2 (some p)) new_smart [] u1.char_bank u2.char_bank t u v (next-At xs g1)
        (next-At ys g2) g1 g2 (omega arith) (start-Banks u1 u2 p) (Knows-new IsAttribs) r1 r2 in
    let (ops, e, w, r) = Knows-written l.assem l.outs l.bank t v l.knows lt lv l.means in
    let same : eqb_ℤ u1.new_len u2.old_len ≡ true =
      ap (λ n. eqb_ℤ n u2.old_len) (hn ∙ m2) ∙ eqb_ℤ-refl u2.old_len in
    let same' : eqb_ℤ (pos (length t)) u1.old_len ≡ true =
      ap (λ n. eqb_ℤ n u1.old_len) m1 ∙ eqb_ℤ-refl u1.old_len in
    record {
      op_str = (to_string (end_document l.assem)).0;
      ops = ops;
      bank = l.bank;
      pool = l.state.pool;
      written = e;
      wire = w;
      composed = rw (same, e1, e2, l.looped, l.wrote) refl;
      applied = rw (same', e, deserialize_ops-serialize ops w) (apply_complete ops l.bank t v r);
    }
