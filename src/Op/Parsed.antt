-- ===== src/Op/Parsed.antt =====
-- The ops that `DeserializeOps` gives have an opcode, and attributes `*a*b…`.
use etherpad_go.Prelude.{
  ℕ, zero, suc, Bool, true, false, ◌||◌, Bool-cases, Option-cases, inl, inr, ◌≡◌, refl, ap, subst,
  Option, none, some, List, [], ◌∷◌, ◌++◌, Text, arith, ◌==◌, newline, length,
}
use etherpad_go.Num.{is_num_char}
use etherpad_go.Num.RoundTrip.{AllNum}
use etherpad_go.Op.{
  OpCode, Op, is_blank, span_num, star_group, attribs_group, lines_group, sign_group, build_op,
  after_sign, after_attribs, match_op, deserialize_from, deserialize_ops,
}
use etherpad_go.Result.{Result, invalid_op_string, ok, err, >>=-eq-ok}
use etherpad_go.Assembler.Merging.Pending.{AllOps}
use etherpad_go.Assembler.Smart.Tracks.{Good}
use etherpad_go.Assembler.Smart.Normal.{IsAttribs}

span_num-AllNum : (s : Text) → AllNum (span_num s).0
unfolding span_num
span_num-AllNum [] = tt
span_num-AllNum (c ∷ s) = elim (Bool-cases (is_num_char c)) [
  | inl e ↦ rw e (e, span_num-AllNum s)
  | inr e ↦ rw e tt
]

star_group-IsAttribs :
    (more : Text → Text × Text) (s : Text) (p : Text × Text)
    → ((r : Text) → IsAttribs (more r).0)
    → AllNum p.0
    → IsAttribs (star_group more s p).0
star_group-IsAttribs more s ([], rest) h a = ([], tt, refl)
star_group-IsAttribs more s (d ∷ ds, rest) h a =
    let (gs, g, e) = h rest in
    ((d ∷ ds) ∷ gs, (a, (λ (x : d ∷ ds ≡ []). cc), g), ap (λ t. b'*' ∷ (d ∷ ds ++ t)) e)

attribs_group-IsAttribs : (f : ℕ) (s : Text) → IsAttribs (attribs_group f s).0
unfolding attribs_group
attribs_group-IsAttribs zero s = ([], tt, refl)
attribs_group-IsAttribs (suc f) [] = ([], tt, refl)
attribs_group-IsAttribs (suc f) (c ∷ s) = elim (Bool-cases (c == b'*')) [
  | inl e ↦
      rw (e, attribs_group)
        (star_group-IsAttribs (attribs_group f) (c ∷ s) (span_num s) (attribs_group-IsAttribs f)
          (span_num-AllNum s))
  | inr e ↦ rw (e, attribs_group) ([], tt, refl)
]

sign_group-full : (s : Text) (p : OpCode × Text) → sign_group s ≡ some p → is_blank p.0 ≡ false
unfolding sign_group
sign_group-full [] p e = cc
sign_group-full (c ∷ s) p e = ground arith

-- A match that starts with the attributes `ats` and ends in the op of `p`.
abbrev IsMatch : Text → Op × Text → Type 0
IsMatch ats p = (is_blank p.0.opcode ≡ false) × (p.0.attribs ≡ ats)

build_op-IsMatch :
    (ats ls : Text) (k : OpCode) (q : Text × Text) (p : Op × Text)
    → is_blank k ≡ false
    → build_op ats ls k q ≡ some p
    → IsMatch ats p
build_op-IsMatch ats ls k ([], r) p h e = cc
build_op-IsMatch ats ls k (d ∷ ds, r) p h e = ground (arith, e, h)

after_sign-IsMatch :
    (ats ls : Text) (o : Option (OpCode × Text)) (p : Op × Text)
    → ((q : OpCode × Text) → o ≡ some q → is_blank q.0 ≡ false)
    → after_sign ats ls o ≡ some p
    → IsMatch ats p
after_sign-IsMatch ats ls none p h e = cc
after_sign-IsMatch ats ls (some (k, r)) p h e =
    build_op-IsMatch ats ls k (span_num r) p (h (k, r) refl) e

after_attribs-IsMatch : (q : Text × Text) (p : Op × Text) → after_attribs q ≡ some p → IsMatch q.0 p
after_attribs-IsMatch (ats, r) p e =
    after_sign-IsMatch ats (lines_group r).0 (sign_group (lines_group r).1) p
      (sign_group-full (lines_group r).1) e

match_op-Good :
    (s : Text) (p : Op × Text) → match_op s ≡ some p → Good IsAttribs p.0.opcode p.0.attribs
unfolding match_op
match_op-Good s p e =
    let (b, a) = after_attribs-IsMatch (attribs_group (length s) s) p e in
    (b, rw a (attribs_group-IsAttribs (length s) s))

skipped :
    (b : Bool) (m : Result (List Op)) {ops : List Op}
    → (elim b [ true ↦ m | false ↦ err invalid_op_string ]) ≡ ok ops
    → m ≡ ok ops
skipped true m e = e
skipped false m e = cc

deserialize_from-Good :
    (f : ℕ) (s : Text) (ops : List Op) → deserialize_from f s ≡ ok ops → AllOps (Good IsAttribs) ops
unfolding deserialize_from
deserialize_from-Good f [] [] e = tt
deserialize_from-Good f [] (x ∷ ops) e = cc
deserialize_from-Good zero (c ∷ s) ops e = cc
deserialize_from-Good (suc f) (c ∷ s) ops e = elim (Option-cases (match_op (c ∷ s))) [
  | inl m ↦
      let e' = rw (m, deserialize_from) at e in
      deserialize_from-Good f s ops (skipped (c == newline || c == b'$') (deserialize_from f s) e')
  | inr ((op, rest), m) ↦
      let e' = rw (m, deserialize_from) at e in
      let (more, e1, e2) = >>=-eq-ok (deserialize_from f rest) _ e' in
      let same : op ∷ more ≡ ops = cc e2 in
      subst (AllOps (Good IsAttribs)) same
        (match_op-Good (c ∷ s) (op, rest) m, deserialize_from-Good f rest more e1)
]

pub deserialize_ops-Good :
    (s : Text) (ops : List Op) → deserialize_ops s ≡ ok ops → AllOps (Good IsAttribs) ops
unfolding deserialize_ops
deserialize_ops-Good s ops e = deserialize_from-Good (length s) s ops e
