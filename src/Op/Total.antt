-- ===== src/Op/Total.antt =====
-- `DeserializeOps` ends on every text.
use mathlib.Core.Logic.{◌≢◌}
use etherpad_go.Prelude.{
  ap, ℕ, zero, suc, ◌+◌, ◌≤◌, ◌<◌, ◌≡◌, refl, Option, none, some, [], ◌∷◌, Text, length, arith, inl,
  inr, Option-cases,
}
use etherpad_go.Result.{stuck}
use etherpad_go.Op.{
  OpCode, Op, span_num, star_group, attribs_group, lines_group, sign_group, build_op, after_sign,
  match_op, deserialize_from, deserialize_ops, bar_group,
}

span_num-length : (s : Text) → length (span_num s).0 + length (span_num s).1 ≡ length s
unfolding span_num
span_num-length [] = omega arith
span_num-length (c ∷ s) = ground (arith, span_num-length s)

module _ (more : Text → Text × Text) (shrinks : (s : Text) → length (more s).1 ≤ length s) where
  star_group-length :
      (s : Text) (p : Text × Text)
      → length p.1 ≤ length s
      → length (star_group more s p).1 ≤ length s
  star_group-length s ([], rest) h = omega arith
  star_group-length s (d ∷ ds, rest) h = omega (arith, shrinks rest)

attribs_group-length : (f : ℕ) (s : Text) → length (attribs_group f s).1 ≤ length s
unfolding attribs_group
attribs_group-length zero s = omega arith
attribs_group-length (suc f) [] = omega arith
attribs_group-length (suc f) (c ∷ s) = ground (
  arith,
  star_group-length (attribs_group f) (attribs_group-length f) (c ∷ s) (span_num s),
  span_num-length s,
)

bar_group-length :
    (s : Text) (p : Text × Text) → length p.1 ≤ length s → length (bar_group s p).1 ≤ length s
bar_group-length s ([], rest) h = omega arith
bar_group-length s (d ∷ ds, rest) h = h

lines_group-length : (s : Text) → length (lines_group s).1 ≤ length s
unfolding lines_group
lines_group-length [] = omega arith
lines_group-length (c ∷ s) =
    ground (arith, bar_group-length (c ∷ s) (span_num s), span_num-length s)

sign_group-length :
    (s : Text) (code : OpCode) (r : Text) → sign_group s ≡ some (code, r) → length s ≡ length r + 1
unfolding sign_group
sign_group-length [] code r h = cc
sign_group-length (c ∷ s) code r h = ground arith

build_op-length :
    (ats ls : Text) (code : OpCode) (p : Text × Text) (op : Op) (rest : Text)
    → build_op ats ls code p ≡ some (op, rest)
    → rest ≡ p.1
build_op-length ats ls code ([], r) op rest h = cc
build_op-length ats ls code (d ∷ ds, r) op rest h = cc

after_sign-length :
    (ats ls s : Text) (o : Option (OpCode × Text)) (op : Op) (rest : Text)
    → sign_group s ≡ o
    → after_sign ats ls o ≡ some (op, rest)
    → length rest < length s
after_sign-length ats ls s none op rest e h = cc
after_sign-length ats ls s (some (code, r)) op rest e h = omega (
  arith,
  sign_group-length s code r e,
  ap length (build_op-length ats ls code (span_num r) op rest h),
  span_num-length r,
)

match_op-length :
    (s : Text) (op : Op) (rest : Text) → match_op s ≡ some (op, rest) → length rest < length s
unfolding match_op
match_op-length s op rest h =
    let more = (attribs_group (length s) s).1 in
    omega (
      arith,
      after_sign-length _ _ (lines_group more).1 (sign_group (lines_group more).1) op rest refl h,
      lines_group-length more,
      attribs_group-length (length s) s,
    )

deserialize_from-ne-stuck : (f : ℕ) (s : Text) → length s ≤ f → deserialize_from f s ≢ stuck
unfolding deserialize_from
deserialize_from-ne-stuck f [] h e = cc
deserialize_from-ne-stuck zero (c ∷ s) h e = absurd (omega arith)
deserialize_from-ne-stuck (suc f) (c ∷ s) h e = elim (Option-cases (match_op (c ∷ s))) [
  | inl m ↦ ground (arith, deserialize_from-ne-stuck f s)
  | inr ((op, rest), m) ↦
      ground (arith, match_op-length (c ∷ s) op rest m, deserialize_from-ne-stuck f rest)
]

-- The reader ends on every text, well formed or not: its loop never runs out of rounds.
pub deserialize_ops-ne-stuck : (s : Text) → deserialize_ops s ≢ stuck
unfolding deserialize_ops
deserialize_ops-ne-stuck s = deserialize_from-ne-stuck (length s) s (omega arith)
