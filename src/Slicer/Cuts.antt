-- ===== src/Slicer/Cuts.antt =====
-- `SlicerZipperFunc` on two ops that cover texts of which one begins with the other.
use etherpad_go.Prelude.{
  ◌+◌, ◌-◌, ◌<◌, pos, ◌-ℤ◌, pos-sub, leb_ℤ, ◌≡◌, refl, sym, ap, ◌∙◌, ◌⊎◌, inl, inr, true, false,
  Bool-cases, Option, List, [], ◌∷◌, ◌++◌, Text, length, length-append, count_lines,
  count_lines-append, count_lines-le, arith, ltb, ◌==◌, if◌then◌else◌,
}
use etherpad_go.Op.{OpCode, Op, plus, minus, keep, is_blank}
use etherpad_go.Pool.{APool}
use etherpad_go.Result.{ok}
use etherpad_go.Slicer.{
  slice, cut, blanked, sliced_out, lines_agree, out_attribs, is_keep_or_plus, is_keep_or_minus,
}
use etherpad_go.Apply.Runs.{Step-code, Covers, Step, Runs}

-- An op that is not used up stands before the others.
abbrev pub behind : Op → List Op → List Op
behind op ops = if is_blank op.opcode then ops else op ∷ ops

pub behind-Step :
    (op : Op) (ops : List Op) (k : OpCode) (bank t u : Text)
    → op.opcode ≡ k
    → is_blank k ≡ false
    → Step k op (Runs ops) bank t u
    → Runs (behind op ops) bank t u
behind-Step op ops k bank t u e b h =
    let full : is_blank op.opcode ≡ false = ap is_blank e ∙ b in
    rw full (Step-code op (Runs ops) bank t u (sym e) h)

behind-blank :
    (op : Op) (ops : List Op) (bank t u : Text)
    → is_blank op.opcode ≡ true
    → Runs ops bank t u
    → Runs (behind op ops) bank t u
behind-blank op ops bank t u e h = rw e h

lines-le-chars : (op : Op) (s : Text) → Covers op s → leb_ℤ op.lines (pos op.chars) ≡ true
lines-le-chars op s (n, l) = rw l (ground (arith, count_lines-le s, n))

module _ (long short : Op) (s d : Text) (cl : Covers long (s ++ d)) (cs : Covers short s) where
  cut_chars : length d ≡ long.chars - short.chars
  cut_chars = omega (arith, cl.0, cs.0, length-append s d)

  cut_lines : long.lines -ℤ short.lines ≡ pos (count_lines d)
  cut_lines =
      rw (cl.1, cs.1, count_lines-append s d)
        (pos-sub (count_lines s + count_lines d) (count_lines s) (omega arith)
          ∙ ap pos (omega arith))

  -- What is left of the longer op: nothing, or an op that covers the rest.
  pub cut_cases :
      ((d ≡ []) × (is_blank (cut long short).opcode ≡ true))
      ⊎ (((cut long short).opcode ≡ long.opcode) × Covers (cut long short) d)
  cut_cases = elim (Bool-cases (long.chars - short.chars == 0)) [
    | inl z ↦ inl (nothing d (cut_chars ∙ ground arith), rw z)
    | inr n ↦ inr (rw n, (cut_chars, cut_lines))
  ]
    where
      nothing : (x : Text) → length x ≡ 0 → x ≡ []
      nothing [] e = refl
      nothing (y ∷ x) e = absurd (omega arith)

  agree_long : 0 < length d → lines_agree long short ≡ true
  agree_long h =
      rw (cl.1, cs.1) (ground (arith, cl.0, cs.0, length-append s d, count_lines-append s d))

  agree_short : lines_agree short long ≡ true
  agree_short =
      rw (cl.1, cs.1)
        (ground (arith, cl.0, cs.0, length-append s d, count_lines-append s d, count_lines-le d))

module _ (a c : Op) (s d : Text) (pool : Option APool) (ats : Text) (pool' : Option APool)
    (adds : is_keep_or_plus a.opcode ≡ true) (takes : is_keep_or_minus c.opcode ≡ true)
    (composed : out_attribs a c c.opcode pool ≡ ok (ats, pool')) where
  -- The first op is the longer one.
  pub slice-long :
      Covers a (s ++ d)
      → Covers c s
      → 0 < length d
      → slice a c pool
        ≡ ok (record { out = sliced_out a c c ats; att = cut a c; cs = blanked c; pool = pool' })
  unfolding slice
  slice-long ca cc' h =
      let more : ltb c.chars a.chars ≡ true = ground (arith, ca.0, cc'.0, length-append s d) in
      rw (
        lines-le-chars a (s ++ d) ca,
        lines-le-chars c s cc',
        agree_long a c s d ca cc' h,
        adds,
        takes,
        composed,
        more,
      )

  -- The second op covers what the first covers, or more.
  pub slice-short :
      Covers a s
      → Covers c (s ++ d)
      → slice a c pool
        ≡ ok (record { out = sliced_out a c a ats; att = blanked a; cs = cut c a; pool = pool' })
  unfolding slice
  slice-short ca cc' =
      let less : ltb c.chars a.chars ≡ false = ground (arith, ca.0, cc'.0, length-append s d) in
      rw (
        lines-le-chars a s ca,
        lines-le-chars c (s ++ d) cc',
        agree_short c a s d cc' ca,
        adds,
        takes,
        composed,
        less,
      )

-- The ops that are left of the longer op run on what it leaves.
module _ (long short : Op) (s d : Text) (cl : Covers long (s ++ d)) (cs : Covers short s)
    (ops : List Op) (bank t u : Text) where
  pub left_plus :
      long.opcode ≡ plus
      → Runs ops bank t u
      → Runs (behind (cut long short) ops) (d ++ bank) t (d ++ u)
  left_plus e r = elim (cut_cases long short s d cl cs) [
    | inl (n, b) ↦ behind-blank (cut long short) ops _ t _ b (rw n r)
    | inr (k, c) ↦
        behind-Step (cut long short) ops plus (d ++ bank) t (d ++ u) (k ∙ e) refl
          (d, bank, u, c, refl, refl, r)
  ]

  pub left_minus :
      long.opcode ≡ minus → Runs ops bank t u → Runs (behind (cut long short) ops) bank (d ++ t) u
  left_minus e r = elim (cut_cases long short s d cl cs) [
    | inl (n, b) ↦ behind-blank (cut long short) ops bank _ u b (rw n r)
    | inr (k, c) ↦
        behind-Step (cut long short) ops minus bank (d ++ t) u (k ∙ e) refl (d, t, c, refl, r)
  ]

  pub left_keep :
      long.opcode ≡ keep
      → Runs ops bank t u
      → Runs (behind (cut long short) ops) bank (d ++ t) (d ++ u)
  left_keep e r = elim (cut_cases long short s d cl cs) [
    | inl (n, b) ↦ behind-blank (cut long short) ops bank _ _ b (rw n r)
    | inr (k, c) ↦
        behind-Step (cut long short) ops keep bank (d ++ t) (d ++ u) (k ∙ e) refl
          (d, t, u, c, refl, refl, r)
  ]

-- Two ways to begin one text: one piece begins with the other.
pub compare_pieces :
    (s1 s2 x y : Text)
    → s1 ++ x ≡ s2 ++ y
    → ((d : Text) × (s1 ≡ s2 ++ d) × (y ≡ d ++ x) × (0 < length d))
      ⊎ ((d : Text) × (s2 ≡ s1 ++ d) × (x ≡ d ++ y))
compare_pieces [] s2 x y e = inr (s2, refl, e)
compare_pieces (c ∷ s1) [] x y e = inl (c ∷ s1, refl, sym e, omega arith)
compare_pieces (c ∷ s1) (c' ∷ s2) x y e = elim (compare_pieces s1 s2 x y (cc e)) [
  | inl (d, e1, e2, h) ↦ inl (d, cc (e, e1), e2, h)
  | inr (d, e1, e2) ↦ inr (d, cc (e, e1), e2)
]
