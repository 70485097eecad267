-- ===== src/Compose/Step/Sliced.antt =====
-- The rounds in which the two ops cover the same text.
use etherpad_go.Prelude.{
  ℕ, ℤ, ◌≡◌, refl, sym, ap, ◌∙◌, inl, inr, Text, List, [], ◌∷◌, ◌++◌, append-nil, append_assoc,
  length, length-append, subst, some, min, arith,
}
use etherpad_go.Op.{OpCode, Op, blank, plus, minus, keep}
use etherpad_go.Result.{ok}
use etherpad_go.StringIterator.{iter_take}
use etherpad_go.StringIterator.Rest.{iter_take-rest, iter_skip-rest}
use etherpad_go.Apply.Runs.{Covers, Runs}
use etherpad_go.Assembler.{append_string}
use etherpad_go.Assembler.Smart.Normal.{IsAttribs}
use etherpad_go.Slicer.{slicer_zipper, cut, out_code, out_attribs}
use etherpad_go.Slicer.Cuts.{
  slice-long, slice-short, left_plus, left_minus, left_keep, compare_pieces,
}
use etherpad_go.Slicer.Attributes.{Composed, out_attribs-Composed}
use etherpad_go.Compose.{ComposeState, compose_callback}
use etherpad_go.Zip.{Zipped}
use etherpad_go.Compose.Step.{mk, Banks, Stepped}

-- A piece that begins with another, in front of a text.
regroup : {x s1 : Text} → (s2 d y : Text) → x ≡ s1 ++ y → s1 ≡ s2 ++ d → x ≡ s2 ++ (d ++ y)
regroup s2 d y e f = e ∙ ap (λ s. s ++ y) f ∙ append_assoc s2 d y

recover : (op : Op) {s s' : Text} → s ≡ s' → Covers op s → Covers op s'
recover op e c = subst (Covers op) e c

module _ (n1 n2 : ℕ) (l1 l2 : ℤ) (x1 x2 : Text) (s : ComposeState) (r1 r2 : List Op)
    (b1 b2 t u v : Text) (k : Banks s b1 b2) (f1 : IsAttribs x1) (f2 : IsAttribs x2) where
  composed : (c1 c2 : OpCode) → Composed (out_attribs (mk c1 n1 l1 x1) (mk c2 n2 l2 x2) c2 s.pool)
  composed c1 c2 =
      rw k.has_pool (out_attribs-Composed (mk c1 n1 l1 x1) (mk c2 n2 l2 x2) c2 k.pool f1 f2)

  -- What the callback gives where the first op is the longer one, and where it is not.
  abbrev long_z : OpCode → OpCode → Text → ComposeState → Zipped ComposeState
  long_z c1 c2 ats s' = record {
    out = mk (out_code c1 c2) n2 l2 ats;
    op1 = cut (mk c1 n1 l1 x1) (mk c2 n2 l2 x2);
    op2 = mk blank n2 l2 x2;
    state = s';
  }

  abbrev short_z : OpCode → OpCode → Text → ComposeState → Zipped ComposeState
  short_z c1 c2 ats s' = record {
    out = mk (out_code c1 c2) n1 l1 ats;
    op1 = mk blank n1 l1 x1;
    op2 = cut (mk c2 n2 l2 x2) (mk c1 n1 l1 x1);
    state = s';
  }

  pub keep_keep :
      Runs (mk keep n1 l1 x1 ∷ r1) b1 t u
      → Runs (mk keep n2 l2 x2 ∷ r2) b2 u v
      → Stepped (mk keep n1 l1 x1) (mk keep n2 l2 x2) s r1 r2 t v
  keep_keep (s1, t1, u1, ca, et, eu, run1) (s2, u2, v2, cc', eu', ev, run2) =
      let (ats, p, eq, form) = composed keep keep in
      elim (compare_pieces s1 s2 u1 u2 (sym eu ∙ eu')) [
        | inl (d, e, e', h) ↦
            let ca' = recover (mk keep n1 l1 x1) e ca in
            record {
              z = long_z keep keep ats (record s { pool = some p });
              called =
                  unfold compose_callback slicer_zipper in
                  rw (
                    slice-long (mk keep n1 l1 x1) (mk keep n2 l2 x2) s2 d s.pool ats (some p) refl
                      refl eq ca' cc' h);
              b1 = b1;
              b2 = b2;
              w = [];
              t' = d ++ t1;
              u' = d ++ u1;
              v' = v2;
              banks = record { first = k.first; second = k.second; pool = p; has_pool = refl };
              left1 =
                  left_keep (mk keep n1 l1 x1) (mk keep n2 l2 x2) s2 d ca' cc' r1 b1 t1 u1 refl
                    run1;
              left2 = rw (← e') run2;
              wrote = sym (append-nil s.bank_assem.str);
              means = λ ops b run. (s2, d ++ t1, v2, cc', regroup s2 d t1 et e, ev, run);
              attribs1 = f1;
              attribs2 = f2;
              attribs_out = form;
              stays1 = λ h. cc;
              stays2 = λ h. cc;
              progress = ground arith;
            }
        | inr (d, e, e') ↦
            let cc'' = recover (mk keep n2 l2 x2) e cc' in
            record {
              z = short_z keep keep ats (record s { pool = some p });
              called =
                  unfold compose_callback slicer_zipper in
                  rw (
                    slice-short (mk keep n1 l1 x1) (mk keep n2 l2 x2) s1 d s.pool ats (some p) refl
                      refl eq ca cc'');
              b1 = b1;
              b2 = b2;
              w = [];
              t' = t1;
              u' = d ++ u2;
              v' = d ++ v2;
              banks = record { first = k.first; second = k.second; pool = p; has_pool = refl };
              left1 = rw (← e') run1;
              left2 =
                  left_keep (mk keep n2 l2 x2) (mk keep n1 l1 x1) s1 d cc'' ca r2 b2 u2 v2 refl
                    run2;
              wrote = sym (append-nil s.bank_assem.str);
              means = λ ops b run. (s1, t1, d ++ v2, ca, et, regroup s1 d v2 ev e, run);
              attribs1 = f1;
              attribs2 = f2;
              attribs_out = form;
              stays1 = λ h. cc;
              stays2 = λ h. cc;
              progress = ground arith;
            }
      ]

  pub keep_minus :
      Runs (mk keep n1 l1 x1 ∷ r1) b1 t u
      → Runs (mk minus n2 l2 x2 ∷ r2) b2 u v
      → Stepped (mk keep n1 l1 x1) (mk minus n2 l2 x2) s r1 r2 t v
  keep_minus (s1, t1, u1, ca, et, eu, run1) (s2, u2, cc', eu', run2) =
      let (ats, p, eq, form) = composed keep minus in
      elim (compare_pieces s1 s2 u1 u2 (sym eu ∙ eu')) [
        | inl (d, e, e', h) ↦
            let ca' = recover (mk keep n1 l1 x1) e ca in
            record {
              z = long_z keep minus ats (record s { pool = some p });
              called =
                  unfold compose_callback slicer_zipper in
                  rw (
                    slice-long (mk keep n1 l1 x1) (mk minus n2 l2 x2) s2 d s.pool ats (some p) refl
                      refl eq ca' cc' h);
              b1 = b1;
              b2 = b2;
              w = [];
              t' = d ++ t1;
              u' = d ++ u1;
              v' = v;
              banks = record { first = k.first; second = k.second; pool = p; has_pool = refl };
              left1 =
                  left_keep (mk keep n1 l1 x1) (mk minus n2 l2 x2) s2 d ca' cc' r1 b1 t1 u1 refl
                    run1;
              left2 = rw (← e') run2;
              wrote = sym (append-nil s.bank_assem.str);
              means = λ ops b run. (s2, d ++ t1, cc', regroup s2 d t1 et e, run);
              attribs1 = f1;
              attribs2 = f2;
              attribs_out = form;
              stays1 = λ h. cc;
              stays2 = λ h. cc;
              progress = ground arith;
            }
        | inr (d, e, e') ↦
            let cc'' = recover (mk minus n2 l2 x2) e cc' in
            record {
              z = short_z keep minus ats (record s { pool = some p });
              called =
                  unfold compose_callback slicer_zipper in
                  rw (
                    slice-short (mk keep n1 l1 x1) (mk minus n2 l2 x2) s1 d s.pool ats (some p) refl
                      refl eq ca cc'');
              b1 = b1;
              b2 = b2;
              w = [];
              t' = t1;
              u' = d ++ u2;
              v' = v;
              banks = record { first = k.first; second = k.second; pool = p; has_pool = refl };
              left1 = rw (← e') run1;
              left2 =
                  left_minus (mk minus n2 l2 x2) (mk keep n1 l1 x1) s1 d cc'' ca r2 b2 u2 v refl
                    run2;
              wrote = sym (append-nil s.bank_assem.str);
              means = λ ops b run. (s1, t1, ca, et, run);
              attribs1 = f1;
              attribs2 = f2;
              attribs_out = form;
              stays1 = λ h. cc;
              stays2 = λ h. cc;
              progress = ground arith;
            }
      ]

  pub plus_keep :
      Runs (mk plus n1 l1 x1 ∷ r1) b1 t u
      → Runs (mk keep n2 l2 x2 ∷ r2) b2 u v
      → Stepped (mk plus n1 l1 x1) (mk keep n2 l2 x2) s r1 r2 t v
  plus_keep (s1, b1', u1, ca, eb, eu, run1) (s2, u2, v2, cc', eu', ev, run2) =
      let (ats, p, eq, form) = composed plus keep in
      elim (compare_pieces s1 s2 u1 u2 (sym eu ∙ eu')) [
        | inl (d, e, e', h) ↦
            let ca' = recover (mk plus n1 l1 x1) e ca in
            let (bank, taken, left) =
              iter_take-rest s.bank1 s2 (d ++ b1') (k.first ∙ regroup s2 d b1' eb e) in
            let took : iter_take n2 s.bank1 ≡ ok (s2, bank) = rw (← cc'.0) taken in
            record {
              z = long_z plus keep ats (record s {
                pool = some p;
                bank1 = bank;
                bank_assem = append_string s2 s.bank_assem;
              });
              called =
                  unfold compose_callback slicer_zipper in
                  rw (
                    slice-long (mk plus n1 l1 x1) (mk keep n2 l2 x2) s2 d s.pool ats (some p) refl
                        refl eq ca' cc' h,
                    took,
                  );
              b1 = d ++ b1';
              b2 = b2;
              w = s2;
              t' = t;
              u' = d ++ u1;
              v' = v2;
              banks = record { first = left; second = k.second; pool = p; has_pool = refl };
              left1 =
                  left_plus (mk plus n1 l1 x1) (mk keep n2 l2 x2) s2 d ca' cc' r1 b1' t u1 refl
                    run1;
              left2 = rw (← e') run2;
              wrote = refl;
              means = λ ops b run. (s2, b, v2, cc', refl, ev, run);
              attribs1 = f1;
              attribs2 = f2;
              attribs_out = form;
              stays1 = λ h. cc;
              stays2 = λ h. cc;
              progress = ground arith;
            }
        | inr (d, e, e') ↦
            let cc'' = recover (mk keep n2 l2 x2) e cc' in
            let (bank, taken, left) = iter_take-rest s.bank1 s1 b1' (k.first ∙ eb) in
            let took : iter_take n1 s.bank1 ≡ ok (s1, bank) = rw (← ca.0) taken in
            record {
              z = short_z plus keep ats (record s {
                pool = some p;
                bank1 = bank;
                bank_assem = append_string s1 s.bank_assem;
              });
              called =
                  unfold compose_callback slicer_zipper in
                  rw (
                    slice-short (mk plus n1 l1 x1) (mk keep n2 l2 x2) s1 d s.pool ats (some p) refl
                        refl eq ca cc'',
                    took,
                  );
              b1 = b1';
              b2 = b2;
              w = s1;
              t' = t;
              u' = d ++ u2;
              v' = d ++ v2;
              banks = record { first = left; second = k.second; pool = p; has_pool = refl };
              left1 = rw (← e') run1;
              left2 =
                  left_keep (mk keep n2 l2 x2) (mk plus n1 l1 x1) s1 d cc'' ca r2 b2 u2 v2 refl
                    run2;
              wrote = refl;
              means = λ ops b run. (s1, b, d ++ v2, ca, refl, regroup s1 d v2 ev e, run);
              attribs1 = f1;
              attribs2 = f2;
              attribs_out = form;
              stays1 = λ h. cc;
              stays2 = λ h. cc;
              progress = ground arith;
            }
      ]

  pub plus_minus :
      Runs (mk plus n1 l1 x1 ∷ r1) b1 t u
      → Runs (mk minus n2 l2 x2 ∷ r2) b2 u v
      → Stepped (mk plus n1 l1 x1) (mk minus n2 l2 x2) s r1 r2 t v
  plus_minus (s1, b1', u1, ca, eb, eu, run1) (s2, u2, cc', eu', run2) =
      let (ats, p, eq, form) = composed plus minus in
      elim (compare_pieces s1 s2 u1 u2 (sym eu ∙ eu')) [
        | inl (d, e, e', h) ↦
            let ca' = recover (mk plus n1 l1 x1) e ca in
            let (bank, skipped, left) =
              iter_skip-rest s.bank1 s2 (d ++ b1') (k.first ∙ regroup s2 d b1' eb e) in
            let few : min n1 n2 ≡ length s2 = omega (arith, ca'.0, cc'.0, length-append s2 d) in
            record {
              z = long_z plus minus ats (record s { pool = some p; bank1 = bank });
              called =
                  unfold compose_callback slicer_zipper in
                  rw (
                    few,
                    skipped,
                    slice-long (mk plus n1 l1 x1) (mk minus n2 l2 x2) s2 d s.pool ats (some p) refl
                        refl eq ca' cc' h,
                  );
              b1 = d ++ b1';
              b2 = b2;
              w = [];
              t' = t;
              u' = d ++ u1;
              v' = v;
              banks = record { first = left; second = k.second; pool = p; has_pool = refl };
              left1 =
                  left_plus (mk plus n1 l1 x1) (mk minus n2 l2 x2) s2 d ca' cc' r1 b1' t u1 refl
                    run1;
              left2 = rw (← e') run2;
              wrote = sym (append-nil s.bank_assem.str);
              means = λ ops b run. run;
              attribs1 = f1;
              attribs2 = f2;
              attribs_out = form;
              stays1 = λ h. cc;
              stays2 = λ h. cc;
              progress = ground arith;
            }
        | inr (d, e, e') ↦
            let cc'' = recover (mk minus n2 l2 x2) e cc' in
            let (bank, skipped, left) = iter_skip-rest s.bank1 s1 b1' (k.first ∙ eb) in
            let few : min n1 n2 ≡ length s1 = omega (arith, ca.0, cc''.0, length-append s1 d) in
            record {
              z = short_z plus minus ats (record s { pool = some p; bank1 = bank });
              called =
                  unfold compose_callback slicer_zipper in
                  rw (
                    few,
                    skipped,
                    slice-short (mk plus n1 l1 x1) (mk minus n2 l2 x2) s1 d s.pool ats (some p) refl
                        refl eq ca cc'',
                  );
              b1 = b1';
              b2 = b2;
              w = [];
              t' = t;
              u' = d ++ u2;
              v' = v;
              banks = record { first = left; second = k.second; pool = p; has_pool = refl };
              left1 = rw (← e') run1;
              left2 =
                  left_minus (mk minus n2 l2 x2) (mk plus n1 l1 x1) s1 d cc'' ca r2 b2 u2 v refl
                    run2;
              wrote = sym (append-nil s.bank_assem.str);
              means = λ ops b run. run;
              attribs1 = f1;
              attribs2 = f2;
              attribs_out = form;
              stays1 = λ h. cc;
              stays2 = λ h. cc;
              progress = ground arith;
            }
      ]
