-- ===== src/Assembler/Smart/Tracks.antt =====
-- What a `SmartOpAssembler` has written and what its three parts hold back.
use etherpad_go.Prelude.{◌≡◌, refl, sym, ap, ◌∙◌, List, [], ◌∷◌, ◌++◌, Text, append_assoc, false}
use etherpad_go.Op.{OpCode, Op, plus, minus, keep, is_blank}
use etherpad_go.Op.RoundTrip.{serialize, serialize-append}
use etherpad_go.Apply.Runs.{
  Step, Runs, Refines, Refines-refl, Refines-trans, Refines-cons, Step-code, Step-map,
}
use etherpad_go.Assembler.Merging
use etherpad_go.Assembler.Merging.{Merging, new_merging, flush}
use etherpad_go.Assembler.Merging.Pending.{
  Holds, Holds-new, AllOps, AllOps-append, pending, pending-AllOps, flush-written,
}
use etherpad_go.Assembler.Smart.{Smart, new_smart, flush_keeps, flush_plus_minus}

-- All that a part was given, as it would be written now.
abbrev pub view : Merging → List Op → List Op
view m outs = outs ++ pending m

-- An op of one opcode whose attributes have the property `F`.
abbrev pub Coded : (Text → Type 0) → OpCode → OpCode → Text → Type 0
Coded F k c a = (c ≡ k) × F a

abbrev pub Good : (Text → Type 0) → OpCode → Text → Type 0
Good F c a = (is_blank c ≡ false) × F a

module _ (F : Text → Type 0) where
  pub AllOps-Good :
      (k : OpCode) (ops : List Op)
      → is_blank k ≡ false
      → AllOps (Coded F k) ops
      → AllOps (Good F) ops
  AllOps-Good k [] h all = tt
  AllOps-Good k (op ∷ ops) h ((e, f), all) = ((ap is_blank e ∙ h, f), AllOps-Good k ops h all)

  -- The text is that of `outs`, and the parts have written `mo`, `po` and `ko`.
  pub record Tracks (sm : Smart) (outs mo po ko : List Op) : Type 0 where
    pub minuses : Holds (Coded F minus) sm.minus_assem mo
    pub pluses : Holds (Coded F plus) sm.plus_assem po
    pub keeps : Holds (Coded F keep) sm.keep_assem ko
    pub text : sm.assem.str ≡ serialize outs
    pub outs_good : AllOps (Good F) outs

  pub Tracks-new : Tracks new_smart [] [] [] []
  Tracks-new = record {
    minuses = Holds-new (Coded F minus);
    pluses = Holds-new (Coded F plus);
    keeps = Holds-new (Coded F keep);
    text = refl;
    outs_good = tt;
  }

  pub view-AllOps :
      (k : OpCode) (m : Merging) (outs : List Op)
      → Holds (Coded F k) m outs
      → AllOps (Coded F k) (view m outs)
  view-AllOps k m outs h =
      AllOps-append (Coded F k) outs (pending m) h.outs_good
        (pending-AllOps (Coded F k) m h.buf_good)

  -- What `String()` of a part answers.
  to_string-view :
      (k : OpCode) (m : Merging) (outs : List Op)
      → Holds (Coded F k) m outs
      → (Merging.to_string m).0 ≡ serialize (view m outs)
  to_string-view k m outs h =
      unfold Merging.to_string in rw (flush-written m, h.written, serialize-append outs (pending m))

  module _ (sm : Smart) (outs mo po ko : List Op) (t : Tracks sm outs mo po ko) where
    pub flush_keeps-Tracks : Tracks (flush_keeps sm) (outs ++ view sm.keep_assem ko) mo po []
    unfolding flush_keeps
    flush_keeps-Tracks = record {
      minuses = t.minuses;
      pluses = t.pluses;
      keeps = Holds-new (Coded F keep);
      text = rw (
        to_string-view keep sm.keep_assem ko t.keeps,
        t.text,
        serialize-append outs (view sm.keep_assem ko),
      );
      outs_good = AllOps-append (Good F) outs (view sm.keep_assem ko) t.outs_good (
          AllOps-Good keep (view sm.keep_assem ko) refl
            (view-AllOps keep sm.keep_assem ko t.keeps));
    }

    pub flush_plus_minus-Tracks :
        Tracks
          (flush_plus_minus sm)
          (outs ++ (view sm.minus_assem mo ++ view sm.plus_assem po))
          []
          []
          ko
    unfolding flush_plus_minus
    flush_plus_minus-Tracks =
        let ms = view sm.minus_assem mo in
        let ps = view sm.plus_assem po in
        record {
          minuses = Holds-new (Coded F minus);
          pluses = Holds-new (Coded F plus);
          keeps = t.keeps;
          text = rw (
            to_string-view minus sm.minus_assem mo t.minuses,
            to_string-view plus sm.plus_assem po t.pluses,
            t.text,
            serialize-append outs (ms ++ ps),
            serialize-append ms ps,
            append_assoc (serialize outs) (serialize ms) (serialize ps),
          );
          outs_good = AllOps-append (Good F) outs (ms ++ ps) t.outs_good (
              AllOps-append (Good F) ms ps
                (AllOps-Good minus ms refl (view-AllOps minus sm.minus_assem mo t.minuses))
                (AllOps-Good plus ps refl (view-AllOps plus sm.plus_assem po t.pluses)));
        }

-- A deletion behind an insertion does what it does before it.
Step-swap :
    (p d : Op) (P : Text → Text → Text → Type 0) (bank t u : Text)
    → Step plus p (Step minus d P) bank t u
    → Step minus d (Step plus p P) bank t u
Step-swap p d P bank t u (s, b', u', c, e1, e2, (s', t', c', e3, r)) =
    (s', t', c', e3, (s, b', u', c, e1, e2, r))

swap-Refines : (p d : Op) → p.opcode ≡ plus → d.opcode ≡ minus → Refines (p ∷ d ∷ []) (d ∷ p ∷ [])
swap-Refines p d ep ed ws bank t u h =
    let back =
      λ (k : OpCode) (e : k ≡ p.opcode) (b t' u' : Text). Step-code p (Runs ws) b t' u' e in
    Step-code d (Runs (p ∷ ws)) bank t u (sym ed) (
      Step-map minus d (Step plus p (Runs ws)) (Runs (p ∷ ws)) (back plus (sym ep)) bank t u (
        Step-swap p d (Runs ws) bank t u (
          Step-map plus p (Runs (d ∷ ws)) (Step minus d (Runs ws))
            (λ b t' u'. Step-code d (Runs ws) b t' u' ed) bank t u
            (Step-code p (Runs (d ∷ ws)) bank t u ep h))))

pub sink-Refines :
    (F : Text → Type 0) (d : Op) (ps : List Op)
    → d.opcode ≡ minus
    → AllOps (Coded F plus) ps
    → Refines (ps ++ (d ∷ [])) (d ∷ ps)
sink-Refines F d [] e all = Refines-refl (d ∷ [])
sink-Refines F d (p ∷ ps) e ((ep, f), all) =
    Refines-trans (p ∷ (ps ++ (d ∷ []))) (p ∷ d ∷ ps) (d ∷ p ∷ ps)
      (Refines-cons p (ps ++ (d ∷ [])) (d ∷ ps) (sink-Refines F d ps e all))
      (λ ws. swap-Refines p d ep e (ps ++ ws))
