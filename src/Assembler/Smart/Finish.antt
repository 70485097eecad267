-- ===== src/Assembler/Smart/Finish.antt =====
-- `SmartOpAssembler` at the end of a document: the last keep may go.
use etherpad_go.Prelude.{
  ◌≡◌, ◌⊎◌, inl, inr, refl, sym, ap, ◌∙◌, List, [], ◌∷◌, ◌++◌, Text, append_assoc, append-nil, Bool,
  true, false, Bool-cases, text_eq, ◌&&◌,
}
use etherpad_go.Op.{Op, plus, minus, keep, is_blank, code_eq}
use etherpad_go.Op.RoundTrip.{serialize, serialize-append}
use etherpad_go.Apply.Runs.{Step-map, Step-code, Runs, Refines, Runs-Refines}
use etherpad_go.Assembler.Merging
use etherpad_go.Assembler.Merging.{Merging, new_merging, flush, empty_buf}
use etherpad_go.Assembler.Merging.Pending.{
  pending-AllOps, AllOps, AllOps-append, pending, flush-written, flush-blank,
}
use etherpad_go.Assembler.Smart.{Smart, flush_keeps, flush_plus_minus, to_string, end_document}
use etherpad_go.Assembler.Smart.Tracks.{
  Coded, Good, view, view-AllOps, AllOps-Good, flush_plus_minus-Tracks,
}
use etherpad_go.Assembler.Smart.Keeps.{Knows}

-- Keeps at the end add nothing.
Runs-keeps :
    (F : Text → Type 0) (ks : List Op) (bank t u : Text)
    → AllOps (Coded F keep) ks
    → Runs ks bank t u
    → t ≡ u
Runs-keeps F [] bank t u all h = h
Runs-keeps F (k ∷ ks) bank t u ((e, f), all) h =
    let (s, t', u', c, e1, e2, r) = Step-code k (Runs ks) bank t u e h in
    e1 ∙ ap (λ x. s ++ x) (Runs-keeps F ks bank t' u' all r) ∙ sym e2

pub Runs-drop_keeps :
    (F : Text → Type 0) (xs ks : List Op) (bank t u : Text)
    → AllOps (Coded F keep) ks
    → Runs (xs ++ ks) bank t u
    → Runs xs bank t u
Runs-drop_keeps F [] ks bank t u all h = Runs-keeps F ks bank t u all h
Runs-drop_keeps F (x ∷ xs) ks bank t u all h =
    Step-map x.opcode x (Runs (xs ++ ks)) (Runs xs) (λ b t' u'. Runs-drop_keeps F xs ks b t' u' all)
      bank t u h

-- What the document's end writes of the keeps: all that is pending, or nothing.
module _ (m : Merging) where
  flush-of_blank : (b : Bool) → is_blank m.buf_op.opcode ≡ true → flush b m ≡ m
  unfolding flush
  flush-of_blank b h = rw h

  flush_end_cases : (flush true m ≡ flush false m) ⊎ (flush true m ≡ empty_buf m)
  unfolding flush
  flush_end_cases = elim (Bool-cases (is_blank m.buf_op.opcode)) [
    | inl b ↦ inl (rw b)
    | inr b ↦ elim (Bool-cases (code_eq m.buf_op.opcode keep && text_eq m.buf_op.attribs [])) [
      | inl d ↦ inr (rw (b, d))
      | inr w ↦ inl (rw (b, w))
    ]
  ]

  to_string-empty_buf : (Merging.to_string (empty_buf m)).0 ≡ m.assem.serialized
  unfolding Merging.to_string flush
  to_string-empty_buf = refl

to_string-flush :
    (m : Merging)
    → (Merging.to_string (flush false m)).0 ≡ m.assem.serialized ++ serialize (pending m)
unfolding Merging.to_string
to_string-flush m =
    ap (λ (x : Merging). x.assem.serialized) (flush-of_blank (flush false m) false (flush-blank m))
    ∙ flush-written m

end_written :
    (m : Merging)
    → ((Merging.to_string (Merging.end_document m)).0 ≡ m.assem.serialized ++ serialize (pending m))
      ⊎ ((Merging.to_string (Merging.end_document m)).0 ≡ m.assem.serialized)
unfolding Merging.end_document
end_written m = elim (flush_end_cases m) [
  | inl e ↦ inl (rw e (to_string-flush m))
  | inr e ↦ inr (rw e (to_string-empty_buf m))
]

-- The ops that the finished assembler has written.
abbrev pub Written : (Text → Type 0) → Smart → List Op → Type 0
Written F sm given =
    (ops : List Op) × ((to_string (end_document sm)).0 ≡ serialize ops)
    × AllOps (Good F) ops
    × ((bank t u : Text) → Runs given bank t u → Runs ops bank t u)

module _ (F : Text → Type 0) (sm : Smart) (given : List Op) (k : Knows F sm given) where
  open k use {outs, mo, po, ko, tracks, means, split}

  written : List Op
  written = outs ++ (view sm.minus_assem mo ++ view sm.plus_assem po)

  text_before :
      (to_string (end_document sm)).0
      ≡ serialize written ++ (Merging.to_string (Merging.end_document sm.keep_assem)).0
  unfolding to_string end_document flush_keeps flush_plus_minus written
  text_before =
      ap (λ s. s ++ (Merging.to_string (Merging.end_document sm.keep_assem)).0)
        (flush_plus_minus-Tracks F sm outs mo po ko tracks).text

  written-Good : AllOps (Good F) written
  unfolding written
  written-Good =
      let ms = view sm.minus_assem mo in
      let ps = view sm.plus_assem po in
      AllOps-append (Good F) outs (ms ++ ps) tracks.outs_good (
        AllOps-append (Good F) ms ps
          (AllOps-Good F minus ms refl (view-AllOps F minus sm.minus_assem mo tracks.minuses))
          (AllOps-Good F plus ps refl (view-AllOps F plus sm.plus_assem po tracks.pluses)))

  -- The whole, before the end decides on the last keep.
  means_written : Refines given (written ++ view sm.keep_assem ko)
  unfolding written
  means_written =
      rw
        (
          append_assoc outs (view sm.minus_assem mo ++ view sm.plus_assem po)
              (view sm.keep_assem ko),
          append_assoc (view sm.minus_assem mo) (view sm.plus_assem po) (view sm.keep_assem ko),
        )
        means

  finished :
      (ks ds : List Op)
      → view sm.keep_assem ko ≡ ks ++ ds
      → AllOps (Coded F keep) ks
      → AllOps (Coded F keep) ds
      → (Merging.to_string (Merging.end_document sm.keep_assem)).0 ≡ serialize ks
      → Written F sm given
  finished ks ds e all dropped w = (
    written ++ ks,
    text_before ∙ ap (λ s. serialize written ++ s) w ∙ sym (serialize-append written ks),
    AllOps-append (Good F) written ks written-Good (AllOps-Good F keep ks refl all),
    λ bank t u h. Runs-drop_keeps F (written ++ ks) ds bank t u dropped (
        rw (append_assoc written ks ds, ← e)
          (Runs-Refines given (written ++ view sm.keep_assem ko) bank t u means_written h)),
  )

  -- The finished text is that of ops that do, wherever the appended ops run, what these do.
  pub end-Written : Written F sm given
  end-Written =
      let h = tracks.keeps in
      let held = pending-AllOps (Coded F keep) sm.keep_assem h.buf_good in
      elim (end_written sm.keep_assem) [
        | inl e ↦
            finished (view sm.keep_assem ko) [] (sym (append-nil (view sm.keep_assem ko)))
              (AllOps-append (Coded F keep) ko (pending sm.keep_assem) h.outs_good held) tt
              (e ∙ rw (h.written, serialize-append ko (pending sm.keep_assem)))
        | inr e ↦ finished ko (pending sm.keep_assem) refl h.outs_good held (e ∙ h.written)
      ]
