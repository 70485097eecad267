-- ===== src/Assembler/Smart/Keeps.antt =====
-- `SmartOpAssembler` keeps the meaning of the ops that are appended to it.
use etherpad_go.Prelude.{
  ◌≡◌, inl, inr, refl, ap, List, [], ◌∷◌, ◌++◌, Text, append_assoc, append-nil, true, false,
  Bool-cases, ◌==◌, arith,
}
use etherpad_go.Op.{OpCode, Op, blank, plus, minus, keep, is_blank, code_eq}
use etherpad_go.Apply.Runs.{
  Refines, Refines-refl, Refines-trans, Refines-append_left, Refines-append_right,
}
use etherpad_go.Apply.Runs.Joins.{empty-Refines}
use etherpad_go.Assembler.Merging
use etherpad_go.Assembler.Merging.{Merging, new_merging, flush, empty_buf}
use etherpad_go.Assembler.Merging.Pending.{pending}
use etherpad_go.Assembler.Merging.Keeps.{append-Appended}
use etherpad_go.Assembler.Smart.{
  Smart, new_smart, flush_keeps, flush_plus_minus, append, append_plus, append_minus, append_keep,
  append_by,
}
use etherpad_go.Assembler.Smart.Tracks.{
  Coded, Tracks, Tracks-new, view, view-AllOps, flush_keeps-Tracks, flush_plus_minus-Tracks,
  sink-Refines,
}

-- All that the assembler was given, in the order in which it would be written.
abbrev pub total : Smart → List Op → List Op → List Op → List Op → List Op
total sm outs mo po ko =
    outs ++ (view sm.minus_assem mo ++ (view sm.plus_assem po ++ view sm.keep_assem ko))

-- Between two appends only the keeps, or only the rest, are held back.
abbrev pub Split : OpCode → List Op → List Op → List Op → Type 0
Split keep ms ps ks = (ms ≡ []) × (ps ≡ [])
Split blank ms ps ks = ks ≡ []
Split plus ms ps ks = ks ≡ []
Split minus ms ps ks = ks ≡ []

-- The assembler was given the ops `given`: what it holds means what they mean.
pub record Knows (F : Text → Type 0) (sm : Smart) (given : List Op) : Type 0 where
  pub outs : List Op
  pub mo : List Op
  pub po : List Op
  pub ko : List Op
  pub tracks : Tracks F sm outs mo po ko
  pub means : Refines given (total sm outs mo po ko)
  pub split :
      Split sm.last_opcode (view sm.minus_assem mo) (view sm.plus_assem po) (view sm.keep_assem ko)

pub Knows-new : (F : Text → Type 0) → Knows F new_smart []
Knows-new F = record {
  outs = [];
  mo = [];
  po = [];
  ko = [];
  tracks = Tracks-new F;
  means = Refines-refl [];
  split = refl;
}

extend :
    (given front part part' : List Op) (op : Op)
    → Refines given (front ++ part)
    → Refines (part ++ (op ∷ [])) part'
    → Refines (given ++ (op ∷ [])) (front ++ part')
extend given front part part' op f g =
    Refines-trans (given ++ (op ∷ [])) (front ++ (part ++ (op ∷ []))) (front ++ part')
      (rw (← append_assoc front part (op ∷ []))
        (Refines-append_right given (front ++ part) (op ∷ []) f))
      (Refines-append_left front (part ++ (op ∷ [])) part' g)

module _ (F : Text → Type 0) (op : Op) (sm : Smart) (outs mo po ko given : List Op)
    (t : Tracks F sm outs mo po ko) (means : Refines given (total sm outs mo po ko))
    (good : F op.attribs) where
  -- The three branches of `Append`, behind their flushes.
  append_keep-Knows :
      op.opcode ≡ keep
      → view sm.minus_assem mo ≡ []
      → view sm.plus_assem po ≡ []
      → Knows F (record (append_keep op sm) { last_opcode = keep }) (given ++ (op ∷ []))
  append_keep-Knows e em ep =
      let (ko', h, r) =
        append-Appended (Coded F keep) op sm.keep_assem ko t.keeps (ap is_blank e) (e, good) in
      let m' = Merging.append op sm.keep_assem in
      record {
        outs = outs;
        mo = mo;
        po = po;
        ko = ko';
        tracks = record {
          minuses = t.minuses;
          pluses = t.pluses;
          keeps = h;
          text = t.text;
          outs_good = t.outs_good;
        };
        means =
            rw (em, ep)
              (extend given outs (view sm.keep_assem ko) (view m' ko') op (rw (em, ep) at means)
                (rw (append_assoc ko (pending sm.keep_assem) (op ∷ [])) r));
        split = (em, ep);
      }

  append_plus-Knows :
      op.opcode ≡ plus
      → view sm.keep_assem ko ≡ []
      → Knows F (record (append_plus op sm) { last_opcode = plus }) (given ++ (op ∷ []))
  append_plus-Knows e ek =
      let (po', h, r) =
        append-Appended (Coded F plus) op sm.plus_assem po t.pluses (ap is_blank e) (e, good) in
      let ms = view sm.minus_assem mo in
      let ps = view sm.plus_assem po in
      let ps' = view (Merging.append op sm.plus_assem) po' in
      let before : Refines given ((outs ++ ms) ++ ps) =
        rw (append_assoc outs ms ps, ← append-nil ps) (rw ek at means) in
      record {
        outs = outs;
        mo = mo;
        po = po';
        ko = ko;
        tracks = record {
          minuses = t.minuses;
          pluses = h;
          keeps = t.keeps;
          text = t.text;
          outs_good = t.outs_good;
        };
        means =
            rw (ek, append-nil ps', ← append_assoc outs ms ps')
              (extend given (outs ++ ms) ps ps' op before
                (rw (append_assoc po (pending sm.plus_assem) (op ∷ [])) r));
        split = ek;
      }

  append_minus-Knows :
      op.opcode ≡ minus
      → view sm.keep_assem ko ≡ []
      → Knows F (record (append_minus op sm) { last_opcode = minus }) (given ++ (op ∷ []))
  append_minus-Knows e ek =
      let (mo', h, r) =
        append-Appended (Coded F minus) op sm.minus_assem mo t.minuses (ap is_blank e) (e, good) in
      let ms = view sm.minus_assem mo in
      let ps = view sm.plus_assem po in
      let ms' = view (Merging.append op sm.minus_assem) mo' in
      let before : Refines given (outs ++ (ms ++ ps)) = rw (← append-nil ps) (rw ek at means) in
      let sunk : Refines ((ms ++ ps) ++ (op ∷ [])) (ms ++ (op ∷ ps)) =
        rw (append_assoc ms ps (op ∷ [])) (
          Refines-append_left ms (ps ++ (op ∷ [])) (op ∷ ps)
            (sink-Refines F op ps e (view-AllOps F plus sm.plus_assem po t.pluses))) in
      let merged : Refines (ms ++ (op ∷ ps)) (ms' ++ ps) = rw (← append_assoc ms (op ∷ []) ps) (
        Refines-append_right (ms ++ (op ∷ [])) ms' ps
          (rw (append_assoc mo (pending sm.minus_assem) (op ∷ [])) r)) in
      record {
        outs = outs;
        mo = mo';
        po = po;
        ko = ko;
        tracks = record {
          minuses = h;
          pluses = t.pluses;
          keeps = t.keeps;
          text = t.text;
          outs_good = t.outs_good;
        };
        means =
            rw (ek, append-nil ps)
              (extend given outs (ms ++ ps) (ms' ++ ps) op before (
                Refines-trans ((ms ++ ps) ++ (op ∷ [])) (ms ++ (op ∷ ps)) (ms' ++ ps) sunk merged));
        split = ek;
      }

Split-keep :
    (c : OpCode) (ms ps ks : List Op)
    → code_eq c keep ≡ true
    → Split c ms ps ks
    → (ms ≡ []) × (ps ≡ [])
unfolding code_eq
Split-keep blank ms ps ks e h = cc
Split-keep plus ms ps ks e h = cc
Split-keep minus ms ps ks e h = cc
Split-keep keep ms ps ks e h = h

Split-other :
    (c : OpCode) (ms ps ks : List Op) → code_eq c keep ≡ false → Split c ms ps ks → ks ≡ []
unfolding code_eq
Split-other blank ms ps ks e h = h
Split-other plus ms ps ks e h = h
Split-other minus ms ps ks e h = h
Split-other keep ms ps ks e h = cc

module _ (F : Text → Type 0) (op : Op) (sm : Smart) (given : List Op) (k : Knows F sm given)
    (good : F op.attribs) where
  open k use {outs, mo, po, ko, tracks, means, split}

  flushed_keeps :
      view sm.minus_assem mo ≡ []
      → view sm.plus_assem po ≡ []
      → Refines given (total (flush_keeps sm) (outs ++ view sm.keep_assem ko) mo po [])
  unfolding flush_keeps
  flushed_keeps em ep =
      rw (em, ep, append-nil (outs ++ view sm.keep_assem ko)) (rw (em, ep) at means)

  flushed_rest : Refines given (
      total
        (flush_plus_minus sm)
        (outs ++ (view sm.minus_assem mo ++ view sm.plus_assem po))
        []
        []
        ko)
  unfolding flush_plus_minus
  flushed_rest =
      rw
        (
          append_assoc outs (view sm.minus_assem mo ++ view sm.plus_assem po)
              (view sm.keep_assem ko),
          append_assoc (view sm.minus_assem mo) (view sm.plus_assem po) (view sm.keep_assem ko),
        )
        means

  no_keeps : view (flush_keeps sm).keep_assem [] ≡ []
  unfolding flush_keeps
  no_keeps = refl

  no_minuses : view (flush_plus_minus sm).minus_assem [] ≡ []
  unfolding flush_plus_minus
  no_minuses = refl

  no_pluses : view (flush_plus_minus sm).plus_assem [] ≡ []
  unfolding flush_plus_minus
  no_pluses = refl

  append_by-Knows :
      (code : OpCode)
      → op.opcode ≡ code
      → is_blank code ≡ false
      → Knows F (record (append_by code op sm) { last_opcode = code }) (given ++ (op ∷ []))
  append_by-Knows blank e b = cc
  append_by-Knows keep e b = elim (Bool-cases (code_eq sm.last_opcode keep)) [
    | inl l ↦
        let (em, ep) = Split-keep sm.last_opcode _ _ (view sm.keep_assem ko) l split in
        rw l (append_keep-Knows F op sm outs mo po ko given tracks means good e em ep)
    | inr l ↦ rw l (
        append_keep-Knows F op (flush_plus_minus sm)
          (outs ++ (view sm.minus_assem mo ++ view sm.plus_assem po)) [] [] ko given
          (flush_plus_minus-Tracks F sm outs mo po ko tracks) flushed_rest good e no_minuses
          no_pluses)
  ]
  append_by-Knows plus e b = elim (Bool-cases (code_eq sm.last_opcode keep)) [
    | inl l ↦
        let (em, ep) = Split-keep sm.last_opcode _ _ (view sm.keep_assem ko) l split in
        rw l (
          append_plus-Knows F op (flush_keeps sm) (outs ++ view sm.keep_assem ko) mo po [] given
            (flush_keeps-Tracks F sm outs mo po ko tracks) (flushed_keeps em ep) good e no_keeps)
    | inr l ↦ rw l (
        append_plus-Knows F op sm outs mo po ko given tracks means good e
          (Split-other sm.last_opcode (view sm.minus_assem mo) (view sm.plus_assem po) _ l split))
  ]
  append_by-Knows minus e b = elim (Bool-cases (code_eq sm.last_opcode keep)) [
    | inl l ↦
        let (em, ep) = Split-keep sm.last_opcode _ _ (view sm.keep_assem ko) l split in
        rw l (
          append_minus-Knows F op (flush_keeps sm) (outs ++ view sm.keep_assem ko) mo po [] given
            (flush_keeps-Tracks F sm outs mo po ko tracks) (flushed_keeps em ep) good e no_keeps)
    | inr l ↦ rw l (
        append_minus-Knows F op sm outs mo po ko given tracks means good e
          (Split-other sm.last_opcode (view sm.minus_assem mo) (view sm.plus_assem po) _ l split))
  ]

  append_nothing : (op.chars == 0) ≡ true → Knows F sm (given ++ (op ∷ []))
  append_nothing z = record {
    outs = outs;
    mo = mo;
    po = po;
    ko = ko;
    tracks = tracks;
    split = split;
    means =
        Refines-trans (given ++ (op ∷ [])) (given ++ []) (total sm outs mo po ko)
          (Refines-append_left given (op ∷ []) [] (empty-Refines op (ground arith)))
          (rw (append-nil given) means);
  }

  -- After an `Append` the assembler means what it meant, and then the op.
  pub append-Knows : is_blank op.opcode ≡ false → Knows F (append op sm) (given ++ (op ∷ []))
  unfolding append
  append-Knows b = elim (Bool-cases (op.chars == 0)) [
    | inl z ↦ rw (b, z) (append_nothing z)
    | inr n ↦ rw (b, n) (append_by-Knows op.opcode refl b)
  ]
