-- ===== src/WellFormed/Feeds.antt =====
-- What `ValidateWellFormed` of lib/changeset/validate.go accepts.
use etherpad_go.Prelude.{
  pos, eqb_ℤ→eq, leb_ℤ, eqb_ℤ, count_lines, take, drop, drop-add, take-append-drop, length-take_le,
  length-drop, ℕ, ◌+◌, Bool, true, false, List, [], ◌∷◌, ◌++◌, Text, leb, ◌==◌, length, ◌≡◌, ◌≢◌,
  refl, sym, ◌∙◌, subst, arith, leb→le, ==_iff,
}
use etherpad_go.Op.{OpCode, Op, blank, plus, minus, keep, deserialize_ops}
use etherpad_go.Changeset.{Changeset, unpack}
use etherpad_go.Slicer.{guard}
use etherpad_go.Result.{
  ok, Error, >>=-eq-ok, chars_lt_lines, bank_too_short, bank_newlines, excess_bank,
}
use etherpad_go.WellFormed.{validate_by, validate_from, validate_well_formed}

-- The bank is what the ops insert, piece after piece, and the lines of an op fit.
pub data Feeds : List Op → Text → Type 0 where
  nothing_left : Feeds [] []
  inserts :
      (op : Op) (ops : List Op) (piece bank : Text)
      → op.opcode ≡ plus
      → length piece ≡ op.chars
      → op.lines ≡ pos (count_lines piece)
      → Feeds ops bank
      → Feeds (op ∷ ops) (piece ++ bank)
  passes :
      (op : Op) (ops : List Op) (bank : Text)
      → op.opcode ≢ plus
      → leb_ℤ op.lines (pos op.chars) ≡ true
      → Feeds ops bank
      → Feeds (op ∷ ops) bank

guard-true : (b : Bool) (e : Error) {x : Unit {0}} → guard b e ≡ ok x → b ≡ true
guard-true true e h = refl
guard-true false e h = cc

drop-none : (bank : Text) (n : ℕ) → n ≡ length bank → drop n bank ≡ []
drop-none bank n h = length-zero (drop n bank) (omega (arith, length-drop n bank, h))
  where
    length-zero : (s : Text) → length s ≡ 0 → s ≡ []
    length-zero [] e = refl
    length-zero (c ∷ s) e = absurd (omega (arith, e))

-- One op, by its opcode.
validate_by-Feeds :
    (bank : Text) (op : Op) (ops : List Op) (bank_pos next : ℕ) (k : OpCode)
    → op.opcode ≡ k
    → leb_ℤ op.lines (pos op.chars) ≡ true
    → validate_by k bank op bank_pos ≡ ok next
    → Feeds ops (drop next bank)
    → Feeds (op ∷ ops) (drop bank_pos bank)
validate_by-Feeds bank op ops bank_pos next plus is lines step fed =
    let (_, enough, r1) =
      >>=-eq-ok (guard (leb (bank_pos + op.chars) (length bank)) bank_too_short) _ step in
    let (_, newlines, r2) =
      >>=-eq-ok
        (guard (eqb_ℤ (pos (count_lines (take op.chars (drop bank_pos bank)))) op.lines)
          bank_newlines)
        _ r1 in
    let same : next ≡ bank_pos + op.chars = cc in
    let piece = take op.chars (drop bank_pos bank) in
    let fits =
      leb→le _ _ (guard-true (leb (bank_pos + op.chars) (length bank)) bank_too_short enough) in
    let behind = subst (λ n. Feeds ops (drop n bank)) same fed in
    subst (λ t. Feeds (op ∷ ops) t) (take-append-drop op.chars (drop bank_pos bank))
      (inserts op ops piece (drop op.chars (drop bank_pos bank)) is
        (length-take_le op.chars (drop bank_pos bank)
          (omega (arith, fits, length-drop bank_pos bank)))
        (sym (eqb_ℤ→eq (pos (count_lines piece)) op.lines (guard-true _ bank_newlines newlines)))
        (subst (λ t. Feeds ops t) (drop-add bank_pos op.chars bank) behind))
validate_by-Feeds bank op ops bank_pos next minus is lines step fed =
    let same : next ≡ bank_pos = cc in
    passes op ops (drop bank_pos bank) (λ e. let wrong = sym is ∙ e in cc) lines
      (subst (λ n. Feeds ops (drop n bank)) same fed)
validate_by-Feeds bank op ops bank_pos next keep is lines step fed =
    let same : next ≡ bank_pos = cc in
    passes op ops (drop bank_pos bank) (λ e. let wrong = sym is ∙ e in cc) lines
      (subst (λ n. Feeds ops (drop n bank)) same fed)
validate_by-Feeds bank op ops bank_pos next blank is lines step fed =
    let same : next ≡ bank_pos = cc in
    passes op ops (drop bank_pos bank) (λ e. let wrong = sym is ∙ e in cc) lines
      (subst (λ n. Feeds ops (drop n bank)) same fed)

validate_from-Feeds :
    (bank : Text) (ops : List Op) (bank_pos : ℕ)
    → validate_from bank ops bank_pos ≡ ok tt
    → Feeds ops (drop bank_pos bank)
unfolding validate_from
validate_from-Feeds bank [] bank_pos e =
    let at_end : bank_pos ≡ length bank =
      (==_iff bank_pos (length bank)).0 (guard-true (bank_pos == length bank) excess_bank e) in
    subst (λ t. Feeds [] t) (sym (drop-none bank bank_pos at_end)) nothing_left
validate_from-Feeds bank (op ∷ ops) bank_pos e =
    let (_, lines, rest) = >>=-eq-ok (guard (leb_ℤ op.lines (pos op.chars)) chars_lt_lines) _ e in
    let (next, step, more) = >>=-eq-ok (validate_by op.opcode bank op bank_pos) _ rest in
    validate_by-Feeds bank op ops bank_pos next op.opcode refl
      (guard-true (leb_ℤ op.lines (pos op.chars)) chars_lt_lines lines) step
      (validate_from-Feeds bank ops next more)

-- A changeset that `ValidateWellFormed` accepts unpacks and its ops are read, and its bank is what they
-- insert, piece after piece, each with the newlines that its op says.
pub validate_well_formed-Feeds :
    (cs : Text)
    → validate_well_formed cs ≡ ok tt
    → (u : Changeset) × (ops : List Op) × (unpack cs ≡ ok u)
      × (deserialize_ops u.ops ≡ ok ops)
      × Feeds ops u.char_bank
unfolding validate_well_formed
validate_well_formed-Feeds cs e =
    let (u, got, rest) = >>=-eq-ok (unpack cs) _ e in
    let (ops, read, checked) = >>=-eq-ok (deserialize_ops u.ops) _ rest in
    (u, ops, got, read, validate_from-Feeds u.char_bank ops 0 checked)
