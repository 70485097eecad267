-- ===== src/WellFormed.antt =====
-- `ValidateWellFormed` of lib/changeset/validate.go. Its errors are those of the cases, without the numbers.
pub mod Feeds
use etherpad_go.Prelude.{
  ℕ, ◌+◌, pos, leb_ℤ, eqb_ℤ, leb, List, [], ◌∷◌, Text, length, take, drop, count_lines, ◌==◌,
}
use etherpad_go.Op.{OpCode, Op, blank, plus, minus, keep, deserialize_ops}
use etherpad_go.Changeset.{unpack}
use etherpad_go.Slicer.{guard}
use etherpad_go.Result.{
  Result, ok, chars_lt_lines, bank_too_short, bank_newlines, excess_bank, ◌>>=◌, ◌>>◌,
}

-- One round of the loop gives the new `bankPos`.
abbrev pub validate_insert : Text → Op → ℕ → Result ℕ
validate_insert bank op bank_pos = do
  guard (leb (bank_pos + op.chars) (length bank)) bank_too_short
  guard (eqb_ℤ (pos (count_lines (take op.chars (drop bank_pos bank)))) op.lines) bank_newlines
  ok (bank_pos + op.chars)

abbrev pub validate_by : OpCode → Text → Op → ℕ → Result ℕ
validate_by plus bank op bank_pos = validate_insert bank op bank_pos
validate_by minus bank op bank_pos = ok bank_pos
validate_by keep bank op bank_pos = ok bank_pos
validate_by blank bank op bank_pos = ok bank_pos

unfoldable pub validate_from : Text → List Op → ℕ → Result (Unit {0})
validate_from bank [] bank_pos = guard (bank_pos == length bank) excess_bank
validate_from bank (op ∷ ops) bank_pos = do
  guard (leb_ℤ op.lines (pos op.chars)) chars_lt_lines
  next ← validate_by op.opcode bank op bank_pos
  validate_from bank ops next

unfoldable pub validate_well_formed : Text → Result (Unit {0})
validate_well_formed cs = do
  u ← unpack cs
  ops ← deserialize_ops u.ops
  validate_from u.char_bank ops 0
