-- ===== src/CheckRep.antt =====
-- `OldLen` and `CheckRep` of changeset.go: whether a changeset is well formed and in its canonical
-- form.
pub mod Fit
pub mod Canonical
use etherpad_go.Prelude.{
  ℤ, pos, wrap, ◌+ℤ◌, ◌-ℤ◌, leb_ℤ, eqb_ℤ, ltb, Bool, false, not, ◌||◌, List, [], ◌∷◌, Text, text_eq,
  length, take, drop, count_lines, newline, ◌==◌,
}
use etherpad_go.Op.{OpCode, Op, blank, plus, minus, keep, deserialize_ops}
use etherpad_go.Assembler.Smart.{Smart, new_smart, append, end_document, to_string}
use etherpad_go.Changeset.{Changeset, unpack, pack}
use etherpad_go.Slicer.{guard}
use etherpad_go.Result.{
  Result, ok, err, old_pos_overflow, bank_too_short, bank_newlines, bank_no_final_newline,
  new_len_exceeded, unknown_opcode, wrong_claimed_length, excess_bank, not_canonical, ◌>>=◌, ◌>>◌,
}

unfoldable pub old_len : Text → Result ℤ
old_len cs = do u ← unpack cs; ok u.old_len

unfoldable pub ends_with_newline : Text → Bool
ends_with_newline [] = false
ends_with_newline (c ∷ []) = c == newline
ends_with_newline (c ∷ d ∷ s) = ends_with_newline (d ∷ s)

-- The variables of the loop. The sums are those of `int`.
pub record RepState : Type 0 where
  pub old_pos : ℤ
  pub calc_new_len : ℤ
  pub char_bank : Text
  pub assem : Smart

abbrev pub plus_chars : ℤ → Op → ℤ
plus_chars n op = wrap (n +ℤ pos op.chars)

abbrev check_insert : Changeset → Op → RepState → Result RepState
check_insert u op s = do
  guard (not (ltb (length s.char_bank) op.chars)) bank_too_short
  guard (eqb_ℤ (pos (count_lines (take op.chars s.char_bank))) op.lines) bank_newlines
  guard (eqb_ℤ op.lines (pos 0) || ends_with_newline (take op.chars s.char_bank))
      bank_no_final_newline
  guard (leb_ℤ (plus_chars s.calc_new_len op) u.new_len) new_len_exceeded
  ok (record s {
    char_bank = drop op.chars s.char_bank;
    calc_new_len = plus_chars s.calc_new_len op;
  })

abbrev check_delete : Changeset → Op → RepState → Result RepState
check_delete u op s = do
  guard (leb_ℤ (plus_chars s.old_pos op) u.old_len) old_pos_overflow
  ok (record s { old_pos = plus_chars s.old_pos op })

abbrev pub check_by : OpCode → Changeset → Op → RepState → Result RepState
check_by keep u op s =
    ok (record s { old_pos = plus_chars s.old_pos op; calc_new_len = plus_chars s.calc_new_len op })
check_by minus u op s = check_delete u op s
check_by plus u op s = check_insert u op s
check_by blank u op s = err unknown_opcode

unfoldable pub check_ops : Changeset → List Op → RepState → Result RepState
check_ops u [] s = ok s
check_ops u (op ∷ ops) s = do
  s' ← check_by op.opcode u op s
  check_ops u ops (record s' { assem = append op s'.assem })

abbrev rep_start : Changeset → RepState
rep_start u = record {
  old_pos = pos 0;
  calc_new_len = pos 0;
  char_bank = u.char_bank;
  assem = new_smart;
}

abbrev pub final_len : Changeset → RepState → ℤ
final_len u s = wrap (s.calc_new_len +ℤ wrap (u.old_len -ℤ s.old_pos))

abbrev pub normalized : Changeset → RepState → Text
normalized u s = pack u.old_len (final_len u s) (to_string (end_document s.assem)).0 u.char_bank

unfoldable pub check_end : Text → Changeset → RepState → Result Text
check_end cs u s = do
  guard (eqb_ℤ (final_len u s) u.new_len) wrong_claimed_length
  guard (text_eq s.char_bank []) excess_bank
  guard (text_eq (normalized u s) cs) not_canonical
  ok cs

unfoldable pub check_rep : Text → Result Text
check_rep cs = do
  u ← unpack cs
  ops ← deserialize_ops u.ops
  s ← check_ops u ops (rep_start u)
  check_end cs u s
