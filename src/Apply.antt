-- ===== src/Apply.antt =====
-- `ApplyToText` and `ApplyToAText` of changeset.go, and the text of lib/apool/AText.go.
-- `len(strings.Split(s, "\n")) - 1` is the number of newlines of `s`.
pub mod Runs
pub mod Meaning
use etherpad_go.Prelude.{
  pos, Bool, ◌&&◌, not, eqb_ℤ, List, [], ◌∷◌, ◌++◌, Text, text_eq, length, count_lines,
  if◌then◌else◌, Option,
}
use etherpad_go.Op.{OpCode, Op, blank, plus, minus, keep, deserialize_ops}
use etherpad_go.StringIterator.{
  StringIterator, new_iterator, remaining, iter_take, iter_peek, iter_skip,
}
use etherpad_go.Pool.{APool}
use etherpad_go.Changeset.{Changeset, unpack}
use etherpad_go.Compose.{apply_to_attribution}
use etherpad_go.Result.{
  Result, ok, err, mismatched_length, wrong_newlines, invalid_op_type, ◌>>=◌, ◌>>◌,
}

pub record ApplyState : Type 0 where
  pub bank : StringIterator
  pub text : StringIterator
  pub out : Text

abbrev pub check_newlines : Op → Text → Result (Unit {0})
check_newlines op peeked =
    if eqb_ℤ op.lines (pos (count_lines peeked)) then ok tt else err wrong_newlines

abbrev pub apply_plus : Op → ApplyState → Result ApplyState
apply_plus op s = do
  peeked ← iter_peek op.chars s.bank
  check_newlines op peeked
  (taken, bank) ← iter_take op.chars s.bank
  ok (record s { bank = bank; out = s.out ++ taken })

abbrev pub apply_minus : Op → ApplyState → Result ApplyState
apply_minus op s = do
  peeked ← iter_peek op.chars s.text
  check_newlines op peeked
  text ← iter_skip op.chars s.text
  ok (record s { text = text })

abbrev pub apply_keep : Op → ApplyState → Result ApplyState
apply_keep op s = do
  peeked ← iter_peek op.chars s.text
  check_newlines op peeked
  (taken, text) ← iter_take op.chars s.text
  ok (record s { text = text; out = s.out ++ taken })

abbrev pub apply_by : OpCode → Op → ApplyState → Result ApplyState
apply_by plus op s = apply_plus op s
apply_by minus op s = apply_minus op s
apply_by keep op s = apply_keep op s
apply_by blank op s = err invalid_op_type

unfoldable pub apply_ops : List Op → ApplyState → Result ApplyState
apply_ops [] s = ok s
apply_ops (op ∷ ops) s = apply_by op.opcode op s >>= apply_ops ops

-- The rest of the text is kept.
abbrev pub take_rest : ApplyState → Result Text
take_rest s = do (rest, text) ← iter_take (remaining s.text) s.text; ok (s.out ++ rest)

abbrev pub apply_start : Text → Text → ApplyState
apply_start bank text = record { bank = new_iterator bank; text = new_iterator text; out = [] }

unfoldable pub apply_unpacked : Changeset → Text → Result Text
apply_unpacked u text =
    if not (eqb_ℤ (pos (length text)) u.old_len) then err mismatched_length else (do
      ops ← deserialize_ops u.ops
      s ← apply_ops ops (apply_start u.char_bank text)
      take_rest s)

unfoldable pub apply_to_text : Text → Text → Result Text
apply_to_text cs text = do u ← unpack cs; apply_unpacked u text

pub record AText : Type 0 where
  pub text : Text
  pub attribs : Text

abbrev pub atexts_equal : AText → AText → Bool
atexts_equal a b = text_eq a.text b.text && text_eq a.attribs b.attribs

unfoldable pub apply_to_atext : Text → AText → APool → Result (AText × APool)
apply_to_atext cs atext pool = do
  text ← apply_to_text cs atext.text
  (attribs, pool') ← apply_to_attribution cs atext.attribs pool
  ok (record { text = text; attribs = attribs }, pool')
