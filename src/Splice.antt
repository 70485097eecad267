-- ===== src/Splice.antt =====
-- `OpsFromText`, `MakeSplice`, `MakeAttribution`, `MakeAText`, `CloneAText` of changeset.go: ops and
-- changesets made from texts.
pub mod Meaning
use etherpad_go.Prelude.{
  ℕ, suc, ◌+◌, ◌-◌, ℤ, pos, pos_part, ltb_ℤ, ◌+ℤ◌, ◌-ℤ◌, min, Bool, true, ◌&&◌, text_eq, Option,
  none, some, List, [], ◌∷◌, ◌++◌, Text, length, count_lines, newline, if◌then◌else◌, ◌==◌,
}
use etherpad_go.Pool.{Attribute, APool}
use etherpad_go.Attribs.{update, map_to_string, trim_space}
use etherpad_go.Op.{OpCode, Op, plus, minus, keep, code_eq}
use etherpad_go.Assembler.Smart.{Smart, new_smart, append, end_document, to_string}
use etherpad_go.Assembler.Smart.Normal.{append_all}
use etherpad_go.Changeset.{pack, rune_slice}
use etherpad_go.Apply.{AText}
use etherpad_go.Result.{Result, ok, err, panic, negative_start, negative_ndel, ◌>>=◌}

-- What is behind the last newline of a text, and what ends with it: `RuneLastIndex(s, "\n") + 1` is
-- the length of the latter, 0 if there is no newline.
unfoldable pub last_line_start : Text → ℕ
last_line_start [] = 0
last_line_start (c ∷ s) =
    let n = last_line_start s in if n == 0 then (if c == newline then 1 else 0) else suc n

pub record KeepArgs : Type 0 where
  pub string_attribs : Option Text
  pub apool_attribs : Option (List Attribute)

-- `Update` puts no attribute: each has a blank value, which deletes.
unfoldable pub all_deleted : Bool → List Attribute → Bool
all_deleted empty_is_delete [] = true
all_deleted empty_is_delete (a ∷ ats) =
    empty_is_delete && text_eq (trim_space a.value) [] && all_deleted empty_is_delete ats

-- `Set` reads through the pool's pointer, which is nil where there is no pool.
abbrev pooled : Bool → List Attribute → Option APool → Result (Text × Option APool)
pooled empty_is_delete ats none = if all_deleted empty_is_delete ats then ok ([], none) else panic
pooled empty_is_delete ats (some p) = do
  (s, p') ← map_to_string (update ats empty_is_delete (record { pool = p; attrs = [] }))
  ok (s, some p')

abbrev op_attribs :
    OpCode → Option Text → Option (List Attribute) → Option APool → Result (Text × Option APool)
op_attribs code (some s) ats pool = ok (s, pool)
op_attribs code none (some ats) pool = pooled (code_eq code plus) ats pool
op_attribs code none none pool = ok ([], pool)

abbrev attribs_of : OpCode → Option KeepArgs → Option APool → Result (Text × Option APool)
attribs_of code none pool = op_attribs code none (some []) pool
attribs_of code (some k) pool = op_attribs code k.string_attribs k.apool_attribs pool

-- One op up to the last newline, and one for the rest.
abbrev pub lines_and_rest : OpCode → Text → Text → List Op
lines_and_rest code text attribs =
    let n = last_line_start text in
    if n == 0
    then record { opcode = code; chars = length text; lines = pos 0; attribs = attribs } ∷ []
    else record { opcode = code; chars = n; lines = pos (count_lines text); attribs = attribs }
      ∷ record { opcode = code; chars = length text - n; lines = pos 0; attribs = attribs }
      ∷ []

unfoldable pub ops_from_text :
    OpCode → Text → Option KeepArgs → Option APool → Result (List Op × Option APool)
ops_from_text code text k pool = do
  (attribs, pool') ← attribs_of code k pool
  ok (lines_and_rest code text attribs, pool')

abbrev or_no_attribs : Option Text → Text
or_no_attribs none = []
or_no_attribs (some s) = s

abbrev text_attribs : Text → Option KeepArgs
text_attribs s = some (record { string_attribs = some s; apool_attribs = none })

-- The three parts of a splice, for a start and a number of deletions within the text.
abbrev pub splice_ops : Text → ℕ → ℕ → Text → Text → Option APool → Result (List Op × Option APool)
splice_ops orig start ndel ins attribs pool = do
  (equal_ops, p) ← ops_from_text keep (rune_slice orig 0 start) (text_attribs []) none
  (deleted_ops, p') ←
      ops_from_text minus (rune_slice orig start (start + ndel)) (text_attribs []) none
  (inserted_ops, pool') ← ops_from_text plus ins (text_attribs attribs) pool
  ok (equal_ops ++ (deleted_ops ++ inserted_ops), pool')

abbrev pub assembled : List Op → Text
assembled ops = (to_string (end_document (append_all ops new_smart))).0

unfoldable pub splice_within :
    Text → ℕ → ℕ → Text → Text → Option APool → Result (Text × Option APool)
splice_within orig start ndel ins attribs pool = do
  (ops, pool') ← splice_ops orig start ndel ins attribs pool
  ok (
    pack (pos (length orig)) (pos (length orig) +ℤ pos (length ins) -ℤ pos ndel) (assembled ops)
        ins,
    pool',
  )

unfoldable pub make_splice :
    Text → ℤ → ℤ → Text → Option Text → Option APool → Result (Text × Option APool)
make_splice orig start ndel ins attribs pool =
    if ltb_ℤ start (pos 0)
    then err negative_start
    else if ltb_ℤ ndel (pos 0)
    then err negative_ndel
    else let from = min (pos_part start) (length orig) in
      splice_within orig from (min (pos_part ndel) (length orig - from)) ins (or_no_attribs attribs)
        pool

-- No `EndDocument` here.
unfoldable pub make_attribution : Text → Result Text
make_attribution text = do
  (ops, p) ← ops_from_text plus text none none
  ok (to_string (append_all ops new_smart)).0

abbrev made : Text → Option Text → Result Text
made text (some s) = ok s
made text none = make_attribution text

unfoldable pub make_atext : Text → Option Text → Result AText
make_atext text attribs = do s ← made text attribs; ok (record { text = text; attribs = s })

abbrev pub clone_atext : AText → AText
clone_atext a = record { text = a.text; attribs = a.attribs }
