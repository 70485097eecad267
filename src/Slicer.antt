-- ===== src/Slicer.antt =====
-- `SlicerZipperFunc` of changeset.go: one step of the composition of two op sequences. It consumes
-- the shorter of the two ops, cuts the longer one, and says what the two together do.
pub mod Cuts
pub mod Attributes
use etherpad_go.Prelude.{
  ◌-◌, pos, ◌-ℤ◌, leb_ℤ, eqb_ℤ, Bool, true, false, Option, Text, if◌then◌else◌, ◌==◌, ltb,
}
use etherpad_go.Op.{OpCode, Op, blank, plus, minus, keep}
use etherpad_go.Pool.{APool}
use etherpad_go.Attribs.{compose_attributes}
use etherpad_go.Result.{
  Error, Result, ok, err, chars_lt_lines, line_count_mismatch, unexpected_opcode, ◌>>=◌, ◌>>◌,
}

-- The op that comes out, the two ops as they are left, and the pool.
pub record Sliced : Type 0 where
  pub out : Op
  pub att : Op
  pub cs : Op
  pub pool : Option APool

abbrev pub guard : Bool → Error → Result (Unit {0})
guard true e = ok tt
guard false e = err e

abbrev pub blanked : Op → Op
blanked op = record op { opcode = blank }

-- The shorter op must not have more lines.
abbrev pub lines_agree : Op → Op → Bool
lines_agree a c =
    if ltb a.chars c.chars
    then leb_ℤ a.lines c.lines
    else if ltb c.chars a.chars
    then leb_ℤ c.lines a.lines
    else eqb_ℤ a.lines c.lines

abbrev pub is_keep_or_plus : OpCode → Bool
is_keep_or_plus keep = true
is_keep_or_plus plus = true
is_keep_or_plus blank = false
is_keep_or_plus minus = false

abbrev pub is_keep_or_minus : OpCode → Bool
is_keep_or_minus keep = true
is_keep_or_minus minus = true
is_keep_or_minus blank = false
is_keep_or_minus plus = false

abbrev pub out_code : OpCode → OpCode → OpCode
out_code plus keep = plus
out_code keep minus = minus
out_code keep keep = keep
out_code _ _ = blank

abbrev pub is_keep : OpCode → Bool
is_keep keep = true
is_keep blank = false
is_keep plus = false
is_keep minus = false

abbrev pub out_attribs : Op → Op → OpCode → Option APool → Result (Text × Option APool)
out_attribs a c minus pool = ok (c.attribs, pool)
out_attribs a c code pool = compose_attributes a.attribs c.attribs (is_keep a.opcode) pool

-- The longer op is left with what the shorter one does not cover.
abbrev pub cut : Op → Op → Op
cut long short = record long {
  opcode = if long.chars - short.chars == 0 then blank else long.opcode;
  chars = long.chars - short.chars;
  lines = long.lines -ℤ short.lines;
}

abbrev pub sliced_out : Op → Op → Op → Text → Op
sliced_out a c full ats = record {
  opcode = out_code a.opcode c.opcode;
  chars = full.chars;
  lines = full.lines;
  attribs = ats;
}

abbrev pub finish : Op → Op → Text × Option APool → Result Sliced
finish a c (ats, pool) =
    if ltb c.chars a.chars
    then ok (record { out = sliced_out a c c ats; att = cut a c; cs = blanked c; pool = pool })
    else ok (record { out = sliced_out a c a ats; att = blanked a; cs = cut c a; pool = pool })

-- Both ops cover text that they share: a keep or an insertion against a keep or a deletion.
unfoldable pub slice : Op → Op → Option APool → Result Sliced
slice a c pool = do
  guard (leb_ℤ a.lines (pos a.chars)) chars_lt_lines
  guard (leb_ℤ c.lines (pos c.chars)) chars_lt_lines
  guard (lines_agree a c) line_count_mismatch
  guard (is_keep_or_plus a.opcode) unexpected_opcode
  guard (is_keep_or_minus c.opcode) unexpected_opcode
  ats ← out_attribs a c c.opcode pool
  finish a c ats

abbrev pub take_cs : Op → Op → Option APool → Result Sliced
take_cs a c pool = ok (record { out = c; att = a; cs = blanked c; pool = pool })

abbrev pub take_att : Op → Op → Option APool → Result Sliced
take_att a c pool = ok (record { out = a; att = blanked a; cs = c; pool = pool })

-- The ladder of the source, by the two opcodes.
abbrev pub slicer_by : OpCode → OpCode → Op → Op → Option APool → Result Sliced
slicer_by blank cc' a c pool = take_cs a c pool
slicer_by minus blank a c pool = take_att a c pool
slicer_by minus plus a c pool = take_att a c pool
slicer_by minus minus a c pool = take_att a c pool
slicer_by minus keep a c pool = take_att a c pool
slicer_by plus blank a c pool = take_att a c pool
slicer_by plus plus a c pool = take_cs a c pool
slicer_by plus minus a c pool = slice a c pool
slicer_by plus keep a c pool = slice a c pool
slicer_by keep blank a c pool = take_att a c pool
slicer_by keep plus a c pool = take_cs a c pool
slicer_by keep minus a c pool = slice a c pool
slicer_by keep keep a c pool = slice a c pool

unfoldable pub slicer_zipper : Op → Op → Option APool → Result Sliced
slicer_zipper a c pool = slicer_by a.opcode c.opcode a c pool
