-- ===== src/Assembler/Smart.antt =====
-- lib/changeset/SmartOpAssembler.go: between two keeps all deletions come before all insertions.
pub mod Tracks
pub mod Keeps
pub mod Finish
pub mod Normal
use etherpad_go.Prelude.{ℤ, pos, ◌+ℤ◌, ◌-ℤ◌, Text, if◌then◌else◌, ◌==◌, ◌||◌}
use etherpad_go.Op.{OpCode, Op, blank, plus, minus, keep, is_blank, code_eq}
use etherpad_go.Assembler.{StringAssembler, new_string_assembler, append_string}
use etherpad_go.Assembler.Merging
use etherpad_go.Assembler.Merging.{Merging, new_merging}

pub record Smart : Type 0 where
  pub minus_assem : Merging
  pub plus_assem : Merging
  pub keep_assem : Merging
  pub assem : StringAssembler
  pub last_opcode : OpCode
  pub length_change : ℤ

abbrev pub new_smart : Smart
new_smart = record {
  minus_assem = new_merging;
  plus_assem = new_merging;
  keep_assem = new_merging;
  assem = new_string_assembler;
  last_opcode = blank;
  length_change = pos 0;
}

unfoldable pub flush_keeps : Smart → Smart
flush_keeps sm =
    let (text, keeps) = Merging.to_string sm.keep_assem in
    record sm { assem = append_string text sm.assem; keep_assem = Merging.clear keeps }

unfoldable pub flush_plus_minus : Smart → Smart
flush_plus_minus sm =
    let (minus_text, minuses) = Merging.to_string sm.minus_assem in
    let (plus_text, pluses) = Merging.to_string sm.plus_assem in
    record sm {
      minus_assem = Merging.clear minuses;
      plus_assem = Merging.clear pluses;
      assem = append_string plus_text (append_string minus_text sm.assem);
    }

abbrev pub append_minus : Op → Smart → Smart
append_minus op sm = record sm {
  minus_assem = Merging.append op sm.minus_assem;
  length_change = sm.length_change -ℤ pos op.chars;
}

abbrev pub append_plus : Op → Smart → Smart
append_plus op sm = record sm {
  plus_assem = Merging.append op sm.plus_assem;
  length_change = sm.length_change +ℤ pos op.chars;
}

abbrev pub append_keep : Op → Smart → Smart
append_keep op sm = record sm { keep_assem = Merging.append op sm.keep_assem }

-- What the opcode asks for.
abbrev pub append_by : OpCode → Op → Smart → Smart
append_by blank op sm = sm
append_by minus op sm = append_minus op (if code_eq sm.last_opcode keep then flush_keeps sm else sm)
append_by plus op sm = append_plus op (if code_eq sm.last_opcode keep then flush_keeps sm else sm)
append_by keep op sm =
    append_keep op (if code_eq sm.last_opcode keep then sm else flush_plus_minus sm)

unfoldable pub append : Op → Smart → Smart
append op sm =
    if is_blank op.opcode || op.chars == 0
    then sm
    else record (append_by op.opcode op sm) { last_opcode = op.opcode }

unfoldable pub to_string : Smart → Text × Smart
to_string sm = let sm' = flush_keeps (flush_plus_minus sm) in (sm'.assem.str, sm')

unfoldable pub end_document : Smart → Smart
end_document sm = record sm { keep_assem = Merging.end_document sm.keep_assem }

-- `Clear` keeps the last opcode.
abbrev pub clear : Smart → Smart
clear sm = record new_smart { last_opcode = sm.last_opcode }
