-- ===== src/Assembler/Merging.antt =====
-- lib/changeset/MergingOpAssembler.go: consecutive ops with one opcode and one attribute text are
-- written as one op, or as two where characters follow the last newline.
pub mod Pending
pub mod Keeps
use etherpad_go.Prelude.{
  ℕ, ◌+◌, pos, ◌+ℤ◌, eqb_ℤ, ltb_ℤ, Bool, true, false, ◌&&◌, [], Text, text_eq, if◌then◌else◌, ◌==◌,
}
use etherpad_go.Op.{Op, blank, keep, is_blank, code_eq, new_op}
use etherpad_go.Assembler.{OpAssembler, new_op_assembler, append_op}

pub record Merging : Type 0 where
  pub assem : OpAssembler
  pub buf_op : Op
  -- bufOpAdditionalCharsAfterNewline
  pub additional : ℕ

abbrev pub new_merging : Merging
new_merging = record { assem = new_op_assembler; buf_op = new_op blank; additional = 0 }

-- The buffered op, and what followed its last newline.
abbrev pub write_buf : Merging → Merging
write_buf m =
    let rest = record m.buf_op { chars = m.additional; lines = pos 0 } in
    if m.additional == 0 then record m { assem = append_op m.buf_op m.assem } else record {
      assem = append_op rest (append_op m.buf_op m.assem);
      buf_op = rest;
      additional = 0;
    }

abbrev pub empty_buf : Merging → Merging
empty_buf m = record m { buf_op = record m.buf_op { opcode = blank } }

unfoldable pub flush : Bool → Merging → Merging
flush is_end_document m =
    if is_blank m.buf_op.opcode
    then m
    else if is_end_document && (code_eq m.buf_op.opcode keep && text_eq m.buf_op.attribs [])
    then empty_buf m
    else empty_buf (write_buf m)

-- An op that continues the buffered one.
abbrev pub merge_op : Op → Merging → Merging
merge_op op m =
    if ltb_ℤ (pos 0) op.lines
    then record m {
      buf_op = record m.buf_op {
        chars = m.buf_op.chars + (m.additional + op.chars);
        lines = m.buf_op.lines +ℤ op.lines;
      };
      additional = 0;
    }
    else if eqb_ℤ m.buf_op.lines (pos 0)
    then record m { buf_op = record m.buf_op { chars = m.buf_op.chars + op.chars } }
    else record m { additional = m.additional + op.chars }

unfoldable pub append : Op → Merging → Merging
append op m =
    if op.chars == 0
    then m
    else if code_eq m.buf_op.opcode op.opcode && text_eq m.buf_op.attribs op.attribs
    then merge_op op m
    else record (flush false m) { buf_op = op }

unfoldable pub end_document : Merging → Merging
end_document m = flush true m

-- `String()` flushes before it answers.
unfoldable pub to_string : Merging → Text × Merging
to_string m = let m' = flush false m in (m'.assem.serialized, m')

abbrev pub clear : Merging → Merging
clear m = new_merging
