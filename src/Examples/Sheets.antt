-- ===== src/Examples/Sheets.antt =====
-- Spreadsheets: the theorems applied to a workbook with one sheet.
use etherpad_go.Prelude.{
  wrap, text_eq, arith, ℤ, pos, negsuc, ◌≡◌, refl, none, some, [], ◌∷◌, codes,
}
use etherpad_go.Result.{ok, err, negative_coord}
use etherpad_go.Sheet.Ops.{
  OpType, Op, insert_rows, set_cell, delete_rows, delete_sheet, merge_cells,
}
use etherpad_go.Sheet.Validate.{validate}
use etherpad_go.Sheet.Transform.{transform, shift_coord}
use etherpad_go.Sheet.Transform.Bounds.{shift_coord-cancel}
use etherpad_go.Sheet.Transform.Moved.{IsValid}
use etherpad_go.Sheet.Transform.Valid.{transform-IsValid}
use etherpad_go.Sheet.Transform.Room.{Room}
use etherpad_go.Sheet.Workbook.{Workbook, new_workbook, workbook_add_sheet}
use etherpad_go.Sheet.Apply.{apply_op, apply_valid}
use etherpad_go.Sheet.Apply.Tabs.{HasSheet, apply_op-HasSheet}
use etherpad_go.Sheet.Apply.Total.{apply_op-IsValid}
use etherpad_go.Sheet.Document.{new_document}
use etherpad_go.Sheet.Document.Replay.{IsReplayed, submit_all, submit_all-replay}

-- A workbook with the sheet "s".
abbrev one_sheet : Workbook
one_sheet = workbook_add_sheet (codes "s") (codes "Sheet1") new_workbook

abbrev op_of : OpType → ℤ → ℤ → ℤ → ℤ → Op
op_of k row end_row index count = record {
  op_type = k;
  sheet = codes "s";
  base_rev = pos 0;
  row = row;
  col = pos 0;
  end_row = end_row;
  end_col = pos 2;
  raw = some (codes "7");
  value = none;
  value_type = none;
  style_id = none;
  props = none;
  index = index;
  count = count;
  name = [];
  to_index = pos 0;
  axis = [];
  size = pos 0;
  frozen_rows = pos 0;
  frozen_cols = pos 0;
}

abbrev merge_op : Op
merge_op = op_of merge_cells (pos 2) (pos 4) (pos 0) (pos 0)

abbrev delete_op : Op
delete_op = op_of delete_rows (pos 0) (pos 0) (pos 1) (pos 2)

abbrev write_op : Op
write_op = op_of set_cell (pos 3) (pos 0) (pos 0) (pos 0)

merge_op-IsValid : IsValid merge_op
unfolding validate text_eq
merge_op-IsValid = refl

delete_op-IsValid : IsValid delete_op
unfolding validate text_eq
delete_op-IsValid = refl

write_op-IsValid : IsValid write_op
unfolding validate text_eq
write_op-IsValid = refl

merge_op-Room : Room merge_op 0
merge_op-Room = record {
  row = omega arith;
  col = omega arith;
  end_row = omega arith;
  end_col = omega arith;
  index = omega arith;
}

transform-IsValid_example : IsValid (transform merge_op delete_op)
transform-IsValid_example =
    transform-IsValid merge_op delete_op merge_op-IsValid delete_op-IsValid merge_op-Room
      (omega arith)

apply_op-IsValid_example : (w : Workbook) × (apply_op write_op one_sheet ≡ ok w)
apply_op-IsValid_example = apply_op-IsValid write_op one_sheet write_op-IsValid

-- Where the room is missing: an accepted insert carries row 3 past the end of `int`.
abbrev huge_op : Op
huge_op = op_of insert_rows (pos 0) (pos 0) (pos 0) (pos 9223372036854775807)

huge_op-IsValid : IsValid huge_op
unfolding validate text_eq
huge_op-IsValid = refl

write_op-overflow : validate (transform write_op huge_op) ≡ err negative_coord
unfolding validate text_eq transform shift_coord wrap
write_op-overflow = refl

submit_all-replay_example :
    IsReplayed one_sheet (submit_all (delete_op ∷ merge_op ∷ []) (new_document one_sheet))
submit_all-replay_example = submit_all-replay one_sheet (delete_op ∷ merge_op ∷ [])

shift_coord-cancel_example :
    shift_coord (shift_coord (pos 5) (pos 3) (pos 2)) (pos 3) (negsuc 1) ≡ pos 5
shift_coord-cancel_example = shift_coord-cancel 5 3 1 (omega arith) (omega arith)

-- The last sheet is not deleted.
delete_last : apply_op (op_of delete_sheet (pos 0) (pos 0) (pos 0) (pos 0)) one_sheet ≡ ok one_sheet
unfolding apply_op apply_valid validate text_eq workbook_add_sheet
delete_last = refl

apply_op-HasSheet_example : HasSheet one_sheet
unfolding workbook_add_sheet
apply_op-HasSheet_example =
    apply_op-HasSheet (op_of delete_sheet (pos 0) (pos 0) (pos 0) (pos 0)) one_sheet one_sheet
      delete_last (omega arith)
