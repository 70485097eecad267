-- ===== src/Sheet/Ops.antt =====
-- lib/sheet/op.go: the operations on a workbook.
use etherpad_go.Prelude.{ℤ, Bool, true, false, Option, List, Text}

pub data OpType : Type 0 where
  set_cell set_style clear_range insert_rows delete_rows insert_cols delete_cols : OpType
  add_sheet rename_sheet delete_sheet move_sheet : OpType
  set_dimension set_freeze merge_cells unmerge_cells : OpType
  -- Any other string.
  other_type : Text → OpType

-- A Go pointer is an option; `props` is `none` for a nil map.
pub record Op : Type 0 where
  pub op_type : OpType
  pub sheet : Text
  pub base_rev : ℤ
  pub row : ℤ
  pub col : ℤ
  pub end_row : ℤ
  pub end_col : ℤ
  pub raw : Option Text
  pub value : Option Text
  pub value_type : Option Text
  pub style_id : Option ℤ
  pub props : Option (List (Text × Text))
  pub index : ℤ
  pub count : ℤ
  pub name : Text
  pub to_index : ℤ
  pub axis : Text
  pub size : ℤ
  pub frozen_rows : ℤ
  pub frozen_cols : ℤ

abbrev pub structural_type : OpType → Bool
structural_type insert_rows = true
structural_type delete_rows = true
structural_type insert_cols = true
structural_type delete_cols = true
structural_type k = false

abbrev pub is_structural : Op → Bool
is_structural op = structural_type op.op_type
