-- ===== src/Sheet/Validate.antt =====
-- `Op.Validate` of lib/sheet/op.go.
use etherpad_go.Prelude.{
  ℤ, pos, ltb_ℤ, leb_ℤ, ltb, Bool, true, false, ◌&&◌, ◌||◌, not, Option, none, some, [], text_eq,
  codes, length,
}
use etherpad_go.Result.{
  Result, Error, ok, err, missing_sheet, no_payload, negative_coord, invalid_bounds, negative_index,
  bad_count, no_name, long_name, bad_axis, bad_size, bad_freeze, unknown_type, ◌>>◌,
}
use etherpad_go.Sheet.Ops.{
  OpType, Op, set_cell, set_style, clear_range, insert_rows, delete_rows, insert_cols, delete_cols,
  add_sheet, rename_sheet, delete_sheet, move_sheet, set_dimension, set_freeze, merge_cells,
  unmerge_cells, other_type,
}
use etherpad_go.Sheet.Props.{validate_opt_props}

-- `if test { return err }`
abbrev pub reject : Bool → Error → Result (Unit {0})
reject true e = err e
reject false e = ok tt

abbrev pub is_nil {ℓ} : {A : Type ℓ} → Option A → Bool
is_nil none = true
is_nil (some a) = false

abbrev pub negative : ℤ → Bool
negative x = ltb_ℤ x (pos 0)

abbrev pub check_cell : Bool → Op → Result (Unit {0})
check_cell no_fields op =
    reject no_fields no_payload
    >> (reject (negative op.row || negative op.col) negative_coord >> validate_opt_props op.props)

abbrev pub check_bounds : Op → Result (Unit {0})
check_bounds op =
    reject
      (negative op.row || negative op.col || ltb_ℤ op.end_row op.row || ltb_ℤ op.end_col op.col)
      invalid_bounds

abbrev pub check_band : Op → Result (Unit {0})
check_band op =
    reject (negative op.index) negative_index >> reject (leb_ℤ op.count (pos 0)) bad_count

-- `len` counts bytes.
abbrev pub check_name : Op → Result (Unit {0})
check_name op =
    reject (text_eq op.name []) no_name
    >> (reject (ltb 128 (length op.name)) long_name >> reject (negative op.index) negative_index)

abbrev pub check_dimension : Op → Result (Unit {0})
check_dimension op =
    reject (not (text_eq op.axis (codes "col")) && not (text_eq op.axis (codes "row"))) bad_axis
    >> (reject (negative op.index) negative_index
        >> reject (leb_ℤ op.size (pos 0) || ltb_ℤ (pos 4096) op.size) bad_size)

abbrev pub check_freeze : Op → Result (Unit {0})
check_freeze op =
    reject
      (negative op.frozen_rows
        || ltb_ℤ (pos 1) op.frozen_rows
        || negative op.frozen_cols
        || ltb_ℤ (pos 1) op.frozen_cols)
      bad_freeze

abbrev pub validate_type : OpType → Op → Result (Unit {0})
validate_type set_cell op = check_cell (is_nil op.raw && is_nil op.style_id && is_nil op.props) op
validate_type set_style op = check_cell (is_nil op.style_id && is_nil op.props) op
validate_type clear_range op = check_bounds op
validate_type merge_cells op = check_bounds op
validate_type unmerge_cells op = check_bounds op
validate_type insert_rows op = check_band op
validate_type delete_rows op = check_band op
validate_type insert_cols op = check_band op
validate_type delete_cols op = check_band op
validate_type add_sheet op = check_name op
validate_type rename_sheet op = check_name op
validate_type delete_sheet op = ok tt
validate_type move_sheet op = reject (negative op.to_index) negative_index
validate_type set_dimension op = check_dimension op
validate_type set_freeze op = check_freeze op
validate_type (other_type t) op = err unknown_type

unfoldable pub validate : Op → Result (Unit {0})
validate op = reject (text_eq op.sheet []) missing_sheet >> validate_type op.op_type op
