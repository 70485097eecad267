-- ===== src/Sheet/Transform.antt =====
-- lib/sheet/transform.go: an op is moved past an op that was ordered first.
pub mod Moved
pub mod Bounds
pub mod Room
pub mod Valid
use etherpad_go.Prelude.{
  ℤ, pos, neg, wrap, ◌+ℤ◌, ◌-ℤ◌, ltb_ℤ, leb_ℤ, Bool, true, false, not, ◌||◌, text_eq, codes,
  if◌then◌else◌,
}
use etherpad_go.Sheet.Ops.{
  OpType, Op, clear_range, insert_rows, delete_rows, insert_cols, delete_cols, set_dimension,
  merge_cells, unmerge_cells, is_structural,
}

abbrev pub has_range : OpType → Bool
has_range clear_range = true
has_range merge_cells = true
has_range unmerge_cells = true
has_range k = false

-- An insert for `delta >= 0`, else a delete of the band of `-delta` coordinates at `index`. Sums and
-- differences are those of `int`, which wrap around.
unfoldable pub shift_coord : ℤ → ℤ → ℤ → ℤ
shift_coord coord index delta =
    if leb_ℤ (pos 0) delta
    then (if leb_ℤ index coord then wrap (coord +ℤ delta) else coord)
    else if ltb_ℤ coord index
    then coord
    else if ltb_ℤ coord (wrap (index +ℤ wrap (neg delta)))
    then index
    else wrap (coord -ℤ wrap (neg delta))

-- Whether the op's own index counts rows, and whether it counts columns.
abbrev pub row_index : OpType → Op → Bool
row_index insert_rows op = true
row_index delete_rows op = true
row_index set_dimension op = text_eq op.axis (codes "row")
row_index k op = false

abbrev pub col_index : OpType → Op → Bool
col_index insert_cols op = true
col_index delete_cols op = true
col_index set_dimension op = text_eq op.axis (codes "col")
col_index k op = false

abbrev pub shift_if : Bool → ℤ → ℤ → ℤ → ℤ
shift_if b coord index delta = if b then shift_coord coord index delta else coord

abbrev pub shift_rows : Op → ℤ → ℤ → Op
shift_rows op index delta = record op {
  row = shift_coord op.row index delta;
  end_row = shift_if (has_range op.op_type) op.end_row index delta;
  index = shift_if (row_index op.op_type op) op.index index delta;
}

abbrev pub shift_cols : Op → ℤ → ℤ → Op
shift_cols op index delta = record op {
  col = shift_coord op.col index delta;
  end_col = shift_if (has_range op.op_type) op.end_col index delta;
  index = shift_if (col_index op.op_type op) op.index index delta;
}

abbrev pub transform_by : OpType → Op → Op → Op
transform_by insert_rows op applied = shift_rows op applied.index applied.count
transform_by delete_rows op applied = shift_rows op applied.index (wrap (neg applied.count))
transform_by insert_cols op applied = shift_cols op applied.index applied.count
transform_by delete_cols op applied = shift_cols op applied.index (wrap (neg applied.count))
transform_by k op applied = op

unfoldable pub transform : Op → Op → Op
transform op applied =
    if not (text_eq op.sheet applied.sheet) || not (is_structural applied)
    then op
    else transform_by applied.op_type op applied
