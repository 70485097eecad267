-- ===== src/Sheet/Apply.antt =====
-- lib/sheet/apply.go: what an op does to a workbook.
pub mod Total
pub mod Tabs
use etherpad_go.Prelude.{
  ℤ, pos, pos_part, neg, wrap, ◌+ℤ◌, ◌-ℤ◌, ltb_ℤ, leb_ℤ, eqb_ℤ, leb, Bool, ◌&&◌, Option, none, some,
  List, [], Text, text_eq, codes, if◌then◌else◌, length,
}
use etherpad_go.Result.{Result, ok, err, panic, unknown_type, ◌>>=◌, ◌>>◌}
use etherpad_go.Sheet.Maps.{put, delete_where}
use etherpad_go.Sheet.Cell.{CellRef, Cell, at}
use etherpad_go.Sheet.Style.{StylePool, put_style}
use etherpad_go.Sheet.Ops.{
  OpType, Op, set_cell, set_style, clear_range, insert_rows, delete_rows, insert_cols, delete_cols,
  add_sheet, rename_sheet, delete_sheet, move_sheet, set_dimension, set_freeze, merge_cells,
  unmerge_cells,
}
use etherpad_go.Sheet.Validate.{validate}
use etherpad_go.Sheet.Grid.{
  Sheet, Span, new_sheet, sheet_set_cell, sheet_get_cell, shift_dims, shift_merges, intersects,
  remap, by_row, by_col,
}
use etherpad_go.Sheet.Workbook.{Workbook, find_sheet, write_sheet, remove_sheet, insert_sheet}

abbrev with_raw : Option Text → Cell → Cell
with_raw none c = c
with_raw (some t) c = record c { raw = t; value = []; value_type = [] }

abbrev with_value : Option Text → Cell → Cell
with_value none c = c
with_value (some t) c = record c { value = t }

abbrev with_value_type : Option Text → Cell → Cell
with_value_type none c = c
with_value_type (some t) c = record c { value_type = t }

-- The new style number of a cell; `none` where the code reads through a nil `StyleId`.
abbrev pub style_of : Option (List (Text × Text)) → Option ℤ → StylePool → Option (ℤ × StylePool)
style_of (some props) n styles = some (put_style props styles)
style_of none (some n) styles = some (n, styles)
style_of none none styles = none

abbrev kept_style : Option (ℤ × StylePool) → Cell → StylePool → ℤ × StylePool
kept_style none c styles = (c.style_id, styles)
kept_style (some r) c styles = r

abbrev store : CellRef → Cell → Sheet → ℤ × StylePool → Result (Sheet × StylePool)
store r c s (n, styles) = ok (sheet_set_cell r (record c { style_id = n }) s, styles)

abbrev pub or_nil_panic : Option (ℤ × StylePool) → Result (ℤ × StylePool)
or_nil_panic none = panic
or_nil_panic (some r) = ok r

abbrev in_range : Op → CellRef → Bool
in_range op r =
    leb_ℤ op.row r.row && leb_ℤ r.row op.end_row && leb_ℤ op.col r.col && leb_ℤ r.col op.end_col

-- The merges that the op's rectangle touches are dropped.
abbrev absorb : Op → Sheet → List (CellRef × Span)
absorb op s = delete_where (λ a sp. intersects a sp op.row op.col op.end_row op.end_col) s.merges

abbrev merge_into : Op → Sheet → Sheet
merge_into op s = if eqb_ℤ op.end_row op.row && eqb_ℤ op.end_col op.col then s else record s {
  merges =
      put etherpad_go.Sheet.Cell.ref_eq (at op.row op.col)
        (record {
          rows = wrap (wrap (op.end_row -ℤ op.row) +ℤ pos 1);
          cols = wrap (wrap (op.end_col -ℤ op.col) +ℤ pos 1);
        })
        (absorb op s);
}

abbrev dimension_into : Op → Sheet → Sheet
dimension_into op s =
    if text_eq op.axis (codes "col")
    then record s { col_widths = put eqb_ℤ op.index op.size s.col_widths }
    else record s { row_heights = put eqb_ℤ op.index op.size s.row_heights }

-- The four functions that `remap` gets.
abbrev pub inserted_row : ℤ → ℤ → CellRef → Option CellRef
inserted_row i n r = if leb_ℤ i r.row then some (at (wrap (r.row +ℤ n)) r.col) else some r

abbrev pub inserted_col : ℤ → ℤ → CellRef → Option CellRef
inserted_col i n r = if leb_ℤ i r.col then some (at r.row (wrap (r.col +ℤ n))) else some r

abbrev pub deleted_row : ℤ → ℤ → CellRef → Option CellRef
deleted_row i n r =
    if leb_ℤ i r.row && ltb_ℤ r.row (wrap (i +ℤ n))
    then none
    else if leb_ℤ (wrap (i +ℤ n)) r.row
    then some (at (wrap (r.row -ℤ n)) r.col)
    else some r

abbrev pub deleted_col : ℤ → ℤ → CellRef → Option CellRef
deleted_col i n r =
    if leb_ℤ i r.col && ltb_ℤ r.col (wrap (i +ℤ n))
    then none
    else if leb_ℤ (wrap (i +ℤ n)) r.col
    then some (at r.row (wrap (r.col -ℤ n)))
    else some r

abbrev move_rows : (CellRef → Option CellRef) → ℤ → ℤ → Sheet → Sheet
move_rows f index delta s = record (remap f s) {
  row_heights = shift_dims s.row_heights index delta;
  merges = shift_merges s.merges by_row index delta;
}

abbrev move_cols : (CellRef → Option CellRef) → ℤ → ℤ → Sheet → Sheet
move_cols f index delta s = record (remap f s) {
  col_widths = shift_dims s.col_widths index delta;
  merges = shift_merges s.merges by_col index delta;
}

-- The ops on one sheet. The sheet-list ops do not get here.
unfoldable pub apply_in_sheet : OpType → Op → Sheet → StylePool → Result (Sheet × StylePool)
apply_in_sheet set_cell op s styles =
    let r = at op.row op.col in
    let c =
      with_value_type op.value_type (with_value op.value (with_raw op.raw (sheet_get_cell r s))) in
    store r c s (kept_style (style_of op.props op.style_id styles) c styles)
apply_in_sheet set_style op s styles =
    let r = at op.row op.col in
    or_nil_panic (style_of op.props op.style_id styles) >>= store r (sheet_get_cell r s) s
apply_in_sheet clear_range op s styles =
    ok (record s { cells = delete_where (λ r c. in_range op r) s.cells }, styles)
apply_in_sheet set_dimension op s styles = ok (dimension_into op s, styles)
apply_in_sheet set_freeze op s styles =
    ok (record s { frozen_rows = op.frozen_rows; frozen_cols = op.frozen_cols }, styles)
apply_in_sheet merge_cells op s styles = ok (merge_into op s, styles)
apply_in_sheet unmerge_cells op s styles = ok (record s { merges = absorb op s }, styles)
apply_in_sheet insert_rows op s styles =
    ok (move_rows (inserted_row op.index op.count) op.index op.count s, styles)
apply_in_sheet delete_rows op s styles =
    ok (move_rows (deleted_row op.index op.count) op.index (wrap (neg op.count)) s, styles)
apply_in_sheet insert_cols op s styles =
    ok (move_cols (inserted_col op.index op.count) op.index op.count s, styles)
apply_in_sheet delete_cols op s styles =
    ok (move_cols (deleted_col op.index op.count) op.index (wrap (neg op.count)) s, styles)
apply_in_sheet k op s styles = err unknown_type

abbrev pub add_new : Option Sheet → Op → Workbook → Workbook
add_new (some s) op w = w
add_new none op w = record w {
  sheets = insert_sheet (pos_part op.index) (new_sheet op.sheet op.name) w.sheets;
}

abbrev pub rename_found : Option Sheet → Op → Workbook → Workbook
rename_found none op w = w
rename_found (some s) op w = record w {
  sheets = write_sheet op.sheet (record s { name = op.name }) w.sheets;
}

abbrev pub move_found : Option Sheet → Op → Workbook → Workbook
move_found none op w = w
move_found (some s) op w = record w {
  sheets = insert_sheet (pos_part op.to_index) s (remove_sheet op.sheet w.sheets);
}

abbrev write_found : Op → Workbook → Sheet × StylePool → Result Workbook
write_found op w (s, styles) =
    ok (record { sheets = write_sheet op.sheet s w.sheets; styles = styles })

abbrev pub in_found : Option Sheet → Op → Workbook → Result Workbook
in_found none op w = ok w
in_found (some s) op w = apply_in_sheet op.op_type op s w.styles >>= write_found op w

unfoldable pub apply_valid : OpType → Op → Workbook → Result Workbook
apply_valid add_sheet op w = ok (add_new (find_sheet op.sheet w.sheets) op w)
apply_valid delete_sheet op w =
    ok (if leb (length w.sheets) 1 then w else record w { sheets = remove_sheet op.sheet w.sheets })
apply_valid rename_sheet op w = ok (rename_found (find_sheet op.sheet w.sheets) op w)
apply_valid move_sheet op w = ok (move_found (find_sheet op.sheet w.sheets) op w)
apply_valid k op w = in_found (find_sheet op.sheet w.sheets) op w

unfoldable pub apply_op : Op → Workbook → Result Workbook
apply_op op w = validate op >> apply_valid op.op_type op w
