-- ===== src/Sheet/Grid.antt =====
-- lib/sheet/sheet.go: one sheet, its cells, dimensions and merged ranges.
use etherpad_go.Prelude.{
  ℤ, pos, wrap, ◌+ℤ◌, ◌-ℤ◌, ltb_ℤ, leb_ℤ, eqb_ℤ, Bool, ◌&&◌, Option, none, some, List, [], ◌∷◌,
  Text, if◌then◌else◌,
}
use etherpad_go.Sheet.Maps.{lookup, erase, put}
use etherpad_go.Sheet.Cell.{CellRef, Cell, at, ref_eq, zero_cell, is_empty}
use etherpad_go.Sheet.Transform.{shift_coord}

pub record Span : Type 0 where
  pub rows : ℤ
  pub cols : ℤ

pub record Sheet : Type 0 where
  pub id : Text
  pub name : Text
  pub cells : List (CellRef × Cell)
  pub col_widths : List (ℤ × ℤ)
  pub row_heights : List (ℤ × ℤ)
  pub frozen_rows : ℤ
  pub frozen_cols : ℤ
  pub merges : List (CellRef × Span)

abbrev pub new_sheet : Text → Text → Sheet
new_sheet id name = record {
  id = id;
  name = name;
  cells = [];
  col_widths = [];
  row_heights = [];
  frozen_rows = pos 0;
  frozen_cols = pos 0;
  merges = [];
}

unfoldable pub sheet_set_cell : CellRef → Cell → Sheet → Sheet
sheet_set_cell r c s = record s {
  cells = if is_empty c then erase ref_eq r s.cells else put ref_eq r c s.cells;
}

abbrev or_zero : Option Cell → Cell
or_zero none = zero_cell
or_zero (some c) = c

unfoldable pub sheet_get_cell : CellRef → Sheet → Cell
sheet_get_cell r s = or_zero (lookup ref_eq r s.cells)

-- The maps are rebuilt entry by entry into a new map; `none` drops an entry.
abbrev add_moved : ℤ → ℤ → ℤ → ℤ → List (ℤ × ℤ) → List (ℤ × ℤ)
add_moved i v index delta m =
    if ltb_ℤ delta (pos 0) && leb_ℤ index i && ltb_ℤ i (wrap (index -ℤ delta))
    then m
    else put eqb_ℤ (shift_coord i index delta) v m

unfoldable pub shift_dims : List (ℤ × ℤ) → ℤ → ℤ → List (ℤ × ℤ)
shift_dims [] index delta = []
shift_dims ((i, v) ∷ m) index delta = add_moved i v index delta (shift_dims m index delta)

unfoldable pub intersects : CellRef → Span → ℤ → ℤ → ℤ → ℤ → Bool
intersects anchor sp r0 c0 r1 c1 =
    leb_ℤ anchor.row r1
    && leb_ℤ r0 (wrap (wrap (anchor.row +ℤ sp.rows) -ℤ pos 1))
    && leb_ℤ anchor.col c1
    && leb_ℤ c0 (wrap (wrap (anchor.col +ℤ sp.cols) -ℤ pos 1))

unfoldable pub shift_end : ℤ → ℤ → ℤ → ℤ
shift_end coord index delta =
    if leb_ℤ (pos 0) delta && eqb_ℤ coord index then coord else shift_coord coord index delta

pub data Axis : Type 0 where
  by_row by_col : Axis

abbrev axis_lo : Axis → CellRef → ℤ
axis_lo by_row a = a.row
axis_lo by_col a = a.col

abbrev axis_span : Axis → Span → ℤ
axis_span by_row sp = sp.rows
axis_span by_col sp = sp.cols

abbrev moved_anchor : Axis → CellRef → ℤ → CellRef
moved_anchor by_row a n = at n a.col
moved_anchor by_col a n = at a.row n

abbrev moved_span : Axis → Span → ℤ → Span
moved_span by_row sp n = record sp { rows = n }
moved_span by_col sp n = record sp { cols = n }

abbrev put_merge : CellRef → Span → List (CellRef × Span) → List (CellRef × Span)
put_merge a sp m = if leb_ℤ sp.rows (pos 1) && leb_ℤ sp.cols (pos 1) then m else put ref_eq a sp m

abbrev add_merge : Axis → CellRef → Span → ℤ → ℤ → List (CellRef × Span) → List (CellRef × Span)
add_merge ax a sp lo span m =
    if leb_ℤ span (pos 0) then m else put_merge (moved_anchor ax a lo) (moved_span ax sp span) m

abbrev shift_merge : Axis → CellRef → Span → ℤ → ℤ → List (CellRef × Span) → List (CellRef × Span)
shift_merge ax a sp index delta m =
    let lo = shift_coord (axis_lo ax a) index delta in
    add_merge ax a sp lo
      (wrap (shift_end (wrap (axis_lo ax a +ℤ axis_span ax sp)) index delta -ℤ lo)) m

unfoldable pub shift_merges : List (CellRef × Span) → Axis → ℤ → ℤ → List (CellRef × Span)
shift_merges [] ax index delta = []
shift_merges ((a, sp) ∷ m) ax index delta =
    shift_merge ax a sp index delta (shift_merges m ax index delta)

abbrev add_cell : Option CellRef → Cell → List (CellRef × Cell) → List (CellRef × Cell)
add_cell none c m = m
add_cell (some r) c m = put ref_eq r c m

unfoldable pub remap_cells :
    (CellRef → Option CellRef) → List (CellRef × Cell) → List (CellRef × Cell)
remap_cells f [] = []
remap_cells f ((r, c) ∷ m) = add_cell (f r) c (remap_cells f m)

abbrev pub remap : (CellRef → Option CellRef) → Sheet → Sheet
remap f s = record s { cells = remap_cells f s.cells }
