-- ===== src/Sheet/Cell.antt =====
-- lib/sheet/cell.go: addresses and cells.
use etherpad_go.Prelude.{ℤ, pos, eqb_ℤ, Bool, ◌&&◌, [], ◌∷◌, Text, text_eq, if◌then◌else◌, ◌==◌}

pub record CellRef : Type 0 where
  pub row : ℤ
  pub col : ℤ

abbrev pub at : ℤ → ℤ → CellRef
at r c = record { row = r; col = c }

abbrev pub ref_eq : CellRef → CellRef → Bool
ref_eq a b = eqb_ℤ a.row b.row && eqb_ℤ a.col b.col

pub data CellKind : Type 0 where
  kind_value kind_formula : CellKind

pub record Cell : Type 0 where
  pub raw : Text
  pub value : Text
  pub value_type : Text
  pub style_id : ℤ

-- Go's zero value.
abbrev pub zero_cell : Cell
zero_cell = record { raw = []; value = []; value_type = []; style_id = pos 0 }

abbrev kind_of : Text → CellKind
kind_of [] = kind_value
kind_of (c ∷ s) = if c == b'=' then kind_formula else kind_value

abbrev pub kind : Cell → CellKind
kind c = kind_of c.raw

abbrev pub is_empty : Cell → Bool
is_empty c = text_eq c.raw [] && eqb_ℤ c.style_id (pos 0) && text_eq c.value []
