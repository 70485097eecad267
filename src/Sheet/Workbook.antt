-- ===== src/Sheet/Workbook.antt =====
-- lib/sheet/sheet.go: a workbook, its ordered sheets and its pool of styles. The code keeps pointers
-- to sheets, each in one workbook only; a write through one changes the list's element.
use etherpad_go.Prelude.{
  ℕ, zero, suc, Option, none, some, List, [], ◌∷◌, ◌++◌, Text, text_eq, if◌then◌else◌,
}
use etherpad_go.Sheet.Grid.{Sheet, new_sheet}
use etherpad_go.Sheet.Style.{StylePool, new_style_pool}

pub record Workbook : Type 0 where
  pub sheets : List Sheet
  pub styles : StylePool

abbrev pub new_workbook : Workbook
new_workbook = record { sheets = []; styles = new_style_pool }

unfoldable pub workbook_add_sheet : Text → Text → Workbook → Workbook
workbook_add_sheet id name w = record w { sheets = w.sheets ++ (new_sheet id name ∷ []) }

-- The first sheet with the id.
unfoldable pub find_sheet : Text → List Sheet → Option Sheet
find_sheet id [] = none
find_sheet id (s ∷ ss) = if text_eq s.id id then some s else find_sheet id ss

abbrev pub sheet_by_id : Text → Workbook → Option Sheet
sheet_by_id id w = find_sheet id w.sheets

-- What a write through the pointer to the first sheet with the id does.
unfoldable pub write_sheet : Text → Sheet → List Sheet → List Sheet
write_sheet id s' [] = []
write_sheet id s' (s ∷ ss) = if text_eq s.id id then s' ∷ ss else s ∷ write_sheet id s' ss

-- `slices.Delete(w.Sheets, i, i+1)` at the first sheet with the id.
unfoldable pub remove_sheet : Text → List Sheet → List Sheet
remove_sheet id [] = []
remove_sheet id (s ∷ ss) = if text_eq s.id id then ss else s ∷ remove_sheet id ss

-- `slices.Insert(ss, min(i, len(ss)), s)`
unfoldable pub insert_sheet : ℕ → Sheet → List Sheet → List Sheet
insert_sheet zero s ss = s ∷ ss
insert_sheet (suc i) s [] = s ∷ []
insert_sheet (suc i) s (s' ∷ ss) = s' ∷ insert_sheet i s ss
