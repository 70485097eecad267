-- ===== src/Sheet/Apply/Tabs.antt =====
-- The list of sheets is never emptied.
use etherpad_go.Prelude.{
  ℕ, zero, suc, ◌+◌, ◌≤◌, ◌<◌, Bool-cases, inl, inr, Option, none, some, ◌≡◌, refl, subst, List, [],
  ◌∷◌, Text, length, leb, arith, pos_part, if◌then◌else◌,
}
use etherpad_go.Result.{Result, ok, >>=-eq-ok}
use etherpad_go.Sheet.Ops.{
  OpType, Op, set_cell, set_style, clear_range, insert_rows, delete_rows, insert_cols, delete_cols,
  add_sheet, rename_sheet, delete_sheet, move_sheet, set_dimension, set_freeze, merge_cells,
  unmerge_cells, other_type,
}
use etherpad_go.Sheet.Validate.{validate}
use etherpad_go.Sheet.Grid.{Sheet, new_sheet}
use etherpad_go.Sheet.Workbook.{Workbook, find_sheet, write_sheet, remove_sheet, insert_sheet}
use etherpad_go.Sheet.Apply.{
  apply_in_sheet, apply_valid, apply_op, in_found, add_new, rename_found, move_found,
}

length-write_sheet :
    (id : Text) (s : Sheet) (ss : List Sheet) → length (write_sheet id s ss) ≡ length ss
unfolding write_sheet
length-write_sheet id s [] = refl
length-write_sheet id s (x ∷ ss) = ground (arith, length-write_sheet id s ss)

length-remove_sheet : (id : Text) (ss : List Sheet) → length ss ≤ length (remove_sheet id ss) + 1
unfolding remove_sheet
length-remove_sheet id [] = omega arith
length-remove_sheet id (x ∷ ss) = ground (arith, length-remove_sheet id ss)

length-insert_sheet :
    (i : ℕ) (s : Sheet) (ss : List Sheet) → length (insert_sheet i s ss) ≡ length ss + 1
unfolding insert_sheet
length-insert_sheet zero s ss = omega arith
length-insert_sheet (suc i) s [] = omega arith
length-insert_sheet (suc i) s (x ∷ ss) = omega (arith, length-insert_sheet i s ss)

abbrev pub HasSheet : Workbook → Type 0
HasSheet w = 0 < length w.sheets

in_found-HasSheet :
    (o : Option Sheet) (op : Op) (w w' : Workbook)
    → in_found o op w ≡ ok w'
    → HasSheet w
    → HasSheet w'
in_found-HasSheet none op w w' e h = let same : w ≡ w' = cc e in subst HasSheet same h
in_found-HasSheet (some s) op w w' e h =
    let (r, e1, e2) = >>=-eq-ok (apply_in_sheet op.op_type op s w.styles) _ e in
    let same : record { sheets = write_sheet op.sheet r.0 w.sheets; styles = r.1 } ≡ w' = cc e2 in
    subst HasSheet same (omega (arith, h, length-write_sheet op.sheet r.0 w.sheets))

of_ok : {w w' : Workbook} → Result.ok w ≡ ok w' → HasSheet w → HasSheet w'
of_ok {w = w} {w' = w'} e h = let same : w ≡ w' = cc e in subst HasSheet same h

add_new-HasSheet :
    (o : Option Sheet) (op : Op) (w : Workbook) → HasSheet w → HasSheet (add_new o op w)
add_new-HasSheet none op w h =
    omega (arith, length-insert_sheet (pos_part op.index) (new_sheet op.sheet op.name) w.sheets)
add_new-HasSheet (some s) op w h = h

rename_found-HasSheet :
    (o : Option Sheet) (op : Op) (w : Workbook) → HasSheet w → HasSheet (rename_found o op w)
rename_found-HasSheet none op w h = h
rename_found-HasSheet (some s) op w h =
    omega (arith, h, length-write_sheet op.sheet (record s { name = op.name }) w.sheets)

move_found-HasSheet :
    (o : Option Sheet) (op : Op) (w : Workbook) → HasSheet w → HasSheet (move_found o op w)
move_found-HasSheet none op w h = h
move_found-HasSheet (some s) op w h =
    omega (arith, length-insert_sheet (pos_part op.to_index) s (remove_sheet op.sheet w.sheets))

deleted-HasSheet :
    (op : Op) (w : Workbook)
    → HasSheet w
    → HasSheet (
        if leb (length w.sheets) 1 then w else record w { sheets = remove_sheet op.sheet w.sheets })
deleted-HasSheet op w h = elim (Bool-cases (leb (length w.sheets) 1)) [
  | inl e ↦ rw e h
  | inr e ↦ rw e (ground (arith, e, length-remove_sheet op.sheet w.sheets))
]

apply_valid-HasSheet :
    (k : OpType) (op : Op) (w w' : Workbook) → apply_valid k op w ≡ ok w' → HasSheet w → HasSheet w'
unfolding apply_valid
apply_valid-HasSheet add_sheet op w w' e h =
    of_ok e (add_new-HasSheet (find_sheet op.sheet w.sheets) op w h)
apply_valid-HasSheet delete_sheet op w w' e h = of_ok e (deleted-HasSheet op w h)
apply_valid-HasSheet rename_sheet op w w' e h =
    of_ok e (rename_found-HasSheet (find_sheet op.sheet w.sheets) op w h)
apply_valid-HasSheet move_sheet op w w' e h =
    of_ok e (move_found-HasSheet (find_sheet op.sheet w.sheets) op w h)
apply_valid-HasSheet set_cell op w w' e h =
    in_found-HasSheet (find_sheet op.sheet w.sheets) op w w' e h
apply_valid-HasSheet set_style op w w' e h =
    in_found-HasSheet (find_sheet op.sheet w.sheets) op w w' e h
apply_valid-HasSheet clear_range op w w' e h =
    in_found-HasSheet (find_sheet op.sheet w.sheets) op w w' e h
apply_valid-HasSheet insert_rows op w w' e h =
    in_found-HasSheet (find_sheet op.sheet w.sheets) op w w' e h
apply_valid-HasSheet delete_rows op w w' e h =
    in_found-HasSheet (find_sheet op.sheet w.sheets) op w w' e h
apply_valid-HasSheet insert_cols op w w' e h =
    in_found-HasSheet (find_sheet op.sheet w.sheets) op w w' e h
apply_valid-HasSheet delete_cols op w w' e h =
    in_found-HasSheet (find_sheet op.sheet w.sheets) op w w' e h
apply_valid-HasSheet set_dimension op w w' e h =
    in_found-HasSheet (find_sheet op.sheet w.sheets) op w w' e h
apply_valid-HasSheet set_freeze op w w' e h =
    in_found-HasSheet (find_sheet op.sheet w.sheets) op w w' e h
apply_valid-HasSheet merge_cells op w w' e h =
    in_found-HasSheet (find_sheet op.sheet w.sheets) op w w' e h
apply_valid-HasSheet unmerge_cells op w w' e h =
    in_found-HasSheet (find_sheet op.sheet w.sheets) op w w' e h
apply_valid-HasSheet (other_type t) op w w' e h =
    in_found-HasSheet (find_sheet op.sheet w.sheets) op w w' e h

-- No op empties a workbook: where `Apply` succeeds on a workbook with a sheet, a sheet is left.
pub apply_op-HasSheet :
    (op : Op) (w w' : Workbook) → apply_op op w ≡ ok w' → HasSheet w → HasSheet w'
unfolding apply_op
apply_op-HasSheet op w w' e h =
    let (u, e1, e2) = >>=-eq-ok (validate op) _ e in apply_valid-HasSheet op.op_type op w w' e2 h
