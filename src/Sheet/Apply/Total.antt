-- ===== src/Sheet/Apply/Total.antt =====
-- `Apply` fails only where `Validate` does.
use etherpad_go.Prelude.{ℤ, false, ◌&&◌, Option, none, some, ◌≡◌, refl, List, Text}
use etherpad_go.Result.{Result, ok, ◌>>=◌, no_payload}
use etherpad_go.Sheet.Ops.{
  OpType, Op, set_cell, set_style, clear_range, insert_rows, delete_rows, insert_cols, delete_cols,
  add_sheet, rename_sheet, delete_sheet, move_sheet, set_dimension, set_freeze, merge_cells,
  unmerge_cells, other_type,
}
use etherpad_go.Sheet.Style.{StylePool}
use etherpad_go.Sheet.Grid.{Sheet}
use etherpad_go.Sheet.Validate.{validate_type, is_nil}
use etherpad_go.Sheet.Transform.Moved.{IsValid, reject->>}
use etherpad_go.Sheet.Transform.Valid.{IsValid-parts}
use etherpad_go.Sheet.Workbook.{Workbook, find_sheet}
use etherpad_go.Sheet.Apply.{
  apply_in_sheet, apply_valid, apply_op, style_of, or_nil_panic, in_found,
}

-- A computation that gives a value.
abbrev pub Gives {ℓ} : {A : Type ℓ} → Result A → Type ℓ
Gives {A = A} m = (a : A) × (m ≡ ok a)

pub Gives->>= {ℓ κ} :
    {A : Type ℓ} {B : Type κ} (m : Result A) (f : A → Result B)
    → Gives m
    → ((a : A) → Gives (f a))
    → Gives (m >>= f)
Gives->>= m f (a, e) g = let (b, e') = g a in (b, rw e e')

-- The ops that need a sheet.
abbrev InSheet : OpType → Type 0
InSheet add_sheet = ⊥
InSheet delete_sheet = ⊥
InSheet rename_sheet = ⊥
InSheet move_sheet = ⊥
InSheet k = Unit

-- A style number is given where `StyleId` and `Props` are not both nil.
style_found :
    (props : Option (List (Text × Text))) (n : Option ℤ) (p : StylePool)
    → (is_nil n && is_nil props) ≡ false
    → Gives (or_nil_panic (style_of props n p))
style_found (some m) n p h = (_, refl)
style_found none (some n) p h = (_, refl)
style_found none none p h = cc

in_sheet-Gives :
    (k : OpType) (op : Op) (s : Sheet) (p : StylePool)
    → InSheet k
    → validate_type k op ≡ ok tt
    → Gives (apply_in_sheet k op s p)
unfolding apply_in_sheet
in_sheet-Gives set_style op s p i v =
    let (h, _) = reject->> (is_nil op.style_id && is_nil op.props) no_payload _ v in
    Gives->>= _ _ (style_found op.props op.style_id p h) (λ r. (_, refl))
in_sheet-Gives set_cell op s p i v = (_, refl)
in_sheet-Gives clear_range op s p i v = (_, refl)
in_sheet-Gives merge_cells op s p i v = (_, refl)
in_sheet-Gives unmerge_cells op s p i v = (_, refl)
in_sheet-Gives insert_rows op s p i v = (_, refl)
in_sheet-Gives delete_rows op s p i v = (_, refl)
in_sheet-Gives insert_cols op s p i v = (_, refl)
in_sheet-Gives delete_cols op s p i v = (_, refl)
in_sheet-Gives set_dimension op s p i v = (_, refl)
in_sheet-Gives set_freeze op s p i v = (_, refl)
in_sheet-Gives add_sheet op s p i v = absurd i
in_sheet-Gives delete_sheet op s p i v = absurd i
in_sheet-Gives rename_sheet op s p i v = absurd i
in_sheet-Gives move_sheet op s p i v = absurd i
in_sheet-Gives (other_type t) op s p i v = cc

in_found-Gives :
    (o : Option Sheet) (op : Op) (w : Workbook)
    → InSheet op.op_type
    → validate_type op.op_type op ≡ ok tt
    → Gives (in_found o op w)
in_found-Gives none op w i v = (w, refl)
in_found-Gives (some s) op w i v =
    Gives->>= _ _ (in_sheet-Gives op.op_type op s w.styles i v) (λ r. (_, refl))

apply_valid-Gives :
    (k : OpType) (op : Op) (w : Workbook)
    → op.op_type ≡ k
    → validate_type op.op_type op ≡ ok tt
    → Gives (apply_valid k op w)
unfolding apply_valid
apply_valid-Gives add_sheet op w e v = (_, refl)
apply_valid-Gives delete_sheet op w e v = (_, refl)
apply_valid-Gives rename_sheet op w e v = (_, refl)
apply_valid-Gives move_sheet op w e v = (_, refl)
apply_valid-Gives set_style op w e v =
    in_found-Gives (find_sheet op.sheet w.sheets) op w (rw e tt) v
apply_valid-Gives set_cell op w e v = in_found-Gives (find_sheet op.sheet w.sheets) op w (rw e tt) v
apply_valid-Gives clear_range op w e v =
    in_found-Gives (find_sheet op.sheet w.sheets) op w (rw e tt) v
apply_valid-Gives merge_cells op w e v =
    in_found-Gives (find_sheet op.sheet w.sheets) op w (rw e tt) v
apply_valid-Gives unmerge_cells op w e v =
    in_found-Gives (find_sheet op.sheet w.sheets) op w (rw e tt) v
apply_valid-Gives insert_rows op w e v =
    in_found-Gives (find_sheet op.sheet w.sheets) op w (rw e tt) v
apply_valid-Gives delete_rows op w e v =
    in_found-Gives (find_sheet op.sheet w.sheets) op w (rw e tt) v
apply_valid-Gives insert_cols op w e v =
    in_found-Gives (find_sheet op.sheet w.sheets) op w (rw e tt) v
apply_valid-Gives delete_cols op w e v =
    in_found-Gives (find_sheet op.sheet w.sheets) op w (rw e tt) v
apply_valid-Gives set_dimension op w e v =
    in_found-Gives (find_sheet op.sheet w.sheets) op w (rw e tt) v
apply_valid-Gives set_freeze op w e v =
    in_found-Gives (find_sheet op.sheet w.sheets) op w (rw e tt) v
apply_valid-Gives (other_type t) op w e v =
    in_found-Gives (find_sheet op.sheet w.sheets) op w (rw e tt) v

-- Every op that `Validate` accepts is applied to every workbook without an error or a panic.
pub apply_op-IsValid :
    (op : Op) (w : Workbook) → IsValid op → (w' : Workbook) × (apply_op op w ≡ ok w')
unfolding apply_op
apply_op-IsValid op w v =
    let (s, t) = IsValid-parts op v in
    let (w', e) = apply_valid-Gives op.op_type op w refl t in (w', rw v e)
