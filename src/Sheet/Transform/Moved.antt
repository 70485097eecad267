-- ===== src/Sheet/Transform/Moved.antt =====
-- An op with other coordinates is valid where these are in range.
use etherpad_go.Prelude.{
  ℤ, Bool, true, false, ◌||◌, ◌&&◌, ◌≡◌, refl, ltb_ℤ, ltb, text_eq, codes, not, [], length,
}
use etherpad_go.Result.{
  Error, Result, ok, ◌>>◌, no_payload, negative_coord, invalid_bounds, negative_index, no_name,
  long_name, bad_axis,
}
use etherpad_go.Sheet.Ops.{
  OpType, Op, set_cell, set_style, clear_range, insert_rows, delete_rows, insert_cols, delete_cols,
  add_sheet, rename_sheet, delete_sheet, move_sheet, set_dimension, set_freeze, merge_cells,
  unmerge_cells, other_type,
}
use etherpad_go.Sheet.Validate.{
  reject, negative, validate, validate_type, check_band, check_bounds, check_cell, check_name,
  check_dimension,
}
use etherpad_go.Sheet.Transform.{has_range}

-- `Validate` accepts the op.
abbrev pub IsValid : Op → Type 0
IsValid op = validate op ≡ ok tt

pub reject->> {ℓ} :
    {A : Type ℓ} (b : Bool) (e : Error) (m : Result A) {a : A}
    → (reject b e >> m) ≡ ok a
    → (b ≡ false) × (m ≡ ok a)
reject->> true e m h = cc
reject->> false e m h = (refl, h)

pub reject-ok : (b : Bool) (e : Error) → reject b e ≡ ok tt → b ≡ false
reject-ok true e h = cc
reject-ok false e h = refl

pub ||-false : (a b : Bool) → (a || b) ≡ false → (a ≡ false) × (b ≡ false)
||-false true b h = cc
||-false false b h = (refl, h)

-- Other coordinates for an op, which are in range where the old ones are.
module _ (op : Op) (r c er ec ix : ℤ) (hr : negative op.row ≡ false → negative r ≡ false)
    (hc : negative op.col ≡ false → negative c ≡ false)
    (hi : negative op.index ≡ false → negative ix ≡ false) where
  abbrev moved : Op
  moved = record op { row = r; col = c; end_row = er; end_col = ec; index = ix }

  moved-cell : (b : Bool) → check_cell b op ≡ ok tt → check_cell b moved ≡ ok tt
  moved-cell b v =
      let (h1, v1) = reject->> b no_payload _ v in
      let (h2, v2) = reject->> (negative op.row || negative op.col) negative_coord _ v1 in
      let (h3, h4) = ||-false (negative op.row) (negative op.col) h2 in rw (h1, hr h3, hc h4, v2)

  moved-band : check_band op ≡ ok tt → check_band moved ≡ ok tt
  moved-band v = let (h1, v1) = reject->> (negative op.index) negative_index _ v in rw (hi h1, v1)

  moved-name : check_name op ≡ ok tt → check_name moved ≡ ok tt
  moved-name v =
      let (h1, v1) = reject->> (text_eq op.name []) no_name _ v in
      let (h2, v2) = reject->> (ltb 128 (length op.name)) long_name _ v1 in
      rw (h1, h2, hi (reject-ok (negative op.index) negative_index v2))

  moved-dimension : check_dimension op ≡ ok tt → check_dimension moved ≡ ok tt
  moved-dimension v =
      let bad = not (text_eq op.axis (codes "col")) && not (text_eq op.axis (codes "row")) in
      let (h1, v1) = reject->> bad bad_axis _ v in
      let (h2, v2) = reject->> (negative op.index) negative_index _ v1 in rw (h1, hi h2, v2)

  module _ (her : negative op.row ≡ false → ltb_ℤ op.end_row op.row ≡ false → ltb_ℤ er r ≡ false)
      (hec : negative op.col ≡ false → ltb_ℤ op.end_col op.col ≡ false → ltb_ℤ ec c ≡ false) where
    moved-bounds : check_bounds op ≡ ok tt → check_bounds moved ≡ ok tt
    moved-bounds v =
        let h = reject-ok _ invalid_bounds v in
        let (h', h4) = ||-false _ (ltb_ℤ op.end_col op.col) h in
        let (h'', h3) = ||-false _ (ltb_ℤ op.end_row op.row) h' in
        let (h1, h2) = ||-false (negative op.row) (negative op.col) h'' in
        rw (hr h1, hc h2, her h1 h3, hec h2 h4)

  pub moved-type :
      (k : OpType)
      → (has_range k ≡ true
          → negative op.row ≡ false
          → ltb_ℤ op.end_row op.row ≡ false
          → ltb_ℤ er r ≡ false)
      → (has_range k ≡ true
          → negative op.col ≡ false
          → ltb_ℤ op.end_col op.col ≡ false
          → ltb_ℤ ec c ≡ false)
      → validate_type k op ≡ ok tt
      → validate_type k moved ≡ ok tt
  moved-type set_cell f g v = moved-cell _ v
  moved-type set_style f g v = moved-cell _ v
  moved-type clear_range f g v = moved-bounds (f refl) (g refl) v
  moved-type merge_cells f g v = moved-bounds (f refl) (g refl) v
  moved-type unmerge_cells f g v = moved-bounds (f refl) (g refl) v
  moved-type insert_rows f g v = moved-band v
  moved-type delete_rows f g v = moved-band v
  moved-type insert_cols f g v = moved-band v
  moved-type delete_cols f g v = moved-band v
  moved-type add_sheet f g v = moved-name v
  moved-type rename_sheet f g v = moved-name v
  moved-type delete_sheet f g v = v
  moved-type move_sheet f g v = v
  moved-type set_dimension f g v = moved-dimension v
  moved-type set_freeze f g v = v
  moved-type (other_type t) f g v = v
