-- ===== src/Sheet/Transform/Valid.antt =====
-- An op that is moved past another stays valid.
use etherpad_go.Prelude.{
  ℕ, ◌+◌, ◌<◌, leb_ℤ, pos, negsuc, pos_part, neg_part, int_limit, wrap, sym, subst, arith, ℤ, neg,
  Bool, true, false, ◌||◌, ◌≡◌, refl, Bool-cases, text_eq, not, inl, inr, [],
}
use etherpad_go.Result.{ok, missing_sheet, negative_index, bad_count}
use etherpad_go.Sheet.Ops.{
  OpType, Op, set_cell, set_style, clear_range, insert_rows, delete_rows, insert_cols, delete_cols,
  add_sheet, rename_sheet, delete_sheet, move_sheet, set_dimension, set_freeze, merge_cells,
  unmerge_cells, other_type, is_structural,
}
use etherpad_go.Sheet.Validate.{negative, validate, validate_type, check_band}
use etherpad_go.Sheet.Transform.{
  transform, shift_coord, shift_rows, shift_cols, shift_if, transform_by, has_range, row_index,
  col_index,
}
use etherpad_go.Sheet.Transform.Bounds.{Fits, shift_coord-negative, shift_coord-ltb}
use etherpad_go.Sheet.Transform.Room.{
  Room, growth, BandFits, deleted_delta, at_band, Room-less, shift_rows-Room, shift_cols-Room,
}
use etherpad_go.Sheet.Transform.Moved.{IsValid, reject->>, reject-ok, moved-type}

shift_if-negative :
    (b : Bool) (x i d : ℤ)
    → Fits x i d
    → negative i ≡ false
    → negative x ≡ false
    → negative (shift_if b x i d) ≡ false
shift_if-negative true x i d f h g = shift_coord-negative x i d f g h
shift_if-negative false x i d f h g = g

module _ (op : Op) (i d : ℤ) (h : negative i ≡ false) (r : Room op (pos_part d))
    (b : pos_part i + neg_part d < int_limit) (v : validate_type op.op_type op ≡ ok tt) where
  shift_rows-type : validate_type op.op_type (shift_rows op i d) ≡ ok tt
  shift_rows-type =
      moved-type op (shift_coord op.row i d) op.col (shift_if (has_range op.op_type) op.end_row i d)
        op.end_col (shift_if (row_index op.op_type op) op.index i d)
        (λ g. shift_coord-negative op.row i d (at_band r.row b) g h) (λ g. g)
        (shift_if-negative (row_index op.op_type op) op.index i d (at_band r.index b) h) op.op_type
        (λ e g l.
          rw e
            (shift_coord-ltb op.row op.end_row i d (at_band r.row b) (at_band r.end_row b) g h l))
        (λ e g l. l) v

  shift_cols-type : validate_type op.op_type (shift_cols op i d) ≡ ok tt
  shift_cols-type =
      moved-type op op.row (shift_coord op.col i d) op.end_row
        (shift_if (has_range op.op_type) op.end_col i d)
        (shift_if (col_index op.op_type op) op.index i d) (λ g. g)
        (λ g. shift_coord-negative op.col i d (at_band r.col b) g h)
        (shift_if-negative (col_index op.op_type op) op.index i d (at_band r.index b) h) op.op_type
        (λ e g l. l)
        (λ e g l.
          rw e
            (shift_coord-ltb op.col op.end_col i d (at_band r.col b) (at_band r.end_col b) g h l))
        v

-- An accepted insert or delete has its index in range, and inserts or deletes something.
band_lem :
    (op : Op) → check_band op ≡ ok tt → (negative op.index ≡ false) × (negative op.count ≡ false)
band_lem op v =
    let (h, v') = reject->> (negative op.index) negative_index _ v in
    (h, counted op.count (reject-ok (leb_ℤ op.count (pos 0)) bad_count v'))
  where
    counted : (n : ℤ) → leb_ℤ n (pos 0) ≡ false → negative n ≡ false
    counted (pos n) h = ground arith
    counted (negsuc n) h = ground arith

module _ (op a : Op) where
  inserts-band :
      check_band a ≡ ok tt
      → pos_part a.index < int_limit
      → pos_part a.index + neg_part a.count < int_limit
  inserts-band w h = at a.count (band_lem a w).1
    where
      at : (n : ℤ) → negative n ≡ false → pos_part a.index + neg_part n < int_limit
      at (pos n) g = omega (arith, h)
      at (negsuc n) g = ground arith

  transform_by-type :
      (k : OpType)
      → validate_type op.op_type op ≡ ok tt
      → validate_type k a ≡ ok tt
      → Room op (growth k a)
      → BandFits k a
      → validate_type op.op_type (transform_by k op a) ≡ ok tt
  transform_by-type insert_rows v w r b =
      shift_rows-type op a.index a.count (band_lem a w).0 r (inserts-band w b) v
  transform_by-type insert_cols v w r b =
      shift_cols-type op a.index a.count (band_lem a w).0 r (inserts-band w b) v
  transform_by-type delete_rows v w r b =
      let (none_added, deleted) = deleted_delta a.index a.count (band_lem a w).1 b in
      shift_rows-type op a.index (wrap (neg a.count)) (band_lem a w).0
        (subst (Room op) (sym none_added) r) deleted v
  transform_by-type delete_cols v w r b =
      let (none_added, deleted) = deleted_delta a.index a.count (band_lem a w).1 b in
      shift_cols-type op a.index (wrap (neg a.count)) (band_lem a w).0
        (subst (Room op) (sym none_added) r) deleted v
  transform_by-type set_cell v w r b = v
  transform_by-type set_style v w r b = v
  transform_by-type clear_range v w r b = v
  transform_by-type merge_cells v w r b = v
  transform_by-type unmerge_cells v w r b = v
  transform_by-type add_sheet v w r b = v
  transform_by-type rename_sheet v w r b = v
  transform_by-type delete_sheet v w r b = v
  transform_by-type move_sheet v w r b = v
  transform_by-type set_dimension v w r b = v
  transform_by-type set_freeze v w r b = v
  transform_by-type (other_type t) v w r b = v

-- What every move of an op keeps.
transform_by-sheet :
    (k : OpType) (op a : Op)
    → ((transform_by k op a).sheet ≡ op.sheet) × ((transform_by k op a).op_type ≡ op.op_type)
transform_by-sheet insert_rows op a = (refl, refl)
transform_by-sheet delete_rows op a = (refl, refl)
transform_by-sheet insert_cols op a = (refl, refl)
transform_by-sheet delete_cols op a = (refl, refl)
transform_by-sheet set_cell op a = (refl, refl)
transform_by-sheet set_style op a = (refl, refl)
transform_by-sheet clear_range op a = (refl, refl)
transform_by-sheet merge_cells op a = (refl, refl)
transform_by-sheet unmerge_cells op a = (refl, refl)
transform_by-sheet add_sheet op a = (refl, refl)
transform_by-sheet rename_sheet op a = (refl, refl)
transform_by-sheet delete_sheet op a = (refl, refl)
transform_by-sheet move_sheet op a = (refl, refl)
transform_by-sheet set_dimension op a = (refl, refl)
transform_by-sheet set_freeze op a = (refl, refl)
transform_by-sheet (other_type t) op a = (refl, refl)

pub IsValid-parts :
    (op : Op) → IsValid op → (text_eq op.sheet [] ≡ false) × (validate_type op.op_type op ≡ ok tt)
unfolding validate
IsValid-parts op v = reject->> (text_eq op.sheet []) missing_sheet _ v

-- An op that `Validate` accepts is accepted after it was moved past an accepted op too, if no coordinate
-- passes the end of `int`: with the length of an insert each is below 2^63, and so is the index
-- of the insert, or the end of the deleted band.
pub transform-IsValid :
    (op applied : Op)
    → IsValid op
    → IsValid applied
    → Room op (growth applied.op_type applied)
    → BandFits applied.op_type applied
    → IsValid (transform op applied)
unfolding validate transform
transform-IsValid op a v w r b =
    let (s, t) = IsValid-parts op v in
    let (s', t') = IsValid-parts a w in
    let (e1, e2) = transform_by-sheet a.op_type op a in
    elim (Bool-cases (not (text_eq op.sheet a.sheet) || not (is_structural a))) [
      | inl e ↦ rw e v
      | inr e ↦ rw (e, e1, e2, s) (transform_by-type op a a.op_type t t' r b)
    ]

-- Behind the op that it was moved past, an op has the rest of its room.
pub transform-Room :
    (op applied : Op) (n : ℕ)
    → IsValid applied
    → Room op (growth applied.op_type applied + n)
    → BandFits applied.op_type applied
    → Room (transform op applied) n
unfolding transform
transform-Room op a n w r b =
    let (s', t') = IsValid-parts a w in
    elim (Bool-cases (not (text_eq op.sheet a.sheet) || not (is_structural a))) [
      | inl e ↦ rw e (Room-less (omega arith) r)
      | inr e ↦ rw e (at a.op_type t' r b)
    ]
  where
    at :
        (k : OpType)
        → validate_type k a ≡ ok tt
        → Room op (growth k a + n)
        → BandFits k a
        → Room (transform_by k op a) n
    at insert_rows w r b =
        shift_rows-Room op a.index a.count n (band_lem a w).0 (inserts-band op a w b) r
    at insert_cols w r b =
        shift_cols-Room op a.index a.count n (band_lem a w).0 (inserts-band op a w b) r
    at delete_rows w r b =
        let (none_added, deleted) = deleted_delta a.index a.count (band_lem a w).1 b in
        shift_rows-Room op a.index (wrap (neg a.count)) n (band_lem a w).0 deleted
          (subst (λ m. Room op (m + n)) (sym none_added) r)
    at delete_cols w r b =
        let (none_added, deleted) = deleted_delta a.index a.count (band_lem a w).1 b in
        shift_cols-Room op a.index (wrap (neg a.count)) n (band_lem a w).0 deleted
          (subst (λ m. Room op (m + n)) (sym none_added) r)
    at set_cell w r b = Room-less (omega arith) r
    at set_style w r b = Room-less (omega arith) r
    at clear_range w r b = Room-less (omega arith) r
    at merge_cells w r b = Room-less (omega arith) r
    at unmerge_cells w r b = Room-less (omega arith) r
    at add_sheet w r b = Room-less (omega arith) r
    at rename_sheet w r b = Room-less (omega arith) r
    at delete_sheet w r b = Room-less (omega arith) r
    at move_sheet w r b = Room-less (omega arith) r
    at set_dimension w r b = Room-less (omega arith) r
    at set_freeze w r b = Room-less (omega arith) r
    at (other_type t) w r b = Room-less (omega arith) r
