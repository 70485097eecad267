-- ===== src/Sheet/Document/Rebased.antt =====
-- The rebase of an accepted op over accepted ops.
use etherpad_go.Prelude.{
  ℕ, zero, suc, ◌+◌, ◌≤◌, ℤ, pos, negsuc, pos_part, ltb_ℤ, ◌||◌, false, ◌≡◌, refl, List, [], ◌∷◌,
  ◌++◌, drop, length, arith,
}
use etherpad_go.Result.{ok}
use etherpad_go.Sheet.Ops.{
  OpType, Op, other_type, set_cell, set_style, clear_range, insert_rows, delete_rows, insert_cols,
  delete_cols, add_sheet, rename_sheet, delete_sheet, move_sheet, set_dimension, set_freeze,
  merge_cells, unmerge_cells,
}
use etherpad_go.Sheet.Validate.{validate, validate_type, negative}
use etherpad_go.Sheet.Transform.{transform}
use etherpad_go.Sheet.Transform.Moved.{IsValid}
use etherpad_go.Sheet.Transform.Valid.{transform-IsValid, transform-Room}
use etherpad_go.Sheet.Transform.Room.{Room, Room-less, growth, BandFits}
use etherpad_go.Sheet.Document.{Document, rebase, based_at}

abbrev pub AllValid : List Op → Type 0
AllValid [] = Unit
AllValid (op ∷ ops) = IsValid op × AllValid ops

pub AllValid-append :
    (ops : List Op) (op : Op) → AllValid ops → IsValid op → AllValid (ops ++ (op ∷ []))
AllValid-append [] op v w = (w, tt)
AllValid-append (a ∷ ops) op (h, v) w = (h, AllValid-append ops op v w)

pub AllValid-drop : (n : ℕ) (ops : List Op) → AllValid ops → AllValid (drop n ops)
AllValid-drop zero ops v = v
AllValid-drop (suc n) [] v = tt
AllValid-drop (suc n) (a ∷ ops) (h, v) = AllValid-drop n ops v

-- By how much the logged ops move coordinates up, at most.
abbrev pub total_growth : List Op → ℕ
total_growth [] = 0
total_growth (a ∷ ops) = growth a.op_type a + total_growth ops

-- No logged band passes the end of `int`.
abbrev pub AllFit : List Op → Type 0
AllFit [] = Unit
AllFit (a ∷ ops) = BandFits a.op_type a × AllFit ops

-- Enough of the log is there, and room for its inserts: the rebase gives an accepted op.
pub rebase-IsValid :
    (n : ℕ) (ops : List Op) (op : Op)
    → n ≤ length ops
    → AllValid ops
    → IsValid op
    → Room op (total_growth ops)
    → AllFit ops
    → (op' : Op) × (rebase n ops op ≡ ok op') × IsValid op'
unfolding rebase
rebase-IsValid zero ops op h v w r b = (op, refl, w)
rebase-IsValid (suc n) [] op h v w r b = absurd (omega arith)
rebase-IsValid (suc n) (a ∷ ops) op h (va, v) w r (ba, b) =
    rebase-IsValid n ops (transform op a) (omega arith) v
      (transform-IsValid op a w va (Room-less (omega arith) r) ba)
      (transform-Room op a (total_growth ops) va r ba) b

pub in_range-sub : (h : ℕ) (r : ℤ) → (negative r || ltb_ℤ (pos h) r) ≡ false → pos_part r ≤ h
in_range-sub h (pos r) e = ground arith
in_range-sub h (negsuc r) e = ground arith

validate_type-based_at :
    (k : OpType) (op : Op) (d : Document) → validate_type k (based_at d op) ≡ validate_type k op
validate_type-based_at set_cell op d = refl
validate_type-based_at set_style op d = refl
validate_type-based_at clear_range op d = refl
validate_type-based_at insert_rows op d = refl
validate_type-based_at delete_rows op d = refl
validate_type-based_at insert_cols op d = refl
validate_type-based_at delete_cols op d = refl
validate_type-based_at add_sheet op d = refl
validate_type-based_at rename_sheet op d = refl
validate_type-based_at delete_sheet op d = refl
validate_type-based_at move_sheet op d = refl
validate_type-based_at set_dimension op d = refl
validate_type-based_at set_freeze op d = refl
validate_type-based_at merge_cells op d = refl
validate_type-based_at unmerge_cells op d = refl
validate_type-based_at (other_type t) op d = refl

-- `Validate` does not read the base revision.
pub based_at-IsValid : (op : Op) (d : Document) → IsValid op → IsValid (based_at d op)
unfolding validate
based_at-IsValid op d v = rw (validate_type-based_at op.op_type op d) v

-- The ops that were logged since the revision that the op was made for.
abbrev pub missed : Op → Document → List Op
missed op d = drop (pos_part op.base_rev) d.log
