-- ===== src/Sheet/Transform/Room.antt =====
-- The room that an op's coordinates have up to the end of `int`.
use etherpad_go.Prelude.{
  ℕ, zero, suc, ◌+◌, ◌≤◌, ◌<◌, ℤ, pos, negsuc, neg, pos_part, neg_part, int_limit, wrap, wrap-pos,
  wrap-negsuc, Bool, true, false, ◌≡◌, refl, sym, ap, ◌∙◌, subst, arith,
}
use etherpad_go.Sheet.Ops.{OpType, Op, insert_rows, delete_rows, insert_cols, delete_cols}
use etherpad_go.Sheet.Validate.{negative}
use etherpad_go.Sheet.Transform.{shift_if, shift_rows, shift_cols, has_range, row_index, col_index}
use etherpad_go.Sheet.Transform.Bounds.{Fits, shift_coord-le}

-- Each coordinate of the op stays below 2^63 when `n` is added to it.
pub record Room (op : Op) (n : ℕ) : Type 0 where
  pub row : pos_part op.row + n < int_limit
  pub col : pos_part op.col + n < int_limit
  pub end_row : pos_part op.end_row + n < int_limit
  pub end_col : pos_part op.end_col + n < int_limit
  pub index : pos_part op.index + n < int_limit

-- By how much the op moves coordinates up.
abbrev pub growth : OpType → Op → ℕ
growth insert_rows op = pos_part op.count
growth insert_cols op = pos_part op.count
growth k op = 0

-- A deleted band ends below 2^63, an insert's index is below it.
abbrev pub BandFits : OpType → Op → Type 0
BandFits insert_rows op = pos_part op.index < int_limit
BandFits insert_cols op = pos_part op.index < int_limit
BandFits delete_rows op = pos_part op.index + pos_part op.count < int_limit
BandFits delete_cols op = pos_part op.index + pos_part op.count < int_limit
BandFits k op = Unit

pub at_band :
    {c i d : ℤ}
    → pos_part c + pos_part d < int_limit
    → pos_part i + neg_part d < int_limit
    → Fits c i d
at_band h g = record { carried = h; band = g }

pub Room-less : {op : Op} {m n : ℕ} → n ≤ m → Room op m → Room op n
Room-less {op} h r = record {
  row = omega (arith, h, r.row);
  col = omega (arith, h, r.col);
  end_row = omega (arith, h, r.end_row);
  end_col = omega (arith, h, r.end_col);
  index = omega (arith, h, r.index);
}

neg-pos : (n : ℕ) → neg (pos (suc n)) ≡ negsuc n
neg-pos n = ground arith

-- What a delete passes on as its `delta`.
pub deleted_delta :
    (i n : ℤ)
    → negative n ≡ false
    → pos_part i + pos_part n < int_limit
    → (pos_part (wrap (neg n)) ≡ 0) × (pos_part i + neg_part (wrap (neg n)) < int_limit)
deleted_delta i (pos zero) g h =
    subst (λ d. (pos_part d ≡ 0) × (pos_part i + neg_part d < int_limit))
      (sym (wrap-pos 0 (omega arith))) (refl, omega (arith, h))
deleted_delta i (pos (suc n)) g h =
    subst (λ d. (pos_part d ≡ 0) × (pos_part i + neg_part d < int_limit))
      (sym (ap wrap (neg-pos n) ∙ wrap-negsuc n (omega (arith, h)))) (refl, omega (arith, h))
deleted_delta i (negsuc n) g h = ground arith

module _ (op : Op) (i d : ℤ) (n : ℕ) (h : negative i ≡ false)
    (b : pos_part i + neg_part d < int_limit) (r : Room op (pos_part d + n)) where
  shift_if-room :
      (t : Bool) (c : ℤ)
      → pos_part c + (pos_part d + n) < int_limit
      → pos_part (shift_if t c i d) + n < int_limit
  shift_if-room true c g = omega (arith, g, shift_coord-le c i d (at_band (omega (arith, g)) b) h)
  shift_if-room false c g = omega (arith, g)

  pub shift_rows-Room : Room (shift_rows op i d) n
  shift_rows-Room = record {
    row = shift_if-room true op.row r.row;
    col = omega (arith, r.col);
    end_row = shift_if-room (has_range op.op_type) op.end_row r.end_row;
    end_col = omega (arith, r.end_col);
    index = shift_if-room (row_index op.op_type op) op.index r.index;
  }

  pub shift_cols-Room : Room (shift_cols op i d) n
  shift_cols-Room = record {
    row = omega (arith, r.row);
    col = shift_if-room true op.col r.col;
    end_row = omega (arith, r.end_row);
    end_col = shift_if-room (has_range op.op_type) op.end_col r.end_col;
    index = shift_if-room (col_index op.op_type op) op.index r.index;
  }
