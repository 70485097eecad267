-- ===== src/Sheet/Transform/Bounds.antt =====
-- `shiftCoord` keeps coordinates in range and in order, where no sum passes the end of `int`.
use etherpad_go.Prelude.{
  ℕ, suc, ◌+◌, ◌-◌, ◌≤◌, ◌<◌, ℤ, pos, negsuc, pos_part, neg_part, int_limit, wrap-pos, ltb_ℤ, leb,
  ltb, false, if◌then◌else◌, ◌≡◌, ap, arith,
}
use etherpad_go.Sheet.Validate.{negative}
use etherpad_go.Sheet.Transform.{shift_coord}

-- The shift of coordinates from 0: an insert of `n`, or a delete of `suc n`.
abbrev insert_at : ℕ → ℕ → ℕ → ℕ
insert_at c i n = if leb i c then c + n else c

abbrev delete_at : ℕ → ℕ → ℕ → ℕ
delete_at c i n = if ltb c i then c else if ltb c (i + (n + 1)) then i else c - (n + 1)

-- An insert that does not carry the coordinate past the end of `int`, a band that ends before it.
pub record Fits (c i d : ℤ) : Type 0 where
  pub carried : pos_part c + pos_part d < int_limit
  pub band : pos_part i + neg_part d < int_limit

shift_coord-insert :
    (c i n : ℕ) → c + n < int_limit → shift_coord (pos c) (pos i) (pos n) ≡ pos (insert_at c i n)
unfolding shift_coord
shift_coord-insert c i n h = ground (arith, wrap-pos (c + n) h)

shift_coord-delete :
    (c i n : ℕ)
    → c < int_limit
    → i + suc n < int_limit
    → shift_coord (pos c) (pos i) (negsuc n) ≡ pos (delete_at c i n)
unfolding shift_coord
shift_coord-delete c i n g h = ground (
  arith,
  wrap-pos (suc n) (omega arith),
  wrap-pos (i + suc n) h,
  wrap-pos (c - suc n) (omega arith),
)

insert_at-le : (a b i n : ℕ) → a ≤ b → insert_at a i n ≤ insert_at b i n
insert_at-le a b i n h = ground arith

delete_at-le : (a b i n : ℕ) → a ≤ b → delete_at a i n ≤ delete_at b i n
delete_at-le a b i n h = ground arith

ltb_ℤ→le : (a b : ℕ) → ltb_ℤ (pos b) (pos a) ≡ false → a ≤ b
ltb_ℤ→le a b h = ground arith

le→ltb_ℤ : (a b : ℕ) → a ≤ b → ltb_ℤ (pos b) (pos a) ≡ false
le→ltb_ℤ a b h = ground arith

pub shift_coord-negative :
    (c i d : ℤ)
    → Fits c i d
    → negative c ≡ false
    → negative i ≡ false
    → negative (shift_coord c i d) ≡ false
shift_coord-negative (pos c) (pos i) (pos n) f h g =
    rw (shift_coord-insert c i n f.carried) (le→ltb_ℤ 0 (insert_at c i n) (omega arith))
shift_coord-negative (pos c) (pos i) (negsuc n) f h g =
    rw (shift_coord-delete c i n (omega (arith, f.carried)) f.band)
      (le→ltb_ℤ 0 (delete_at c i n) (omega arith))
shift_coord-negative (pos c) (negsuc i) d f h g = ground arith
shift_coord-negative (negsuc c) i d f h g = ground arith

pub shift_coord-ltb :
    (a b i d : ℤ)
    → Fits a i d
    → Fits b i d
    → negative a ≡ false
    → negative i ≡ false
    → ltb_ℤ b a ≡ false
    → ltb_ℤ (shift_coord b i d) (shift_coord a i d) ≡ false
shift_coord-ltb (pos a) (pos b) (pos i) (pos n) fa fb h g e =
    rw (shift_coord-insert a i n fa.carried, shift_coord-insert b i n fb.carried)
      (le→ltb_ℤ (insert_at a i n) (insert_at b i n) (insert_at-le a b i n (ltb_ℤ→le a b e)))
shift_coord-ltb (pos a) (pos b) (pos i) (negsuc n) fa fb h g e =
    rw
      (
        shift_coord-delete a i n (omega (arith, fa.carried)) fa.band,
        shift_coord-delete b i n (omega (arith, fb.carried)) fb.band,
      )
      (le→ltb_ℤ (delete_at a i n) (delete_at b i n) (delete_at-le a b i n (ltb_ℤ→le a b e)))
shift_coord-ltb (pos a) (pos b) (negsuc i) d fa fb h g e = ground arith
shift_coord-ltb (pos a) (negsuc b) i d fa fb h g e = ground arith
shift_coord-ltb (negsuc a) b i d fa fb h g e = ground arith

below : (c i : ℕ) (d : ℤ) → shift_coord (negsuc c) (pos i) d ≡ negsuc c
unfolding shift_coord
below c i (pos n) = ground arith
below c i (negsuc n) = ground arith

-- A shifted coordinate is at most the insert's length above the old one.
pub shift_coord-le :
    (c i d : ℤ)
    → Fits c i d
    → negative i ≡ false
    → pos_part (shift_coord c i d) ≤ pos_part c + pos_part d
shift_coord-le (pos c) (pos i) (pos n) f g = rw (shift_coord-insert c i n f.carried) (ground arith)
shift_coord-le (pos c) (pos i) (negsuc n) f g =
    rw (shift_coord-delete c i n (omega (arith, f.carried)) f.band) (ground arith)
shift_coord-le (pos c) (negsuc i) d f g = ground arith
shift_coord-le (negsuc c) (pos i) (pos n) f g = rw (below c i (pos n)) (omega arith)
shift_coord-le (negsuc c) (pos i) (negsuc n) f g = rw (below c i (negsuc n)) (omega arith)
shift_coord-le (negsuc c) (negsuc i) d f g = ground arith

-- An insert and then a delete of the same band leave a coordinate where it was, if the band, and the
-- coordinate behind the insert, stay below 2^63.
pub shift_coord-cancel :
    (c i n : ℕ)
    → c + suc n < int_limit
    → i + suc n < int_limit
    → shift_coord (shift_coord (pos c) (pos i) (pos (suc n))) (pos i) (negsuc n) ≡ pos c
shift_coord-cancel c i n h g =
    rw
      (
        shift_coord-insert c i (suc n) h,
        shift_coord-delete (insert_at c i (suc n)) i n (ground arith) g,
      )
      (ap pos (ground arith))
