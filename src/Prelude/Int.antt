-- ===== src/Prelude/Int.antt =====
-- Integers over the native numbers, and the 64 bits of Go's `int`.
use Prim.Native.Nat.{ℕ, suc, ◌+◌, ◌-◌, ◌%◌, ◌^◌, ◌≤◌, ◌<◌}
use mathlib.Core.Path.{◌≡◌, ap}
use mathlib.Core.Bool.{Bool}
use native.Mathlib.Omega.{arith}
use etherpad_go.Prelude.Tests.{leb, ltb, ◌==◌, if◌then◌else◌}

-- `negsuc n` is -(n + 1).
pub data ℤ : Type 0 where
  pos : ℕ → ℤ
  negsuc : ℕ → ℤ

-- The numbers a and b with x = a - b, one of them 0.
abbrev pub pos_part : ℤ → ℕ
pos_part (pos n) = n
pos_part (negsuc n) = 0

abbrev pub neg_part : ℤ → ℕ
neg_part (pos n) = 0
neg_part (negsuc n) = suc n

abbrev pub sub_ℕ : ℕ → ℕ → ℤ
sub_ℕ a b = if leb b a then pos (a - b) else negsuc (b - a - 1)

abbrev pub neg : ℤ → ℤ
neg x = sub_ℕ (neg_part x) (pos_part x)

infixl 65 ◌+ℤ◌ ◌-ℤ◌
abbrev pub ◌+ℤ◌ : ℤ → ℤ → ℤ
a +ℤ b = sub_ℕ (pos_part a + pos_part b) (neg_part a + neg_part b)

abbrev pub ◌-ℤ◌ : ℤ → ℤ → ℤ
a -ℤ b = sub_ℕ (pos_part a + neg_part b) (neg_part a + pos_part b)

abbrev pub leb_ℤ : ℤ → ℤ → Bool
leb_ℤ a b = leb (pos_part a + neg_part b) (pos_part b + neg_part a)

abbrev pub ltb_ℤ : ℤ → ℤ → Bool
ltb_ℤ a b = ltb (pos_part a + neg_part b) (pos_part b + neg_part a)

abbrev pub eqb_ℤ : ℤ → ℤ → Bool
eqb_ℤ a b = pos_part a + neg_part b == pos_part b + neg_part a

abbrev pub int_limit : ℕ
int_limit = 2 ^ 63

-- The number that the lower 64 bits `m` of a result stand for.
abbrev pub signed : ℕ → ℤ
signed m = if ltb m int_limit then pos m else negsuc (int_limit + int_limit - 1 - m)

-- What an `int` keeps of a sum or a difference.
unfoldable pub wrap : ℤ → ℤ
wrap (pos n) = signed (n % (int_limit + int_limit))
wrap (negsuc n) = signed (int_limit + int_limit - 1 - n % (int_limit + int_limit))

pub wrap-pos : (n : ℕ) → n < int_limit → wrap (pos n) ≡ pos n
unfolding wrap
wrap-pos n h = ground arith

pub wrap-negsuc : (n : ℕ) → n < int_limit → wrap (negsuc n) ≡ negsuc n
unfolding wrap
wrap-negsuc n h = ground arith

pub wrap-small : (x : ℤ) → pos_part x < int_limit → neg_part x ≤ int_limit → wrap x ≡ x
wrap-small (pos n) h g = wrap-pos n h
wrap-small (negsuc n) h g = wrap-negsuc n (omega (arith, g))

pub pos-add : (a b : ℕ) → pos a +ℤ pos b ≡ pos (a + b)
pos-add a b = ground arith

pub pos-sub : (a b : ℕ) → b ≤ a → pos a -ℤ pos b ≡ pos (a - b)
pos-sub a b h = ground arith

pub eqb_ℤ→eq : (a b : ℤ) → eqb_ℤ a b ≡ Bool.true → a ≡ b
eqb_ℤ→eq (pos a) (pos b) h = ap pos (ground arith)
eqb_ℤ→eq (pos a) (negsuc b) h = ground arith
eqb_ℤ→eq (negsuc a) (pos b) h = ground arith
eqb_ℤ→eq (negsuc a) (negsuc b) h = ap negsuc (ground arith)

pub eqb_ℤ-refl : (a : ℤ) → eqb_ℤ a a ≡ Bool.true
eqb_ℤ-refl (pos a) = ground arith
eqb_ℤ-refl (negsuc a) = ground arith
