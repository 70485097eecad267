-- ===== src/Num/RoundTrip.antt =====
-- What `NumToString` writes, `ParseNum` reads back.
use etherpad_go.Prelude.{
  ℕ, zero, suc, ◌+◌, ◌*◌, ◌/◌, ◌%◌, ◌<◌, ℤ, pos, negsuc, ◌≡◌, refl, ap, ◌∙◌, inl, inr, true, Option,
  some, [], ◌∷◌, ◌++◌, Text, ltb, Bool-cases, arith,
}
use mathlib.Core.Logic.{◌≢◌}
use mathlib.Core.Option.{none}
use etherpad_go.Num.{
  digit_char, digits, num_to_string, is_num_char, digit_value, digits_value, parse_num, int_limit,
  shift_in,
}

digit_value-digit_char : (d : ℕ) → d < 36 → digit_value (digit_char d) ≡ some d
unfolding digit_value digit_char
digit_value-digit_char d h = ground arith

pub is_num_char-digit_char : (d : ℕ) → d < 36 → is_num_char (digit_char d) ≡ true
unfolding is_num_char digit_char
is_num_char-digit_char d h = ground arith

-- Every character of the text is in [0-9a-z].
abbrev pub AllNum : Text → Type 0
AllNum [] = Unit
AllNum (c ∷ s) = (is_num_char c ≡ true) × AllNum s

pub AllNum-append : (s t : Text) → AllNum s → AllNum t → AllNum (s ++ t)
AllNum-append [] t hs ht = ht
AllNum-append (c ∷ s) t hs ht = (hs.0, AllNum-append s t hs.1 ht)

digits-AllNum : (f n : ℕ) → AllNum (digits f n)
unfolding digits
digits-AllNum zero n = tt
digits-AllNum (suc f) n = elim (Bool-cases (ltb n 36)) [
  | inl h ↦ rw h (is_num_char-digit_char n (ground arith), tt)
  | inr h ↦ rw h (
      AllNum-append (digits f (n / 36)) _ (digits-AllNum f (n / 36))
        (is_num_char-digit_char (n % 36) (omega arith), tt))
]

digits_value-snoc :
    (o : Option ℕ) (n c d : ℕ) (s : Text)
    → digits_value o s ≡ some n
    → digit_value c ≡ some d
    → digits_value o (s ++ (c ∷ [])) ≡ some (n * 36 + d)
unfolding digits_value
digits_value-snoc none n c d s h k = cc
digits_value-snoc (some acc) n c d [] h k = rw (digits_value, k) (ground arith)
digits_value-snoc (some acc) n c d (x ∷ s) h k =
    digits_value-snoc (shift_in acc (digit_value x)) n c d s h k

digits_value-digits : (f n : ℕ) → n < f → digits_value (some 0) (digits f n) ≡ some n
unfolding digits
digits_value-digits zero n h = elim h [ ]
digits_value-digits (suc f) n h = elim (Bool-cases (ltb n 36)) [
  | inl small ↦ rw small (
      digits_value-snoc (some 0) 0 (digit_char n) n [] (unfold digits_value in refl)
        (digit_value-digit_char n (ground arith))
      ∙ ap some (omega arith))
  | inr big ↦ rw big (
      digits_value-snoc (some 0) (n / 36) (digit_char (n % 36)) (n % 36) (digits f (n / 36))
        (digits_value-digits f (n / 36) (ground arith))
        (digit_value-digit_char (n % 36) (omega arith))
      ∙ ap some (omega arith))
]

-- A text of digits alone starts with no sign.
parse_num-AllNum :
    (s : Text) (n : ℕ)
    → AllNum s
    → s ≢ []
    → digits_value (some 0) s ≡ some n
    → n < int_limit
    → parse_num s ≡ some (pos n)
unfolding parse_num is_num_char
parse_num-AllNum [] n hs ne hv hn = absurd (ne refl)
parse_num-AllNum (c ∷ s) n (hc, hs) ne hv hn = rw (hv) (ground arith)

snoc-ne-nil : (x : ℕ) (s : Text) → s ++ (x ∷ []) ≢ []
snoc-ne-nil x [] e = cc
snoc-ne-nil x (y ∷ s) e = cc

digits-ne-nil : (f n : ℕ) → digits (suc f) n ≢ []
unfolding digits
digits-ne-nil f n e = elim (Bool-cases (ltb n 36)) [
  | inl h ↦ cc (rw h at e)
  | inr h ↦ snoc-ne-nil _ (digits f (n / 36)) (rw h at e)
]

pub num_to_string-AllNum : (n : ℕ) → AllNum (num_to_string (pos n))
unfolding num_to_string
num_to_string-AllNum n = digits-AllNum (suc n) n

pub num_to_string-ne-nil : (n : ℕ) → num_to_string (pos n) ≢ []
unfolding num_to_string
num_to_string-ne-nil n = digits-ne-nil n n

pub parse_num-pos : (n : ℕ) → n < int_limit → parse_num (num_to_string (pos n)) ≡ some (pos n)
unfolding num_to_string
parse_num-pos n h =
    parse_num-AllNum (digits (suc n) n) n (digits-AllNum (suc n) n) (digits-ne-nil n n)
      (digits_value-digits (suc n) n (omega arith)) h

parse_num-neg : (n : ℕ) → n < int_limit → parse_num (num_to_string (negsuc n)) ≡ some (negsuc n)
unfolding parse_num num_to_string
parse_num-neg n h =
    with_digits (digits (suc (suc n)) (suc n)) (digits-ne-nil (suc n) (suc n))
      (digits_value-digits (suc (suc n)) (suc n) (omega arith))
  where
    with_digits :
        (s : Text)
        → s ≢ []
        → digits_value (some 0) s ≡ some (suc n)
        → parse_num (b'-' ∷ s) ≡ some (negsuc n)
    with_digits [] ne e = absurd (ne refl)
    with_digits (c ∷ s) ne e = rw e (ground arith)

-- The numbers of a 64-bit `int`.
abbrev pub IsInt : ℤ → Type 0
IsInt (pos n) = n < int_limit
IsInt (negsuc n) = n < int_limit

-- Reading back what was written gives the number, for every number that an `int` of 64 bits holds, the
-- negative ones included.
pub parse_num-num_to_string : (x : ℤ) → IsInt x → parse_num (num_to_string x) ≡ some x
parse_num-num_to_string (pos n) h = parse_num-pos n h
parse_num-num_to_string (negsuc n) h = parse_num-neg n h
