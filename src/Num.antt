-- ===== src/Num.antt =====
-- lib/utils/stringUtils.go: numbers in base 36, as the wire format of changesets writes them.
-- `big.Int.Text(36)` and `strconv.ParseInt(s, 36, 0)` are the standard library's; an `int` has 64 bits.
pub mod RoundTrip
pub use etherpad_go.Prelude.{int_limit}
use etherpad_go.Prelude.{
  ℕ, zero, suc, ◌+◌, ◌-◌, ◌*◌, ◌/◌, ◌%◌, ℤ, pos, negsuc, neg, Bool, ◌&&◌, ◌||◌, Option, none, some,
  List, [], ◌∷◌, ◌++◌, Text, if◌then◌else◌, ltb, leb, ◌==◌,
}

-- The character of a digit below 36, in lower case.
unfoldable pub digit_char : ℕ → ℕ
digit_char d = if ltb d 10 then b'0' + d else b'a' + (d - 10)

-- The digits of `n`, most significant first; `n + 1` rounds are more than it has digits.
unfoldable pub digits : ℕ → ℕ → Text
digits zero n = []
digits (suc f) n =
    let front = digits f (n / 36) in
    if ltb n 36 then digit_char n ∷ [] else front ++ (digit_char (n % 36) ∷ [])

unfoldable pub num_to_string : ℤ → Text
num_to_string (pos n) = digits (suc n) n
num_to_string (negsuc n) = b'-' ∷ digits (suc (suc n)) (suc n)

-- The regular expressions' class [0-9a-z].
unfoldable pub is_num_char : ℕ → Bool
is_num_char c = leb b'0' c && leb c b'9' || leb b'a' c && leb c b'z'

-- The value of a digit in base 36, in either case.
unfoldable pub digit_value : ℕ → Option ℕ
digit_value c =
    if leb b'0' c && leb c b'9'
    then some (c - b'0')
    else if leb b'a' c && leb c b'z'
    then some (c - b'a' + 10)
    else if leb b'A' c && leb c b'Z'
    then some (c - b'A' + 10)
    else none

abbrev pub shift_in : ℕ → Option ℕ → Option ℕ
shift_in acc none = none
shift_in acc (some d) = some (acc * 36 + d)

unfoldable pub digits_value : Option ℕ → Text → Option ℕ
digits_value none cs = none
digits_value (some acc) [] = some acc
digits_value (some acc) (c ∷ cs) = digits_value (shift_in acc (digit_value c)) cs

-- `none` is the error of `ParseInt`: no digits, another character, or a value out of range.
abbrev in_range : Option ℕ → Option ℤ
in_range none = none
in_range (some n) = if ltb n int_limit then some (pos n) else none

abbrev in_range_neg : Option ℕ → Option ℤ
in_range_neg none = none
in_range_neg (some n) = if leb n int_limit then some (neg (pos n)) else none

unfoldable pub parse_num : Text → Option ℤ
parse_num [] = none
parse_num (c ∷ cs) =
    if c == b'-'
    then (elim cs [ [] ↦ none | d ∷ ds ↦ in_range_neg (digits_value (some 0) (d ∷ ds)) ])
    else if c == b'+'
    then (elim cs [ [] ↦ none | d ∷ ds ↦ in_range (digits_value (some 0) (d ∷ ds)) ])
    else in_range (digits_value (some 0) (c ∷ cs))

-- `n, _ := utils.ParseNum(s)`: the error is dropped, and the number is then 0.
unfoldable pub num_or_zero : Text → ℤ
num_or_zero s = elim (parse_num s) [ none ↦ pos 0 | some n ↦ n ]
