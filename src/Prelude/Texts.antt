-- ===== src/Prelude/Texts.antt =====
-- Go strings as lists of code points (runes): `len` over runes, `+`, `==`, `<=` and newlines.
use Prim.Native.Nat.{ℕ, ◌+◌, ◌≤◌}
use Prim.Native.Char.{code}
use Prim.Native.String.{String}
use mathlib.Core.Path.{◌≡◌, refl}
use mathlib.Core.Bool.{Bool, true, false, ◌&&◌}
use mathlib.Core.List.{List, [], ◌∷◌, ◌++◌}
use native.Mathlib.Omega.{arith}
use etherpad_go.Prelude.Tests.{◌==◌, if◌then◌else◌}
use etherpad_go.Prelude.Lists.{length}

abbrev pub Text : Type 0
Text = List ℕ

abbrev pub codes : String → Text
codes String.[] = []
codes (String.◌∷◌ c s) = code c ∷ codes s

unfoldable pub text_eq : Text → Text → Bool
text_eq [] [] = true
text_eq [] (y ∷ ys) = false
text_eq (x ∷ xs) [] = false
text_eq (x ∷ xs) (y ∷ ys) = x == y && text_eq xs ys

pub text_eq_refl : (s : Text) → text_eq s s ≡ true
unfolding text_eq
text_eq_refl [] = refl
text_eq_refl (x ∷ xs) = ground (arith, text_eq_refl xs)

pub text_eq→eq : (s t : Text) → text_eq s t ≡ true → s ≡ t
unfolding text_eq
text_eq→eq [] [] h = refl
text_eq→eq [] (y ∷ ys) h = ground arith
text_eq→eq (x ∷ xs) [] h = ground arith
text_eq→eq (x ∷ xs) (y ∷ ys) h = ground (arith, text_eq→eq xs ys)

-- The newlines of a text.
abbrev pub newline : ℕ
newline = 10

unfoldable pub count_lines : Text → ℕ
count_lines [] = 0
count_lines (c ∷ s) = (if c == newline then 1 else 0) + count_lines s

pub count_lines-append : (s t : Text) → count_lines (s ++ t) ≡ count_lines s + count_lines t
unfolding count_lines
count_lines-append [] t = omega arith
count_lines-append (c ∷ s) t = ground (arith, count_lines-append s t)

pub count_lines-le : (s : Text) → count_lines s ≤ length s
unfolding count_lines
count_lines-le [] = omega arith
count_lines-le (c ∷ s) = ground (arith, count_lines-le s)
