-- ===== src/Strings.antt =====
-- Functions of Go's package strings that lib/ uses, on texts of ASCII where the case of letters counts.
use etherpad_go.Prelude.{
  ℕ, ◌+◌, Bool, true, false, ◌&&◌, ◌||◌, List, [], ◌∷◌, map, Text, text_eq, if◌then◌else◌, leb,
  ◌==◌,
}

-- `strings.HasPrefix`
unfoldable pub starts_with : Text → Text → Bool
starts_with [] s = true
starts_with (c ∷ p) [] = false
starts_with (c ∷ p) (d ∷ s) = c == d && starts_with p s

-- `strings.Contains`
unfoldable pub contains : Text → Text → Bool
contains p [] = starts_with p []
contains p (d ∷ s) = let rest = contains p s in starts_with p (d ∷ s) || rest

-- `strings.HasSuffix`
unfoldable pub ends_with : Text → Text → Bool
ends_with p [] = text_eq p []
ends_with p (c ∷ s) = let rest = ends_with p s in text_eq p (c ∷ s) || rest

unfoldable pub lower_byte : ℕ → ℕ
lower_byte c = if leb b'A' c && leb c b'Z' then c + 32 else c

-- `strings.ToLower`
unfoldable pub to_lower : Text → Text
to_lower s = map lower_byte s

-- `strings.Split` at one byte.
unfoldable pub split_at_byte : ℕ → Text → List Text
split_at_byte sep [] = [] ∷ []
split_at_byte sep (c ∷ s) =
    let rest = split_at_byte sep s in
    if c == sep
    then [] ∷ rest
    else elim rest [ [] ↦ (c ∷ []) ∷ [] | part ∷ parts ↦ (c ∷ part) ∷ parts ]
