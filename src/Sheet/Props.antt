-- ===== src/Sheet/Props.antt =====
-- `ValidateProps` of lib/sheet/op.go: the style properties that an op may carry. The three regular
-- expressions are written out.
use etherpad_go.Prelude.{
  ℕ, ◌+◌, ◌*◌, ◌-◌, Bool, true, false, ◌&&◌, ◌||◌, Option, none, some, List, [], ◌∷◌, Text, text_eq,
  codes, if◌then◌else◌, ◌==◌, leb, length,
}
use etherpad_go.Result.{Result, ok, err, unknown_prop, invalid_prop, ◌>>◌}

abbrev is_digit : ℕ → Bool
is_digit c = leb b'0' c && leb c b'9'

abbrev is_hex : ℕ → Bool
is_hex c = is_digit c || (leb b'a' c && leb c b'f') || (leb b'A' c && leb c b'F')

unfoldable pub all_hex : Text → Bool
all_hex [] = true
all_hex (c ∷ s) = is_hex c && all_hex s

-- `^#([0-9a-fA-F]{3}|[0-9a-fA-F]{6})$`
abbrev pub hex_color : Text → Bool
hex_color [] = false
hex_color (c ∷ s) = c == b'#' && (length s == 3 || length s == 6) && all_hex s

-- `(:\d{1,2})?$`
abbrev pub decimals : Text → Bool
decimals [] = true
decimals (c ∷ d ∷ []) = c == b':' && is_digit d
decimals (c ∷ d ∷ e ∷ []) = c == b':' && is_digit d && is_digit e
decimals s = false

-- `decimals` behind a prefix.
unfoldable pub with_decimals : Text → Text → Bool
with_decimals [] s = decimals s
with_decimals (p ∷ ps) [] = false
with_decimals (p ∷ ps) (c ∷ s) = p == c && with_decimals ps s

-- `^(general|text|date|(number|currency|percent)(:\d{1,2})?)$`
abbrev pub num_fmt : Text → Bool
num_fmt s =
    text_eq s (codes "general")
    || text_eq s (codes "text")
    || text_eq s (codes "date")
    || with_decimals (codes "number") s
    || with_decimals (codes "currency") s
    || with_decimals (codes "percent") s

abbrev pub font_family : Text → Bool
font_family s =
    text_eq s (codes "Calibri")
    || text_eq s (codes "Arial")
    || text_eq s (codes "Times New Roman")
    || text_eq s (codes "Courier New")
    || text_eq s (codes "Georgia")
    || text_eq s (codes "Verdana")

abbrev size_in_range : ℕ → Bool
size_in_range n = leb 6 n && leb n 96

-- `^[1-9]\d?$`, and a size from 6 to 96.
abbrev pub font_size : Text → Bool
font_size (d ∷ []) = leb b'1' d && leb d b'9' && size_in_range (d - b'0')
font_size (d ∷ e ∷ []) =
    leb b'1' d && leb d b'9' && is_digit e && size_in_range ((d - b'0') * 10 + (e - b'0'))
font_size s = false

abbrev one_of3 : Text → Text → Text → Text → Bool
one_of3 v a b c = text_eq v a || text_eq v b || text_eq v c

-- Whether the value fits the key; `none` for an unknown key.
abbrev pub check_prop : Text → Text → Option Bool
check_prop k v =
    if text_eq k (codes "bold")
      || text_eq k (codes "italic")
      || text_eq k (codes "underline")
      || text_eq k (codes "strike")
    then some (text_eq v (codes "1"))
    else if text_eq k (codes "color") || text_eq k (codes "bg")
    then some (hex_color v)
    else if text_eq k (codes "align")
    then some (one_of3 v (codes "left") (codes "center") (codes "right"))
    else if text_eq k (codes "valign")
    then some (one_of3 v (codes "top") (codes "middle") (codes "bottom"))
    else if text_eq k (codes "border")
    then some (text_eq v (codes "all"))
    else if text_eq k (codes "numFmt")
    then some (num_fmt v)
    else if text_eq k (codes "fontFamily")
    then some (font_family v)
    else if text_eq k (codes "fontSize")
    then some (font_size v)
    else if text_eq k (codes "wrap")
    then some (text_eq v (codes "1"))
    else none

abbrev prop_result : Option Bool → Result (Unit {0})
prop_result none = err unknown_prop
prop_result (some false) = err invalid_prop
prop_result (some true) = ok tt

unfoldable pub validate_props : List (Text × Text) → Result (Unit {0})
validate_props [] = ok tt
validate_props ((k, v) ∷ m) = prop_result (check_prop k v) >> validate_props m

-- A nil map has no entries.
abbrev pub validate_opt_props : Option (List (Text × Text)) → Result (Unit {0})
validate_opt_props none = ok tt
validate_opt_props (some m) = validate_props m
