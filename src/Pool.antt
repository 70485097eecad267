-- ===== src/Pool.antt =====
-- lib/apool/APool.go and Attribute.go: the attribute pool, which numbers attributes in the order in
-- which they were put. Go's maps are association lists in which the first entry of a key counts.
use etherpad_go.Prelude.{
  ℕ, ◌+◌, ℤ, pos, negsuc, Bool, ◌&&◌, Option, none, some, List, [], ◌∷◌, Text, text_eq,
  if◌then◌else◌, ◌==◌,
}
use etherpad_go.Result.{Result, ok, err, attrib_not_found}

pub record Attribute : Type 0 where
  pub key : Text
  pub value : Text

abbrev pub attribute_eq : Attribute → Attribute → Bool
attribute_eq a b = text_eq a.key b.key && text_eq a.value b.value

pub record APool : Type 0 where
  pub num_to_attrib : List (ℕ × Attribute)
  pub attrib_to_num : List (Attribute × ℕ)
  pub next_num : ℕ

abbrev pub new_apool : APool
new_apool = record { num_to_attrib = []; attrib_to_num = []; next_num = 0 }

unfoldable pub find_num : Attribute → List (Attribute × ℕ) → Option ℕ
find_num a [] = none
find_num a ((b, n) ∷ m) = if attribute_eq a b then some n else find_num a m

unfoldable pub find_attrib : ℕ → List (ℕ × Attribute) → Option Attribute
find_attrib n [] = none
find_attrib n ((k, a) ∷ m) = if n == k then some a else find_attrib n m

abbrev add_attrib : Attribute → APool → ℤ × APool
add_attrib a p = (
  pos p.next_num,
  record {
    num_to_attrib = (p.next_num, a) ∷ p.num_to_attrib;
    attrib_to_num = (a, p.next_num) ∷ p.attrib_to_num;
    next_num = p.next_num + 1;
  },
)

abbrev put_found : Option ℕ → Attribute → Bool → APool → ℤ × APool
put_found (some n) a dont_add p = (pos n, p)
put_found none a dont_add p = if dont_add then (negsuc 0, p) else add_attrib a p

-- The number of the attribute, -1 if it is absent and not to be added.
unfoldable pub put_attrib : Attribute → Bool → APool → ℤ × APool
put_attrib a dont_add p = put_found (find_num a p.attrib_to_num) a dont_add p

abbrev or_not_found : Option Attribute → Result Attribute
or_not_found none = err attrib_not_found
or_not_found (some a) = ok a

unfoldable pub get_attrib : ℕ → APool → Result Attribute
get_attrib n p = or_not_found (find_attrib n p.num_to_attrib)
