-- ===== src/Sheet/Style.antt =====
-- lib/sheet/style.go: the pool that gives equal styles one number.
use etherpad_go.Prelude.{
  ℤ, pos, ◌+ℤ◌, eqb_ℤ, Bool, true, false, ◌&&◌, ◌||◌, Option, none, some, List, [], ◌∷◌, ◌++◌, Text,
  text_eq, if◌then◌else◌, ltb, ◌==◌,
}
use etherpad_go.Sheet.Maps.{lookup, put}

-- The order of Go's `<` on strings: bytewise, a prefix first.
unfoldable pub text_le : Text → Text → Bool
text_le [] t = true
text_le (c ∷ s) [] = false
text_le (c ∷ s) (d ∷ t) = ltb c d || c == d && text_le s t

unfoldable pub insert_key : Text × Text → List (Text × Text) → List (Text × Text)
insert_key e [] = e ∷ []
insert_key e (f ∷ m) = if text_le e.0 f.0 then e ∷ f ∷ m else f ∷ insert_key e m

-- `sort.Strings` on the keys, each with its value.
unfoldable pub sort_keys : List (Text × Text) → List (Text × Text)
sort_keys [] = []
sort_keys (e ∷ m) = insert_key e (sort_keys m)

unfoldable pub write_props : List (Text × Text) → Text
write_props [] = []
write_props ((k, v) ∷ m) = k ++ (0 ∷ (v ++ (1 ∷ write_props m)))

unfoldable pub canonical_key : List (Text × Text) → Text
canonical_key props = write_props (sort_keys props)

pub record StylePool : Type 0 where
  pub id_to_style : List (ℤ × List (Text × Text))
  pub key_to_id : List (Text × ℤ)
  pub next_id : ℤ

abbrev pub new_style_pool : StylePool
new_style_pool = record { id_to_style = []; key_to_id = ([], pos 0) ∷ []; next_id = pos 1 }

abbrev intern : Option ℤ → List (Text × Text) → StylePool → ℤ × StylePool
intern (some n) props p = (n, p)
intern none props p = (
  p.next_id,
  record {
    id_to_style = put eqb_ℤ p.next_id props p.id_to_style;
    key_to_id = put text_eq (canonical_key props) p.next_id p.key_to_id;
    next_id = p.next_id +ℤ pos 1;
  },
)

unfoldable pub put_style : List (Text × Text) → StylePool → ℤ × StylePool
put_style props p = intern (lookup text_eq (canonical_key props) p.key_to_id) props p

-- Number 0 is the empty style.
unfoldable pub get_style : ℤ → StylePool → Option (List (Text × Text))
get_style n p = if eqb_ℤ n (pos 0) then some [] else lookup eqb_ℤ n p.id_to_style
