-- ===== src/Attribs.antt =====
-- lib/changeset/attributes.go, AttributeMap.go, and `ComposeAttributes` of changeset.go: attribute
-- texts `*0*1…` and the attribute maps that they stand for.
use etherpad_go.Prelude.{
  ℕ, zero, suc, ℤ, pos, pos_part, ltb_ℤ, Bool, true, false, ◌&&◌, ◌||◌, not, Option, none, some,
  List, [], ◌∷◌, ◌++◌, Text, text_eq, if◌then◌else◌, ◌==◌, leb, length, newline,
}
use etherpad_go.Num.{num_to_string, parse_num}
use etherpad_go.Op.{span_num}
use etherpad_go.Pool.{Attribute, APool, put_attrib, get_attrib}
use etherpad_go.Result.{Result, ok, err, panic, stuck, negative_attrib, invalid_attrib_char, ◌>>=◌}

-- `strconv.ParseInt(match[1], 36, 0)`, whose error is passed on.
abbrev attrib_num : Text → Result ℕ
attrib_num ds = elim (parse_num ds) [ none ↦ err invalid_attrib_char | some n ↦ ok (pos_part n) ]

abbrev decode_group : (Text → Result (List ℕ)) → Text × Text → Result (List ℕ)
decode_group more ([], rest) = err invalid_attrib_char
decode_group more (d ∷ ds, rest) = do n ← attrib_num (d ∷ ds); ns ← more rest; ok (n ∷ ns)

-- `\*([0-9a-z]+)|.`: `.` takes one character other than a newline, and is an error.
unfoldable pub decode_from : ℕ → Text → Result (List ℕ)
decode_from f [] = ok []
decode_from zero (c ∷ s) = stuck
decode_from (suc f) (c ∷ s) = elim (c == b'*') [
  | true ↦ decode_group (decode_from f) (span_num s)
  | false ↦ elim (c == newline) [ true ↦ decode_from f s | false ↦ err invalid_attrib_char ]
]

unfoldable pub decode_attrib_string : Text → Result (List ℕ)
decode_attrib_string s = decode_from (length s) s

-- The numbers are pool numbers; `checkAttribNum` refuses negative ones.
unfoldable pub encode_attrib_string : List ℤ → Result Text
encode_attrib_string [] = ok []
encode_attrib_string (n ∷ ns) =
    if ltb_ℤ n (pos 0)
    then err negative_attrib
    else (do s ← encode_attrib_string ns; ok (b'*' ∷ (num_to_string n ++ s)))

unfoldable pub attribs_from_nums : List ℕ → APool → Result (List Attribute)
attribs_from_nums [] p = ok []
attribs_from_nums (n ∷ ns) p = do a ← get_attrib n p; ats ← attribs_from_nums ns p; ok (a ∷ ats)

unfoldable pub attribs_to_nums : List Attribute → APool → List ℤ × APool
attribs_to_nums [] p = ([], p)
attribs_to_nums (a ∷ ats) p =
    let (n, p') = put_attrib a false p in let (ns, p'') = attribs_to_nums ats p' in (n ∷ ns, p'')

abbrev or_empty : Result (List Attribute) → List Attribute
or_empty (ok ats) = ats
or_empty (err e) = []
or_empty panic = []
or_empty stuck = []

-- An error gives no attributes.
unfoldable pub attribs_from_string : Text → APool → List Attribute
attribs_from_string s p = or_empty (decode_attrib_string s >>= λ ns. attribs_from_nums ns p)

unfoldable pub attribs_to_string : List Attribute → APool → Result (Text × APool)
attribs_to_string ats p =
    let (ns, p') = attribs_to_nums ats p in do s ← encode_attrib_string ns; ok (s, p')

-- `map[string]string`: each key once.
abbrev pub Attrs : Type 0
Attrs = List (Text × Text)

unfoldable pub attr_get : Text → Attrs → Option Text
attr_get k [] = none
attr_get k ((j, v) ∷ m) = if text_eq k j then some v else attr_get k m

unfoldable pub attr_delete : Text → Attrs → Attrs
attr_delete k [] = []
attr_delete k ((j, v) ∷ m) =
    let rest = attr_delete k m in if text_eq k j then rest else (j, v) ∷ rest

unfoldable pub attr_put : Text → Text → Attrs → Attrs
attr_put k v [] = (k, v) ∷ []
attr_put k v ((j, w) ∷ m) = if text_eq k j then (k, v) ∷ m else (j, w) ∷ attr_put k v m

pub record AttributeMap : Type 0 where
  pub pool : APool
  pub attrs : Attrs

-- `unicode.IsSpace`.
unfoldable pub is_space : ℕ → Bool
is_space c =
    leb 9 c && leb c 13
    || c == 32
    || c == 0x85
    || c == 0xa0
    || c == 0x1680
    || leb 0x2000 c && leb c 0x200a
    || c == 0x2028
    || c == 0x2029
    || c == 0x202f
    || c == 0x205f
    || c == 0x3000

unfoldable pub trim_left : Text → Text
trim_left [] = []
trim_left (c ∷ s) = let rest = trim_left s in if is_space c then rest else c ∷ s

abbrev snoc_unless_blank : ℕ → Text → Text
snoc_unless_blank c [] = if is_space c then [] else c ∷ []
snoc_unless_blank c (d ∷ s) = c ∷ d ∷ s

unfoldable pub trim_right : Text → Text
trim_right [] = []
trim_right (c ∷ s) = snoc_unless_blank c (trim_right s)

-- `strings.TrimSpace`
abbrev pub trim_space : Text → Text
trim_space s = trim_right (trim_left s)

-- `Set` puts the attribute into the pool too.
unfoldable pub set_attr : Text → Text → AttributeMap → AttributeMap
set_attr k v m = record {
  pool = (put_attrib (record { key = k; value = v }) false m.pool).1;
  attrs = attr_put k v m.attrs;
}

abbrev update_entry : Bool → Text → Text → AttributeMap → AttributeMap
update_entry empty_is_delete k [] m =
    if empty_is_delete then record m { attrs = attr_delete k m.attrs } else set_attr k [] m
update_entry empty_is_delete k (c ∷ v) m = set_attr k (c ∷ v) m

unfoldable pub update : List Attribute → Bool → AttributeMap → AttributeMap
update [] empty_is_delete m = m
update (a ∷ ats) empty_is_delete m =
    update ats empty_is_delete
      (update_entry empty_is_delete (trim_space a.key) (trim_space a.value) m)

unfoldable pub update_from_string : Text → Bool → AttributeMap → AttributeMap
update_from_string s empty_is_delete m = update (attribs_from_string s m.pool) empty_is_delete m

unfoldable pub from_string : Text → APool → AttributeMap
from_string s p = update_from_string s false (record { pool = p; attrs = [] })

-- The comparison of `sortAttribs` puts both attributes into the pool; `Set` has put them there.
abbrev pool_num : APool → Attribute → ℤ
pool_num p a = (put_attrib a false p).0

unfoldable pub insert_sorted : APool → Attribute → List Attribute → List Attribute
insert_sorted p a [] = a ∷ []
insert_sorted p a (b ∷ ats) =
    if ltb_ℤ (pool_num p b) (pool_num p a) then b ∷ insert_sorted p a ats else a ∷ b ∷ ats

-- Pool numbers of different attributes differ, so the order does not depend on Go's map order.
unfoldable pub sort_attribs : APool → Attrs → List Attribute
sort_attribs p [] = []
sort_attribs p ((k, v) ∷ m) = insert_sorted p (record { key = k; value = v }) (sort_attribs p m)

-- `String()` drops the error and then reads through a nil pointer.
abbrev or_panic : Result (Text × APool) → Result (Text × APool)
or_panic (ok r) = ok r
or_panic (err e) = panic
or_panic panic = panic
or_panic stuck = stuck

unfoldable pub map_to_string : AttributeMap → Result (Text × APool)
map_to_string m = or_panic (attribs_to_string (sort_attribs m.pool m.attrs) m.pool)

abbrev some_pool : Text × APool → Result (Text × Option APool)
some_pool (s, p) = ok (s, some p)

-- `FromString` and `UpdateFromString` read through the pool's pointer, which must not be nil.
abbrev compose_in : Text → Text → Bool → Option APool → Result (Text × Option APool)
compose_in a b empty_is_delete none = panic
compose_in a b empty_is_delete (some p) =
    map_to_string (update_from_string b empty_is_delete (from_string a p)) >>= some_pool

unfoldable pub compose_attributes : Text → Text → Bool → Option APool → Result (Text × Option APool)
compose_attributes a b result_is_mutation p =
    if text_eq a [] && result_is_mutation
    then ok (b, p)
    else if text_eq b []
    then ok (a, p)
    else compose_in a b (not result_is_mutation) p
