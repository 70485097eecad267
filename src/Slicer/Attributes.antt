-- ===== src/Slicer/Attributes.antt =====
-- Composing two attribute texts always gives an attribute text, where a pool is at hand.
use etherpad_go.Prelude.{
  ℕ, ℤ, pos, ltb_ℤ, ◌≡◌, refl, Option, none, some, List, [], ◌∷◌, ◌++◌, Text, arith, Bool, false,
  Bool-cases, inl, inr, ◌&&◌, text_eq, not,
}
use etherpad_go.Num.{num_to_string}
use etherpad_go.Num.RoundTrip.{num_to_string-AllNum, num_to_string-ne-nil}
use etherpad_go.Op.{OpCode, Op, minus, keep, plus, blank}
use etherpad_go.Pool.{Attribute, APool, put_attrib, find_num}
use etherpad_go.Result.{Result, ok}
use etherpad_go.Attribs.{
  AttributeMap, attribs_to_nums, encode_attrib_string, attribs_to_string, map_to_string,
  sort_attribs, compose_attributes, update_from_string, from_string,
}
use etherpad_go.Assembler.Smart.Normal.{IsAttribs}
use etherpad_go.Slicer.{out_attribs, is_keep}

put_attrib-pos : (a : Attribute) (p : APool) → (n : ℕ) × ((put_attrib a false p).0 ≡ pos n)
put_attrib-pos a p = go (find_num a p.attrib_to_num) refl
  where
    go :
        (o : Option ℕ)
        → find_num a p.attrib_to_num ≡ o
        → (n : ℕ) × ((put_attrib a false p).0 ≡ pos n)
    go none e = (p.next_num, unfold put_attrib in rw e)
    go (some n) e = (n, unfold put_attrib in rw e)

AllPos : List ℤ → Type 0
AllPos [] = Unit
AllPos (n ∷ ns) = ((k : ℕ) × (n ≡ pos k)) × AllPos ns

attribs_to_nums-AllPos : (ats : List Attribute) (p : APool) → AllPos (attribs_to_nums ats p).0
unfolding attribs_to_nums AllPos
attribs_to_nums-AllPos [] p = tt
attribs_to_nums-AllPos (a ∷ ats) p =
    (put_attrib-pos a p, attribs_to_nums-AllPos ats (put_attrib a false p).1)

not_negative : (k : ℕ) → ltb_ℤ (pos k) (pos 0) ≡ false
not_negative k = ground arith

encode-IsAttribs :
    (ns : List ℤ) → AllPos ns → (s : Text) × (encode_attrib_string ns ≡ ok s) × IsAttribs s
unfolding encode_attrib_string AllPos
encode-IsAttribs [] h = ([], refl, ([], tt, refl))
encode-IsAttribs (n ∷ ns) ((k, e), h) =
    let (s, es, (gs, all, form)) = encode-IsAttribs ns h in
    (
      b'*' ∷ (num_to_string (pos k) ++ s),
      rw (e, not_negative k, es),
      (num_to_string (pos k) ∷ gs, (num_to_string-AllNum k, num_to_string-ne-nil k, all), rw form),
    )

map_to_string-IsAttribs :
    (m : AttributeMap) → (s : Text) × (p : APool) × (map_to_string m ≡ ok (s, p)) × IsAttribs s
unfolding map_to_string attribs_to_string
map_to_string-IsAttribs m =
    let ats = sort_attribs m.pool m.attrs in
    let (s, e, form) =
      encode-IsAttribs (attribs_to_nums ats m.pool).0 (attribs_to_nums-AllPos ats m.pool) in
    (s, (attribs_to_nums ats m.pool).1, rw e, form)

-- The result of a composition of attribute texts.
abbrev pub Composed : Result (Text × Option APool) → Type 0
Composed r = (s : Text) × (p : APool) × (r ≡ ok (s, some p)) × IsAttribs s

compose_attributes-Composed :
    (a b : Text) (m : Bool) (p : APool)
    → IsAttribs a
    → IsAttribs b
    → Composed (compose_attributes a b m (some p))
unfolding compose_attributes
compose_attributes-Composed a b m p fa fb = elim (Bool-cases (text_eq a [] && m)) [
  | inl e ↦ rw e (b, p, refl, fb)
  | inr e ↦ elim (Bool-cases (text_eq b [])) [
    | inl n ↦ rw (e, n) (a, p, refl, fa)
    | inr n ↦
        let (s, p', r, form) =
          map_to_string-IsAttribs (update_from_string b (not m) (from_string a p)) in
        rw (e, n) (s, p', rw r, form)
  ]
]

-- The attributes of the op that a slice gives.
pub out_attribs-Composed :
    (a c : Op) (k : OpCode) (p : APool)
    → IsAttribs a.attribs
    → IsAttribs c.attribs
    → Composed (out_attribs a c k (some p))
out_attribs-Composed a c minus p fa fc = (c.attribs, p, refl, fc)
out_attribs-Composed a c blank p fa fc =
    compose_attributes-Composed a.attribs c.attribs (is_keep a.opcode) p fa fc
out_attribs-Composed a c plus p fa fc =
    compose_attributes-Composed a.attribs c.attribs (is_keep a.opcode) p fa fc
out_attribs-Composed a c keep p fa fc =
    compose_attributes-Composed a.attribs c.attribs (is_keep a.opcode) p fa fc
