-- ===== src/Changeset/Packed.antt =====
-- `Unpack` reads back what `Pack` wrote.
use mathlib.Core.Logic.{◌≢◌}
use etherpad_go.Prelude.{
  ℕ, ◌+◌, ◌-◌, ◌≤◌, ◌<◌, pos, negsuc, neg, ◌+ℤ◌, ◌-ℤ◌, leb_ℤ, leb, eqb_ℤ, pos-sub, pos-add, true,
  false, ◌||◌, Bool-cases, inl, inr, ◌≡◌, refl, sym, ap, ◌∙◌, some, List, [], ◌∷◌, ◌++◌,
  append_assoc, append-nil, Text, length, length-append, take, drop, take-append, drop-append,
  arith, ◌==◌,
}
use etherpad_go.Num.{num_to_string, is_num_char, int_limit}
use etherpad_go.Num.RoundTrip.{AllNum, num_to_string-AllNum, num_to_string-ne-nil}
use etherpad_go.Op.{OpCode, Op, blank, plus, minus, keep, lines_text, code_text, op_to_string}
use etherpad_go.Op.RoundTrip.{
  IsWire, AllWire, AllGroups, star_all, serialize, Stops, span_num-append,
  num_or_zero-num_to_string,
}
use etherpad_go.Result.{ok}
use etherpad_go.Changeset.{
  Headers, rune_slice, rune_index, header_regex, with_change, with_old_len, with_sign, unpack, pack,
  change_sign, len_diff_text,
}

-- The text has no '$'.
abbrev pub NoDollar : Text → Type 0
NoDollar [] = Unit
NoDollar (c ∷ s) = ((c == b'$') ≡ false) × NoDollar s

pub NoDollar-append : (s t : Text) → NoDollar s → NoDollar t → NoDollar (s ++ t)
NoDollar-append [] t hs ht = ht
NoDollar-append (c ∷ s) t (h, hs) ht = (h, NoDollar-append s t hs ht)

pub AllNum-NoDollar : (s : Text) → AllNum s → NoDollar s
unfolding is_num_char
AllNum-NoDollar [] h = tt
AllNum-NoDollar (c ∷ s) (h, hs) = (ground arith, AllNum-NoDollar s hs)

rune_index-dollar : (s t : Text) → NoDollar s → rune_index b'$' (s ++ (b'$' ∷ t)) ≡ some (length s)
unfolding rune_index
rune_index-dollar [] t h = refl
rune_index-dollar (c ∷ s) t (h, hs) = rw (h, rune_index-dollar s t hs)

Stops-dollar : (s t : Text) → Stops s → Stops (s ++ (b'$' ∷ t))
unfolding is_num_char
Stops-dollar [] t h = refl
Stops-dollar (c ∷ s) t h = h

-- A header with the parts of a packed changeset.
abbrev header : Text → ℕ → Text → Headers
header d c e = record {
  whole = b'Z' ∷ b':' ∷ (d ++ (c ∷ e));
  old_part = d;
  sign = c ∷ [];
  change = e;
}

with_change-full : (d e r : Text) (c : ℕ) → e ≢ [] → with_change d c (e, r) ≡ some (header d c e)
with_change-full d [] r c h = absurd (h refl)
with_change-full d (x ∷ e) r c h = refl

with_old_len-full : (d s : Text) → d ≢ [] → with_old_len (d, s) ≡ with_sign d s
with_old_len-full [] s h = absurd (h refl)
with_old_len-full (x ∷ d) s h = refl

module _ (a n c : ℕ) (ops bank : Text) (sign : (c == b'>' || c == b'<') ≡ true) (stops : Stops ops)
    (plain : NoDollar ops) (ha : a < int_limit) (hn : n < int_limit) where
  abbrev d : Text
  d = num_to_string (pos a)

  abbrev e : Text
  e = num_to_string (pos n)

  abbrev rest : Text
  rest = ops ++ (b'$' ∷ bank)

  abbrev cs : Text
  cs = b'Z' ∷ b':' ∷ (d ++ (c ∷ (e ++ rest)))

  rest-Stops : Stops rest
  rest-Stops = Stops-dollar ops bank stops

  sign_stops : is_num_char c ≡ false
  unfolding is_num_char
  sign_stops = ground arith

  header_regex-cs : header_regex cs ≡ some (header d c e)
  unfolding header_regex
  header_regex-cs =
      ap with_old_len (span_num-append d (c ∷ (e ++ rest)) (num_to_string-AllNum a) sign_stops)
      ∙ with_old_len-full d (c ∷ (e ++ rest)) (num_to_string-ne-nil a)
      ∙ rw sign (
          ap (with_change d c) (span_num-append e rest (num_to_string-AllNum n) rest-Stops)
          ∙ with_change-full d e rest c (num_to_string-ne-nil n))

  abbrev front : Text
  front = b'Z' ∷ b':' ∷ (d ++ (c ∷ e))

  cs-front : cs ≡ front ++ rest
  cs-front = ap (λ t. b'Z' ∷ b':' ∷ t) (sym (append_assoc d (c ∷ e) rest))

  cs-dollar : cs ≡ (front ++ ops) ++ (b'$' ∷ bank)
  cs-dollar = cs-front ∙ sym (append_assoc front ops (b'$' ∷ bank))

  front-NoDollar : NoDollar front
  front-NoDollar = (
    refl,
    (
      refl,
      NoDollar-append d (c ∷ e) (AllNum-NoDollar d (num_to_string-AllNum a))
          (ground arith, AllNum-NoDollar e (num_to_string-AllNum n)),
    ),
  )

  index : rune_index b'$' cs ≡ some (length (front ++ ops))
  index =
      ap (rune_index b'$') cs-dollar
      ∙ rune_index-dollar (front ++ ops) bank (NoDollar-append front ops front-NoDollar plain)

  ops_part : rune_slice cs (length front) (length (front ++ ops)) ≡ ops
  ops_part =
      ap (take (length (front ++ ops) - length front))
        (ap (drop (length front)) cs-front ∙ drop-append front rest (length front) refl)
      ∙ take-append ops (b'$' ∷ bank) (length (front ++ ops) - length front)
          (omega (arith, length-append front ops))

  bank_part : rune_slice cs (length (front ++ ops) + 1) (length cs) ≡ bank
  bank_part =
      let k = length (front ++ ops) + 1 in
      let split = cs-dollar ∙ sym (append_assoc (front ++ ops) (b'$' ∷ []) bank) in
      let size = ap length split ∙ length-append ((front ++ ops) ++ (b'$' ∷ [])) bank in
      let size' = length-append (front ++ ops) (b'$' ∷ []) in
      ap (take (length cs - k)) (
        ap (drop k) split
        ∙ drop-append ((front ++ ops) ++ (b'$' ∷ [])) bank k (omega (arith, size')))
      ∙ ap (take (length cs - k)) (sym (append-nil bank))
      ∙ take-append bank [] (length cs - k) (omega (arith, size, size'))

  unpack-cs :
      unpack cs
      ≡ ok (record {
        old_len = pos a;
        new_len = pos a +ℤ change_sign (c ∷ []) (pos n);
        ops = ops;
        char_bank = bank;
      })
  unfolding unpack
  unpack-cs = rw (
    unpack,
    header_regex-cs,
    index,
    ops_part,
    bank_part,
    num_or_zero-num_to_string a ha,
    num_or_zero-num_to_string n hn,
  )

len_diff_text-pos : (n : ℕ) → len_diff_text (pos n) ≡ b'>' ∷ num_to_string (pos n)
len_diff_text-pos n = let e : leb_ℤ (pos 0) (pos n) ≡ true = ground arith in rw e

len_diff_text-negsuc : (n : ℕ) → len_diff_text (negsuc n) ≡ b'<' ∷ num_to_string (neg (negsuc n))
len_diff_text-negsuc n = let e : leb_ℤ (pos 0) (negsuc n) ≡ false = ground arith in rw e

grown :
    (a b : ℕ)
    → a ≤ b
    → (len_diff_text (pos b -ℤ pos a) ≡ b'>' ∷ num_to_string (pos (b - a)))
      × (pos a +ℤ pos (b - a) ≡ pos b)
grown a b h = (
  ap len_diff_text (pos-sub b a h) ∙ len_diff_text-pos (b - a),
  pos-add a (b - a) ∙ ap pos (omega arith),
)

shrunk :
    (a b : ℕ)
    → b < a
    → (len_diff_text (pos b -ℤ pos a) ≡ b'<' ∷ num_to_string (pos (a - b)))
      × (pos a +ℤ neg (pos (a - b)) ≡ pos b)
shrunk a b h =
    let e : pos b -ℤ pos a ≡ negsuc (a - b - 1) = ground arith in
    let e' : neg (negsuc (a - b - 1)) ≡ pos (a - b) = ground arith in
    (
      ap len_diff_text e ∙ len_diff_text-negsuc (a - b - 1) ∙ ap (λ n. b'<' ∷ num_to_string n) e',
      ground arith,
    )

-- `Unpack` after `Pack`, for lengths that an `int` holds, an op text that does not begin with a digit
-- and has no '$', and any bank: the lengths, the op text and the bank come back.
pub unpack-pack :
    (a b : ℕ) (ops bank : Text)
    → a < int_limit
    → b < int_limit
    → Stops ops
    → NoDollar ops
    → unpack (pack (pos a) (pos b) ops bank)
      ≡ ok (record { old_len = pos a; new_len = pos b; ops = ops; char_bank = bank })
unfolding pack
unpack-pack a b ops bank ha hb stops plain = elim (Bool-cases (leb a b)) [
  | inl e ↦
      let (d, s) = grown a b (ground arith) in
      rw d (
        unpack-cs a (b - a) b'>' ops bank refl stops plain ha (omega arith)
        ∙ ap (λ n. ok (record { old_len = pos a; new_len = n; ops = ops; char_bank = bank })) s)
  | inr e ↦
      let (d, s) = shrunk a b (ground arith) in
      rw d (
        unpack-cs a (a - b) b'<' ops bank refl stops plain ha (omega arith)
        ∙ ap (λ n. ok (record { old_len = pos a; new_len = n; ops = ops; char_bank = bank })) s)
]

star_all-NoDollar : (gs : List Text) → AllGroups gs → NoDollar (star_all gs)
star_all-NoDollar [] h = tt
star_all-NoDollar (d ∷ gs) (a, n, h) =
    (refl, NoDollar-append d (star_all gs) (AllNum-NoDollar d a) (star_all-NoDollar gs h))

lines_text-NoDollar : (n : ℕ) → NoDollar (lines_text (pos n))
lines_text-NoDollar n = elim (Bool-cases (eqb_ℤ (pos n) (pos 0))) [
  | inl e ↦ rw e tt
  | inr e ↦ rw e (refl, AllNum-NoDollar (num_to_string (pos n)) (num_to_string-AllNum n))
]

code_text-NoDollar : (k : OpCode) → NoDollar (code_text k)
code_text-NoDollar blank = tt
code_text-NoDollar plus = (refl, tt)
code_text-NoDollar minus = (refl, tt)
code_text-NoDollar keep = (refl, tt)

op_to_string-NoDollar : (op : Op) → IsWire op → NoDollar (op_to_string op)
unfolding op_to_string
op_to_string-NoDollar op w =
    let (n, hl, hn) = w.lines_fit in
    let (gs, hg, ha) = w.attribs_form in
    NoDollar-append op.attribs _ (rw ha (star_all-NoDollar gs hg)) (
      NoDollar-append (lines_text op.lines) _ (rw hl (lines_text-NoDollar n)) (
        NoDollar-append (code_text op.opcode) _ (code_text-NoDollar op.opcode)
          (AllNum-NoDollar (num_to_string (pos op.chars)) (num_to_string-AllNum op.chars))))

pub serialize-NoDollar : (ops : List Op) → AllWire ops → NoDollar (serialize ops)
serialize-NoDollar [] h = tt
serialize-NoDollar (op ∷ ops) (w, h) =
    NoDollar-append (op_to_string op) (serialize ops) (op_to_string-NoDollar op w)
      (serialize-NoDollar ops h)
