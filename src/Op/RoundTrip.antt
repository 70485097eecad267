-- ===== src/Op/RoundTrip.antt =====
-- `DeserializeOps` reads back a sequence of ops that `Op.String` wrote.
use mathlib.Core.Logic.{◌≢◌}
use etherpad_go.Prelude.{
  ℕ, zero, suc, ◌≤◌, ◌<◌, pos, pos_part, false, ◌≡◌, refl, ◌∙◌, some, List, [], ◌∷◌, ◌++◌,
  append_assoc, Text, length, length-append, arith, ◌==◌,
}
use etherpad_go.Num.{
  num_to_string, is_num_char, parse_num, num_or_zero, digits_value, digit_value, int_limit,
}
use etherpad_go.Num.RoundTrip.{AllNum, parse_num-pos, num_to_string-AllNum, num_to_string-ne-nil}
use etherpad_go.Result.{ok, ◌>>=◌}
use etherpad_go.Op.{
  OpCode, Op, blank, plus, minus, keep, is_blank, op_to_string, span_num, attribs_group,
  lines_group, sign_group, build_op, match_op, deserialize_from, deserialize_ops, lines_text,
  code_text, lines_or_0, bar_group,
}

-- The text does not go on with a digit.
abbrev pub Stops : Text → Type 0
Stops [] = Unit
Stops (c ∷ s) = is_num_char c ≡ false

pub span_num-append : (d rest : Text) → AllNum d → Stops rest → span_num (d ++ rest) ≡ (d, rest)
unfolding span_num
span_num-append [] [] hd hr = refl
span_num-append [] (c ∷ rest) hd hr = rw hr
span_num-append (c ∷ d) rest (hc, hd) hr = rw (span_num-append d rest hd hr, hc)

-- An attribute text `*a*b…` with its numbers.
abbrev pub star_all : List Text → Text
star_all [] = []
star_all (d ∷ ds) = b'*' ∷ (d ++ star_all ds)

abbrev pub AllGroups : List Text → Type 0
AllGroups [] = Unit
AllGroups (d ∷ ds) = AllNum d × (d ≢ []) × AllGroups ds

-- The text goes on with what follows the attributes of an op.
abbrev AfterAttribs : Text → Type 0
AfterAttribs [] = Unit
AfterAttribs (c ∷ s) = (is_num_char c ≡ false) × ((c == b'*') ≡ false)

AfterAttribs-Stops : (s : Text) → AfterAttribs s → Stops s
AfterAttribs-Stops [] h = tt
AfterAttribs-Stops (c ∷ s) h = h.0

star_all-Stops : (gs : List Text) (rest : Text) → AfterAttribs rest → Stops (star_all gs ++ rest)
unfolding is_num_char
star_all-Stops [] rest h = AfterAttribs-Stops rest h
star_all-Stops (d ∷ ds) rest h = refl

attribs_group-star_all :
    (f : ℕ) (gs : List Text) (rest : Text)
    → length gs ≤ f
    → AllGroups gs
    → AfterAttribs rest
    → attribs_group f (star_all gs ++ rest) ≡ (star_all gs, rest)
unfolding attribs_group
attribs_group-star_all zero [] rest hf hg hr = refl
attribs_group-star_all (suc f) [] [] hf hg hr = refl
attribs_group-star_all (suc f) [] (c ∷ rest) hf hg hr = rw (attribs_group, hr.1)
attribs_group-star_all zero (d ∷ ds) rest hf hg hr = absurd (omega arith)
attribs_group-star_all (suc f) ([] ∷ ds) rest hf (hd, ne, hg) hr = absurd (ne refl)
attribs_group-star_all (suc f) ((x ∷ d) ∷ ds) rest hf (hd, ne, hg) hr = rw (
  append_assoc d (star_all ds) rest,
  span_num-append (x ∷ d) (star_all ds ++ rest) hd (star_all-Stops ds rest hr),
  attribs_group-star_all f ds rest (omega arith) hg hr,
)

length-star_all : (gs : List Text) → length gs ≤ length (star_all gs)
length-star_all [] = omega arith
length-star_all (d ∷ ds) = omega (arith, length-star_all ds, length-append d (star_all ds))

-- An op as the wire format can carry it: an opcode, numbers that an `int` holds, and attributes
-- `*a*b…`.
pub record IsWire (op : Op) : Type 0 where
  pub has_code : is_blank op.opcode ≡ false
  pub chars_fit : op.chars < int_limit
  pub lines_fit : (n : ℕ) × (op.lines ≡ pos n) × (n < int_limit)
  pub attribs_form : (gs : List Text) × AllGroups gs × (op.attribs ≡ star_all gs)

pub num_or_zero-num_to_string :
    (n : ℕ) → n < int_limit → num_or_zero (num_to_string (pos n)) ≡ pos n
unfolding num_or_zero
num_or_zero-num_to_string n h = rw (num_or_zero, parse_num-pos n h)

abbrev tail_text : OpCode → ℕ → Text → Text
tail_text code n rest = code_text code ++ (num_to_string (pos n) ++ rest)

tail_text-AfterAttribs :
    (code : OpCode) (n : ℕ) (rest : Text)
    → is_blank code ≡ false
    → AfterAttribs (tail_text code n rest)
unfolding is_num_char
tail_text-AfterAttribs blank n rest h = cc
tail_text-AfterAttribs plus n rest h = (refl, refl)
tail_text-AfterAttribs minus n rest h = (refl, refl)
tail_text-AfterAttribs keep n rest h = (refl, refl)

sign_group-code_text :
    (code : OpCode) (s : Text)
    → is_blank code ≡ false
    → sign_group (code_text code ++ s) ≡ some (code, s)
unfolding sign_group
sign_group-code_text blank s h = cc
sign_group-code_text plus s h = refl
sign_group-code_text minus s h = refl
sign_group-code_text keep s h = refl

bar_group-ne-nil : (s d r : Text) → d ≢ [] → bar_group s (d, r) ≡ (d, r)
bar_group-ne-nil s [] r h = absurd (h refl)
bar_group-ne-nil s (x ∷ d) r h = refl

lines_or_0-ne-nil : (d : Text) → d ≢ [] → lines_or_0 d ≡ d
lines_or_0-ne-nil [] h = absurd (h refl)
lines_or_0-ne-nil (x ∷ d) h = refl

build_op-ne-nil :
    (ats ls d r : Text) (code : OpCode)
    → d ≢ []
    → build_op ats ls code (d, r)
      ≡ some (
        record {
          opcode = code;
          chars = pos_part (num_or_zero d);
          lines = num_or_zero (lines_or_0 ls);
          attribs = ats;
        },
        r,
      )
build_op-ne-nil ats ls [] r code h = absurd (h refl)
build_op-ne-nil ats ls (x ∷ d) r code h = refl

-- No bar before a sign.
lines_group-tail_text :
    (code : OpCode) (n : ℕ) (rest : Text)
    → is_blank code ≡ false
    → lines_group (tail_text code n rest) ≡ ([], tail_text code n rest)
unfolding lines_group
lines_group-tail_text blank n rest h = cc
lines_group-tail_text plus n rest h = refl
lines_group-tail_text minus n rest h = refl
lines_group-tail_text keep n rest h = refl

-- The text of a line count as the lines group reads it: nothing for 0.
abbrev lines_digits : ℕ → Text
lines_digits zero = []
lines_digits (suc n) = num_to_string (pos (suc n))

num_or_zero-lines_digits :
    (n : ℕ) → n < int_limit → num_or_zero (lines_or_0 (lines_digits n)) ≡ pos n
num_or_zero-lines_digits zero h = unfold num_or_zero parse_num digits_value digit_value in refl
num_or_zero-lines_digits (suc n) h =
    rw (lines_or_0-ne-nil (num_to_string (pos (suc n))) (num_to_string-ne-nil (suc n)))
      (num_or_zero-num_to_string (suc n) h)

lines_text-suc : (n : ℕ) → lines_text (pos (suc n)) ≡ b'|' ∷ num_to_string (pos (suc n))
lines_text-suc n = ground arith

bar_then_number :
    (n : ℕ) (rest : Text)
    → Stops rest
    → lines_group (b'|' ∷ (num_to_string (pos n) ++ rest)) ≡ (num_to_string (pos n), rest)
unfolding lines_group
bar_then_number n rest h =
    rw (span_num-append (num_to_string (pos n)) rest (num_to_string-AllNum n) h)
      (bar_group-ne-nil _ (num_to_string (pos n)) rest (num_to_string-ne-nil n))

lines_group-lines_text :
    (n m : ℕ) (code : OpCode) (rest : Text)
    → is_blank code ≡ false
    → lines_group (lines_text (pos n) ++ tail_text code m rest)
      ≡ (lines_digits n, tail_text code m rest)
lines_group-lines_text zero m code rest h = lines_group-tail_text code m rest h
lines_group-lines_text (suc n) m code rest h = rw (lines_text-suc n) (
    bar_then_number (suc n) (tail_text code m rest)
      (AfterAttribs-Stops _ (tail_text-AfterAttribs code m rest h)))

lines_text-AfterAttribs :
    (n m : ℕ) (code : OpCode) (rest : Text)
    → is_blank code ≡ false
    → AfterAttribs (lines_text (pos n) ++ tail_text code m rest)
lines_text-AfterAttribs zero m code rest h = tail_text-AfterAttribs code m rest h
lines_text-AfterAttribs (suc n) m code rest h =
    rw (lines_text-suc n) (unfold is_num_char in (refl, refl))

match_op_parts :
    (gs : List Text) (n m : ℕ) (code : OpCode) (rest : Text)
    → AllGroups gs
    → n < int_limit
    → m < int_limit
    → is_blank code ≡ false
    → Stops rest
    → match_op (star_all gs ++ (lines_text (pos n) ++ tail_text code m rest))
      ≡ some (record { opcode = code; chars = m; lines = pos n; attribs = star_all gs }, rest)
unfolding match_op
match_op_parts gs n m code rest hg hn hm hc hr =
    let more = lines_text (pos n) ++ tail_text code m rest in
    let fuel : length gs ≤ length (star_all gs ++ more) =
      omega (arith, length-star_all gs, length-append (star_all gs) more) in
    rw (
      attribs_group-star_all (length (star_all gs ++ more)) gs more fuel hg
          (lines_text-AfterAttribs n m code rest hc),
      lines_group-lines_text n m code rest hc,
      sign_group-code_text code (num_to_string (pos m) ++ rest) hc,
      span_num-append (num_to_string (pos m)) rest (num_to_string-AllNum m) hr,
      build_op-ne-nil (star_all gs) (lines_digits n) (num_to_string (pos m)) rest code
          (num_to_string-ne-nil m),
      num_or_zero-num_to_string m hm,
      num_or_zero-lines_digits n hn,
    )

-- The text of one op, and of a list of ops as `OpAssembler` collects it.
op_text_parts :
    (op : Op) (rest : Text)
    → op_to_string op ++ rest
      ≡ op.attribs ++ (lines_text op.lines ++ tail_text op.opcode op.chars rest)
unfolding op_to_string
op_text_parts op rest = simp append_assoc

match_op-op_to_string :
    (op : Op) (rest : Text)
    → IsWire op
    → Stops rest
    → match_op (op_to_string op ++ rest) ≡ some (op, rest)
match_op-op_to_string op rest w hr =
    let (n, hl, hn) = w.lines_fit in
    let (gs, hg, ha) = w.attribs_form in
    rw (op_text_parts op rest, ha, hl)
      (match_op_parts gs n op.chars op.opcode rest hg hn w.chars_fit w.has_code hr)

abbrev pub serialize : List Op → Text
serialize [] = []
serialize (op ∷ ops) = op_to_string op ++ serialize ops

abbrev pub AllWire : List Op → Type 0
AllWire [] = Unit
AllWire (op ∷ ops) = IsWire op × AllWire ops

pub serialize-Stops : (ops : List Op) → AllWire ops → Stops (serialize ops)
serialize-Stops [] h = tt
serialize-Stops (op ∷ ops) (w, h) =
    let (n, hl, hn) = w.lines_fit in
    let (gs, hg, ha) = w.attribs_form in
    rw (op_text_parts op (serialize ops), ha, hl)
      (star_all-Stops gs _
        (lines_text-AfterAttribs n op.chars op.opcode (serialize ops) w.has_code))

pub serialize-append : (xs ys : List Op) → serialize (xs ++ ys) ≡ serialize xs ++ serialize ys
serialize-append [] ys = refl
serialize-append (x ∷ xs) ys = simp (serialize-append xs ys, append_assoc)

code_text-length : (code : OpCode) → is_blank code ≡ false → 1 ≤ length (code_text code)
code_text-length blank h = cc
code_text-length plus h = omega arith
code_text-length minus h = omega arith
code_text-length keep h = omega arith

length-op_to_string : (op : Op) → is_blank op.opcode ≡ false → 1 ≤ length (op_to_string op)
unfolding op_to_string
length-op_to_string op h =
    let back = code_text op.opcode ++ num_to_string (pos op.chars) in
    omega (
      arith,
      code_text-length op.opcode h,
      length-append op.attribs (lines_text op.lines ++ back),
      length-append (lines_text op.lines) back,
      length-append (code_text op.opcode) (num_to_string (pos op.chars)),
    )

length-serialize : (ops : List Op) → AllWire ops → length ops ≤ length (serialize ops)
length-serialize [] h = omega arith
length-serialize (op ∷ ops) (w, h) = omega (
  arith,
  length-append (op_to_string op) (serialize ops),
  length-op_to_string op w.has_code,
  length-serialize ops h,
)

deserialize_from-match :
    (f : ℕ) (s : Text) (op : Op) (rest : Text)
    → match_op s ≡ some (op, rest)
    → deserialize_from (suc f) s ≡ (deserialize_from f rest >>= λ ops. ok (op ∷ ops))
unfolding deserialize_from
deserialize_from-match f [] op rest e = unfold match_op attribs_group lines_group sign_group in cc e
deserialize_from-match f (c ∷ s) op rest e = rw (deserialize_from, e)

deserialize_from-serialize :
    (f : ℕ) (ops : List Op)
    → length ops ≤ f
    → AllWire ops
    → deserialize_from f (serialize ops) ≡ ok ops
deserialize_from-serialize f [] hf h = unfold deserialize_from in refl
deserialize_from-serialize zero (op ∷ ops) hf h = absurd (omega arith)
deserialize_from-serialize (suc f) (op ∷ ops) hf (w, h) =
    deserialize_from-match f _ op (serialize ops)
      (match_op-op_to_string op (serialize ops) w (serialize-Stops ops h))
    ∙ rw (deserialize_from-serialize f ops (omega arith) h)

-- Reading the concatenated texts of ops that the wire format can carry returns these ops: the
-- reader neither loses, merges nor alters one, and does not fail.
pub deserialize_ops-serialize :
    (ops : List Op) → AllWire ops → deserialize_ops (serialize ops) ≡ ok ops
unfolding deserialize_ops
deserialize_ops-serialize ops h =
    deserialize_from-serialize (length (serialize ops)) ops (length-serialize ops h) h
