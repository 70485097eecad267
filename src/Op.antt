-- ===== src/Op.antt =====
-- lib/changeset/Op.go and `DeserializeOps` of changeset.go: one operation of a changeset, its text,
-- and the reader of a text of operations.
pub mod RoundTrip
pub mod Total
pub mod Parsed
use etherpad_go.Prelude.{
  ℕ, zero, suc, ℤ, pos, pos_part, eqb_ℤ, Bool, true, false, ◌&&◌, ◌||◌, Option, none, some, List,
  [], ◌∷◌, ◌++◌, Text, if◌then◌else◌, ◌==◌, length, newline,
}
use etherpad_go.Num.{num_to_string, is_num_char, num_or_zero}
use etherpad_go.Result.{Result, ok, err, stuck, invalid_op_string, ◌>>=◌}

-- `blank` is the opcode "" of an op that does nothing.
pub data OpCode : Type 0 where
  blank plus minus keep : OpCode

pub record Op : Type 0 where
  pub opcode : OpCode
  pub chars : ℕ
  pub lines : ℤ
  pub attribs : Text

unfoldable pub code_eq : OpCode → OpCode → Bool
code_eq blank blank = true
code_eq plus plus = true
code_eq minus minus = true
code_eq keep keep = true
code_eq _ _ = false

abbrev pub is_blank : OpCode → Bool
is_blank blank = true
is_blank plus = false
is_blank minus = false
is_blank keep = false

abbrev pub new_op : OpCode → Op
new_op c = record { opcode = c; chars = 0; lines = pos 0; attribs = [] }

abbrev pub code_text : OpCode → Text
code_text blank = []
code_text plus = b'+' ∷ []
code_text minus = b'-' ∷ []
code_text keep = b'=' ∷ []

abbrev pub lines_text : ℤ → Text
lines_text l = if eqb_ℤ l (pos 0) then [] else b'|' ∷ num_to_string l

-- `op.String()`.
unfoldable pub op_to_string : Op → Text
op_to_string op =
    op.attribs ++ (lines_text op.lines ++ (code_text op.opcode ++ num_to_string (pos op.chars)))

-- The longest prefix in [0-9a-z], and the rest.
unfoldable pub span_num : Text → Text × Text
span_num [] = ([], [])
span_num (c ∷ s) =
    let (ds, rest) = span_num s in if is_num_char c then (c ∷ ds, rest) else ([], c ∷ s)

-- What follows a '*': the group is taken if it has a digit.
abbrev pub star_group : (Text → Text × Text) → Text → Text × Text → Text × Text
star_group more s ([], rest) = ([], s)
star_group more s (d ∷ ds, rest) = let (ats, r) = more rest in (b'*' ∷ (d ∷ ds ++ ats), r)

-- `(?:\*[0-9a-z]+)*`; a group takes a character at least, so the length is fuel enough.
unfoldable pub attribs_group : ℕ → Text → Text × Text
attribs_group zero s = ([], s)
attribs_group (suc f) [] = ([], [])
attribs_group (suc f) (c ∷ s) = elim (c == b'*') [
  | true ↦ star_group (attribs_group f) (c ∷ s) (span_num s)
  | false ↦ ([], c ∷ s)
]

abbrev pub bar_group : Text → Text × Text → Text × Text
bar_group s ([], rest) = ([], s)
bar_group s (d ∷ ds, rest) = (d ∷ ds, rest)

-- `(?:\|([0-9a-z]+))?`
unfoldable pub lines_group : Text → Text × Text
lines_group [] = ([], [])
lines_group (c ∷ s) = if c == b'|' then bar_group (c ∷ s) (span_num s) else ([], c ∷ s)

-- `[-+=]`
unfoldable pub sign_group : Text → Option (OpCode × Text)
sign_group [] = none
sign_group (c ∷ s) =
    if c == b'-'
    then some (minus, s)
    else if c == b'+'
    then some (plus, s)
    else if c == b'='
    then some (keep, s)
    else none

-- `if match[2] != "" { lines = match[2] } else { lines = "0" }`
abbrev pub lines_or_0 : Text → Text
lines_or_0 [] = b'0' ∷ []
lines_or_0 (d ∷ ds) = d ∷ ds

abbrev pub build_op : Text → Text → OpCode → Text × Text → Option (Op × Text)
build_op ats ls code ([], rest) = none
build_op ats ls code (d ∷ ds, rest) = some (
  record {
    opcode = code;
    chars = pos_part (num_or_zero (d ∷ ds));
    lines = num_or_zero (lines_or_0 ls);
    attribs = ats;
  },
  rest,
)

abbrev pub after_sign : Text → Text → Option (OpCode × Text) → Option (Op × Text)
after_sign ats ls none = none
after_sign ats ls (some (code, r)) = build_op ats ls code (span_num r)

abbrev pub after_lines : Text → Text × Text → Option (Op × Text)
after_lines ats (ls, r) = after_sign ats ls (sign_group r)

abbrev pub after_attribs : Text × Text → Option (Op × Text)
after_attribs (ats, r) = after_lines ats (lines_group r)

-- The first alternative of the regular expression, at the start of the text.
unfoldable pub match_op : Text → Option (Op × Text)
match_op s = after_attribs (attribs_group (length s) s)

-- Where the first alternative does not match, `(.)` takes one character, which must be '$'; it does
-- not match a newline, which the search passes over.
unfoldable pub deserialize_from : ℕ → Text → Result (List Op)
deserialize_from f [] = ok []
deserialize_from zero (c ∷ s) = stuck
deserialize_from (suc f) (c ∷ s) = elim (match_op (c ∷ s)) [
  | some (op, rest) ↦ (deserialize_from f rest >>= λ ops. ok (op ∷ ops))
  | none ↦ elim (c == newline || c == b'$') [
    | true ↦ deserialize_from f s
    | false ↦ err invalid_op_string
  ]
]

-- Each match takes a character at least.
unfoldable pub deserialize_ops : Text → Result (List Op)
deserialize_ops s = deserialize_from (length s) s
