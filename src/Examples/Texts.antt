-- ===== src/Examples/Texts.antt =====
-- Texts and changesets: the theorems applied to three ops that replace "a" by "x".
use etherpad_go.Prelude.{
  ◌<◌, pos, negsuc, false, ◌≡◌, refl, some, List, [], ◌∷◌, codes, count_lines, arith,
}
use etherpad_go.Num.{int_limit, num_to_string, parse_num, is_num_char}
use etherpad_go.Num.RoundTrip.{parse_num-num_to_string}
use etherpad_go.Result.{ok, ◌>>=◌}
use etherpad_go.Op.{Op, plus, minus, keep, is_blank, deserialize_ops}
use etherpad_go.Op.RoundTrip.{IsWire, serialize, deserialize_ops-serialize}
use etherpad_go.Assembler.Smart.{new_smart, end_document, to_string}
use etherpad_go.Assembler.Smart.Normal.{IsAttribs, append_all, normal_form}
use etherpad_go.Apply.{apply_ops, apply_start, take_rest}
use etherpad_go.Apply.Runs.{Runs}
use etherpad_go.Apply.Meaning.{apply_sound, apply_complete}
use etherpad_go.Changeset.{Changeset, unpack}
use etherpad_go.Pool.{new_apool}
use etherpad_go.Compose.{ComposeState, compose_start}
use etherpad_go.Compose.Step.{mk, Stepped}
use etherpad_go.Compose.Step.Rounds.{compose_callback-Stepped}
use etherpad_go.Changeset.RoundTrip.{unpack_accepts_all}

parse_num-num_to_string_example : parse_num (num_to_string (negsuc 1294)) ≡ some (negsuc 1294)
parse_num-num_to_string_example = parse_num-num_to_string (negsuc 1294) (omega arith)

-- `-1`, `+1`, `=1` with the bank "x", from "ab" to "xb".
abbrev op_minus : Op
op_minus = record { opcode = minus; chars = 1; lines = pos 0; attribs = [] }

abbrev op_plus : Op
op_plus = record { opcode = plus; chars = 1; lines = pos 0; attribs = codes "*0" }

abbrev op_keep : Op
op_keep = record { opcode = keep; chars = 1; lines = pos 0; attribs = [] }

abbrev replace_a : List Op
replace_a = op_plus ∷ op_minus ∷ op_keep ∷ []

-- The attributes `*0`.
has_0 : IsAttribs (codes "*0")
unfolding is_num_char
has_0 = (codes "0" ∷ [], ((refl, tt), (λ (e : codes "0" ≡ []). cc), tt), refl)

-- An op without newlines.
IsWire-zero :
    (op : Op)
    → is_blank op.opcode ≡ false
    → op.chars < int_limit
    → op.lines ≡ pos 0
    → IsAttribs op.attribs
    → IsWire op
IsWire-zero op h c l a = record {
  has_code = h;
  chars_fit = c;
  lines_fit = (0, l, omega arith);
  attribs_form = a;
}

deserialize_ops-serialize_example : deserialize_ops (serialize replace_a) ≡ ok replace_a
deserialize_ops-serialize_example = deserialize_ops-serialize replace_a (
  (IsWire-zero op_plus refl (omega arith) refl has_0),
  (
    (IsWire-zero op_minus refl (omega arith) refl ([], tt, refl)),
    ((IsWire-zero op_keep refl (omega arith) refl ([], tt, refl)), tt),
  ),
)

replace_a-Runs : Runs replace_a (codes "x") (codes "ab") (codes "xb")
unfolding count_lines
replace_a-Runs = (
  codes "x",
  [],
  codes "b",
  (refl, refl),
  refl,
  refl,
  (codes "a", codes "b", (refl, refl), refl, (codes "b", [], [], (refl, refl), refl, refl, refl)),
)

apply_complete_example :
    (apply_ops replace_a (apply_start (codes "x") (codes "ab")) >>= take_rest) ≡ ok (codes "xb")
apply_complete_example =
    apply_complete replace_a (codes "x") (codes "ab") (codes "xb") replace_a-Runs

apply_sound_example : Runs replace_a (codes "x") (codes "ab") (codes "xb")
apply_sound_example =
    apply_sound replace_a (codes "x") (codes "ab") (codes "xb")
      (apply_complete replace_a (codes "x") (codes "ab") (codes "xb") replace_a-Runs)

normal_form_example :
    (ops' : List Op) × (deserialize_ops
        (to_string (end_document (append_all replace_a new_smart))).0
      ≡ ok ops')
    × Runs ops' (codes "x") (codes "ab") (codes "xb")
normal_form_example =
    normal_form replace_a (codes "x") (codes "ab") (codes "xb")
      ((refl, has_0), ((refl, ([], tt, refl)), ((refl, ([], tt, refl)), tt))) (omega arith)
      replace_a-Runs

unpack_accepts_all_example : (u : Changeset) × (unpack (codes "no header") ≡ ok u)
unpack_accepts_all_example = unpack_accepts_all (codes "no header")

-- `Compose` at its first round: "x" is inserted before "ab", and then kept.
abbrev first_round : ComposeState
first_round =
    compose_start
      (record { old_len = pos 2; new_len = pos 3; ops = codes "+1"; char_bank = codes "x" })
      (record { old_len = pos 3; new_len = pos 3; ops = codes "=1"; char_bank = [] })
      (some new_apool)

compose_callback-Stepped_example :
    Stepped
      (mk plus 1 (pos 0) [])
      (mk keep 1 (pos 0) [])
      first_round
      []
      []
      (codes "ab")
      (codes "xab")
unfolding count_lines
compose_callback-Stepped_example =
    compose_callback-Stepped 1 1 (pos 0) (pos 0) [] [] first_round [] [] (codes "x") [] (codes "ab")
      (codes "xab") (codes "xab")
      (record { first = refl; second = refl; pool = new_apool; has_pool = refl }) ([], tt, refl)
      ([], tt, refl) plus keep refl tt tt
      (codes "x", [], codes "ab", (refl, refl), refl, refl, refl)
      (codes "x", codes "ab", codes "ab", (refl, refl), refl, refl, refl)
