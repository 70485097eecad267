-- ===== src/Examples/Checked.antt =====
-- `CheckRep` and `ValidateWellFormed` on a changeset that inserts "a" into an empty text.
use etherpad_go.Prelude.{pos, [], List, ◌≡◌, refl, codes, count_lines}
use etherpad_go.Result.{ok}
use etherpad_go.Op
use etherpad_go.Num
use etherpad_go.Assembler.Smart
use etherpad_go.Assembler.Merging
use etherpad_go.Op.{Op, plus, deserialize_ops}
use etherpad_go.Changeset.{Changeset, unpack, header_regex, rune_index}
use etherpad_go.WellFormed.{validate_well_formed, validate_from}
use etherpad_go.WellFormed.Feeds.{Feeds, validate_well_formed-Feeds}
use etherpad_go.CheckRep.Canonical.{Canonical}

-- The parts of that changeset, and its one op.
abbrev insert_a : Changeset
insert_a = record { old_len = pos 0; new_len = pos 1; ops = codes "+1"; char_bank = codes "a" }

abbrev insert_op : Op
insert_op = record { opcode = plus; chars = 1; lines = pos 0; attribs = [] }

insert_a-validated : validate_well_formed (codes "Z:0>1+1$a") ≡ ok tt
unfolding validate_well_formed validate_from unpack header_regex Op.span_num Num.is_num_char
    Op.deserialize_ops Op.deserialize_from rune_index Op.match_op Op.sign_group Op.lines_group
    Op.attribs_group Num.num_or_zero Num.parse_num Num.digits_value Num.digit_value count_lines
insert_a-validated = refl

validate_well_formed-Feeds_example :
    (u : Changeset) × (ops : List Op) × (unpack (codes "Z:0>1+1$a") ≡ ok u)
    × (deserialize_ops u.ops ≡ ok ops)
    × Feeds ops u.char_bank
validate_well_formed-Feeds_example =
    validate_well_formed-Feeds (codes "Z:0>1+1$a") insert_a-validated
