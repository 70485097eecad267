-- ===== src/Examples/Composed.antt =====
-- Changesets made of the text "ab": "x" is inserted before it, and then the "a" is deleted.
use etherpad_go.Prelude.{
  count_lines, pos, ◌<◌, Option, none, some, [], ◌∷◌, ◌++◌, Text, codes, ◌≡◌, refl, arith,
}
use etherpad_go.Result.{ok}
use etherpad_go.Op
use etherpad_go.Num
use etherpad_go.StringIterator
use etherpad_go.Apply.{apply_unpacked, apply_ops}
use etherpad_go.Op.{Op}
use etherpad_go.Assembler.Smart.Normal.{IsAttribs}
use etherpad_go.Pool.{APool, new_apool}
use etherpad_go.Changeset.{unpack, header_regex, rune_index, pack, rune_slice}
use etherpad_go.Changeset.Packed.{unpack-pack}
use etherpad_go.Splice.{make_splice}
use etherpad_go.Compose.{compose}
use etherpad_go.Takes.{Takes, compose-Takes, make_splice-Takes}

insert_x : Takes (codes "Z:2>1+1$x") (codes "ab") (codes "xab")
unfolding unpack header_regex Op.span_num Num.is_num_char Num.num_or_zero rune_index Num.parse_num
    Num.digits_value Num.digit_value apply_unpacked Op.deserialize_ops Op.deserialize_from
    Op.match_op Op.sign_group Op.lines_group Op.attribs_group apply_ops StringIterator.iter_peek
    StringIterator.iter_skip StringIterator.iter_take count_lines
insert_x = record {
  parts = record { old_len = pos 2; new_len = pos 3; ops = codes "+1"; char_bank = codes "x" };
  unpacked = refl;
  says = refl;
  applied = refl;
}

delete_a : Takes (codes "Z:3<1=1-1$") (codes "xab") (codes "xb")
unfolding unpack header_regex Op.span_num Num.is_num_char Num.num_or_zero rune_index Num.parse_num
    Num.digits_value Num.digit_value apply_unpacked Op.deserialize_ops Op.deserialize_from
    Op.match_op Op.sign_group Op.lines_group Op.attribs_group apply_ops StringIterator.iter_peek
    StringIterator.iter_skip StringIterator.iter_take count_lines
delete_a = record {
  parts = record { old_len = pos 3; new_len = pos 2; ops = codes "=1-1"; char_bank = [] };
  unpacked = refl;
  says = refl;
  applied = refl;
}

-- The lengths fit.
small : (2 < Num.int_limit) × (5 < Num.int_limit) × (3 < Num.int_limit)
small = (omega arith, omega arith, omega arith)

compose-Takes_example :
    (cs : Text) × (pool : Option APool) × (compose
        (codes "Z:2>1+1$x")
        (codes "Z:3<1=1-1$")
        (some new_apool)
      ≡ ok (cs, pool))
    × Takes cs (codes "ab") (codes "xb")
compose-Takes_example =
    compose-Takes (codes "Z:2>1+1$x") (codes "Z:3<1=1-1$") new_apool (codes "ab") (codes "xab")
      (codes "xb") insert_x delete_a small.0 small.0

attrib_0 : IsAttribs (codes "*0")
unfolding Num.is_num_char
attrib_0 = (codes "0" ∷ [], ((refl, tt), (λ (e : codes "0" ≡ []). cc), tt), refl)

make_splice-Takes_example :
    (cs : Text) × (make_splice (codes "ab") (pos 1) (pos 1) (codes "xyz") (some (codes "*0")) none
      ≡ ok (cs, none))
    × Takes cs (codes "ab") (rune_slice (codes "ab") 0 1 ++ codes "xyz")
make_splice-Takes_example =
    make_splice-Takes (codes "ab") 1 1 (codes "xyz") (codes "*0") none (omega arith) attrib_0
      small.1

unpack-pack_example :
    unpack (pack (pos 2) (pos 3) (codes "+1") (codes "x"))
    ≡ ok (record { old_len = pos 2; new_len = pos 3; ops = codes "+1"; char_bank = codes "x" })
unfolding Num.is_num_char
unpack-pack_example =
    unpack-pack 2 3 (codes "+1") (codes "x") small.0 small.2 refl (refl, (refl, tt))
