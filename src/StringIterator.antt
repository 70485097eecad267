-- ===== src/StringIterator.antt =====
-- lib/changeset/StringIterator.go: a cursor over the runes of a text.
pub mod Rest
use etherpad_go.Prelude.{
  ℕ, ◌+◌, ◌-◌, ℤ, pos, ◌-ℤ◌, Text, length, take, drop, count_lines, if◌then◌else◌, ltb,
}
use etherpad_go.Result.{Result, ok, err, not_enough_chars, ◌>>◌}

pub record StringIterator : Type 0 where
  pub cur_index : ℕ
  pub new_lines : ℤ
  pub str : Text

abbrev pub new_iterator : Text → StringIterator
new_iterator s = record { cur_index = 0; new_lines = pos (count_lines s); str = s }

abbrev pub remaining : StringIterator → ℕ
remaining si = length si.str - si.cur_index

abbrev pub assert_remaining : ℕ → StringIterator → Result (Unit {0})
assert_remaining n si = if ltb (remaining si) n then err not_enough_chars else ok tt

-- `si.str[si.curIndex : si.curIndex+n]`
abbrev pub segment : ℕ → StringIterator → Text
segment n si = take n (drop si.cur_index si.str)

abbrev pub after_take : ℕ → StringIterator → StringIterator
after_take n si = record si {
  cur_index = si.cur_index + n;
  new_lines = si.new_lines -ℤ pos (count_lines (segment n si));
}

unfoldable pub iter_take : ℕ → StringIterator → Result (Text × StringIterator)
iter_take n si = do assert_remaining n si; ok (segment n si, after_take n si)

unfoldable pub iter_peek : ℕ → StringIterator → Result Text
iter_peek n si = do assert_remaining n si; ok (segment n si)

abbrev pub after_skip : ℕ → StringIterator → StringIterator
after_skip n si = record si { cur_index = si.cur_index + n }

-- `Skip` does not update `newLines`.
unfoldable pub iter_skip : ℕ → StringIterator → Result StringIterator
iter_skip n si = do assert_remaining n si; ok (after_skip n si)
