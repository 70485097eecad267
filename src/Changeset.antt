-- ===== src/Changeset.antt =====
-- The header of a changeset, in changeset.go: `Pack`, `Unpack`, `Identity`, with the rune functions
-- of lib/utils/runeUtils.go that they call.
pub mod RoundTrip
pub mod Packed
use etherpad_go.Prelude.{
  ℕ, suc, ◌+◌, ◌-◌, ℤ, pos, ◌+ℤ◌, ◌-ℤ◌, neg, leb_ℤ, Option, none, some, [], ◌∷◌, ◌++◌, Text,
  if◌then◌else◌, ◌==◌, ◌||◌, length, take, drop,
}
use etherpad_go.Num.{num_to_string, num_or_zero}
use etherpad_go.Result.{Result, ok, err, no_valid_header}
use etherpad_go.Op.{span_num}

pub record Changeset : Type 0 where
  pub old_len : ℤ
  pub new_len : ℤ
  pub ops : Text
  pub char_bank : Text

-- `RuneSlice(s, start, end)`: bounds past the end, or in the wrong order, are clamped.
abbrev pub rune_slice : Text → ℕ → ℕ → Text
rune_slice s start stop = take (stop - start) (drop start s)

-- `RuneIndex(s, c)` for a text `c` of one rune; `none` is -1.
unfoldable pub rune_index : ℕ → Text → Option ℕ
rune_index c [] = none
rune_index c (x ∷ s) =
    if x == c then some 0 else (elim (rune_index c s) [ none ↦ none | some n ↦ some (suc n) ])

abbrev pub len_diff_text : ℤ → Text
len_diff_text d = if leb_ℤ (pos 0) d then b'>' ∷ num_to_string d else b'<' ∷ num_to_string (neg d)

unfoldable pub pack : ℤ → ℤ → Text → Text → Text
pack old_len new_len op_str bank =
    b'Z'
    ∷ b':'
    ∷ (num_to_string old_len ++ (len_diff_text (new_len -ℤ old_len) ++ (op_str ++ (b'$' ∷ bank))))

abbrev pub identity : ℤ → Text
identity n = pack n n [] []

-- The groups of the header's regular expression: the whole match, and its three parts.
pub record Headers : Type 0 where
  pub whole : Text
  pub old_part : Text
  pub sign : Text
  pub change : Text

-- The last alternative of the regular expression is empty, so it matches every text.
abbrev pub empty_match : Headers
empty_match = record { whole = []; old_part = []; sign = []; change = [] }

abbrev pub with_change : Text → ℕ → Text × Text → Option Headers
with_change d c ([], r) = some empty_match
with_change d c (x ∷ e, r) = some (record {
  whole = b'Z' ∷ b':' ∷ (d ++ (c ∷ x ∷ e));
  old_part = d;
  sign = c ∷ [];
  change = x ∷ e;
})

abbrev pub with_sign : Text → Text → Option Headers
with_sign d [] = some empty_match
with_sign d (c ∷ s) =
    if c == b'>' || c == b'<' then with_change d c (span_num s) else some empty_match

abbrev pub with_old_len : Text × Text → Option Headers
with_old_len ([], s) = some empty_match
with_old_len (x ∷ d, s) = with_sign (x ∷ d) s

abbrev pub after_z : Text → Option Headers
after_z [] = some empty_match
after_z (c ∷ s) = if c == b':' then with_old_len (span_num s) else some empty_match

-- `FindStringSubmatch` of `Z:([0-9a-z]+)([><])([0-9a-z]+)|`; `none` would be no match.
unfoldable pub header_regex : Text → Option Headers
header_regex [] = some empty_match
header_regex (c ∷ s) = if c == b'Z' then after_z s else some empty_match

abbrev pub change_sign : Text → ℤ → ℤ
change_sign [] n = neg n
change_sign (c ∷ s) n = if c == b'>' then n else neg n

abbrev pub index_or : ℕ → Option ℕ → ℕ
index_or n none = n
index_or n (some i) = i

abbrev pub unpack_at : Text → Headers → Changeset
unpack_at cs h =
    let old_len = num_or_zero h.old_part in
    let ops_start = length h.whole in
    let ops_end = index_or (length cs) (rune_index b'$' cs) in
    record {
      old_len = old_len;
      new_len = old_len +ℤ change_sign h.sign (num_or_zero h.change);
      ops = rune_slice cs ops_start ops_end;
      char_bank = rune_slice cs (ops_end + 1) (length cs);
    }

unfoldable pub unpack : Text → Result Changeset
unpack cs = elim (header_regex cs) [ none ↦ err no_valid_header | some h ↦ ok (unpack_at cs h) ]
