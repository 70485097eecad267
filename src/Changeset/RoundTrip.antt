-- ===== src/Changeset/RoundTrip.antt =====
-- What `Unpack` does with a text that has no header.
use etherpad_go.Prelude.{
  ℕ, ◌≡◌, refl, Option, some, [], ◌∷◌, Text, Bool, true, false, ◌==◌, ◌||◌, if◌then◌else◌,
}
use etherpad_go.Op.{span_num}
use etherpad_go.Result.{ok}
use etherpad_go.Changeset.{
  Changeset, Headers, header_regex, unpack, unpack_at, empty_match, with_change, with_sign,
  with_old_len, after_z,
}

abbrev IsSome : Option Headers → Type 0
IsSome o = (h : Headers) × (o ≡ some h)

with_change-IsSome : (d : Text) (c : ℕ) (p : Text × Text) → IsSome (with_change d c p)
with_change-IsSome d c ([], r) = (empty_match, refl)
with_change-IsSome d c (x ∷ e, r) = (_, refl)

IsSome-if : (b : Bool) (x y : Option Headers) → IsSome x → IsSome y → IsSome (if b then x else y)
IsSome-if true x y hx hy = hx
IsSome-if false x y hx hy = hy

with_sign-IsSome : (d s : Text) → IsSome (with_sign d s)
with_sign-IsSome d [] = (empty_match, refl)
with_sign-IsSome d (c ∷ s) =
    IsSome-if (c == b'>' || c == b'<') _ _ (with_change-IsSome d c (span_num s)) (empty_match, refl)

with_old_len-IsSome : (p : Text × Text) → IsSome (with_old_len p)
with_old_len-IsSome ([], s) = (empty_match, refl)
with_old_len-IsSome (x ∷ d, s) = with_sign-IsSome (x ∷ d) s

after_z-IsSome : (s : Text) → IsSome (after_z s)
after_z-IsSome [] = (empty_match, refl)
after_z-IsSome (c ∷ s) =
    IsSome-if (c == b':') _ _ (with_old_len-IsSome (span_num s)) (empty_match, refl)

header_regex-IsSome : (cs : Text) → IsSome (header_regex cs)
unfolding header_regex
header_regex-IsSome [] = (empty_match, refl)
header_regex-IsSome (c ∷ s) = IsSome-if (c == b'Z') _ _ (after_z-IsSome s) (empty_match, refl)

-- `Unpack` accepts every text: it has no error for a missing header.
pub unpack_accepts_all : (cs : Text) → (u : Changeset) × (unpack cs ≡ ok u)
unfolding unpack
unpack_accepts_all cs = let (h, e) = header_regex-IsSome cs in (unpack_at cs h, rw (unpack, e))
