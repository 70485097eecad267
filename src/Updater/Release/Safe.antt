-- ===== src/Updater/Release/Safe.antt =====
-- What a tag that lib/updater/refsafety.go lets pass cannot hold.
use etherpad_go.Prelude.{
  ℕ, ◌≤◌, ◌<◌, Bool, true, false, ◌||◌, Option, none, some, [], ◌∷◌, ◌++◌, Text, codes, length, ◌≡◌,
  ◌≢◌, refl, sym, ap, ◌∙◌, subst, arith,
}
use etherpad_go.Updater.Types.{ReleaseInfo}
use etherpad_go.Strings.{starts_with, contains}
use etherpad_go.Updater.Release.{
  is_tag_char, all_tag_chars, is_valid_tag, GhRelease, to_release_info, check_updated, Response,
  checked_release, check_latest,
}

-- No blank, control character or DEL, and none of the characters with a meaning in git or in a path.
abbrev pub SafeChar : ℕ → Type 0
SafeChar c =
    (32 < c)
    × (c ≢ 127)
    × (c ≢ b'~')
    × (c ≢ b'^')
    × (c ≢ b':')
    × (c ≢ b'?')
    × (c ≢ b'*')
    × (c ≢ b'[')
    × (c ≢ b'\x5c')
    × (c ≢ b'/')

pub record Safe (tag : Text) : Type 0 where
  pub some_char : 0 < length tag
  pub short : length tag ≤ 200
  pub first : (a : Text) (c : ℕ) → tag ≡ c ∷ a → (c ≢ b'-') × (c ≢ b'.')
  pub chars : (a b : Text) (c : ℕ) → tag ≡ a ++ c ∷ b → SafeChar c
  pub no_parent : (a b : Text) → tag ≢ a ++ b'.' ∷ b'.' ∷ b

nil-differs : (a b : Text) (c : ℕ) → a ++ c ∷ b ≢ []
nil-differs [] b c e = cc
nil-differs (x ∷ a) b c e = cc

chars_at : (a b tag : Text) (c : ℕ) → all_tag_chars tag ≡ true → tag ≡ a ++ c ∷ b → SafeChar c
unfolding all_tag_chars is_tag_char
chars_at a b [] c h e = absurd (nil-differs a b c (sym e))
chars_at [] b (x ∷ tag) c h e = let same : x ≡ c = cc in subst SafeChar same (ground arith)
chars_at (y ∷ a) b (x ∷ tag) c h e = chars_at a b tag c (ground arith) cc

or_true : (b : Bool) → (b || true) ≡ true
or_true true = refl
or_true false = refl

dots-found : (a b : Text) → contains (codes "..") (a ++ b'.' ∷ b'.' ∷ b) ≡ true
unfolding contains starts_with
dots-found [] b = refl
dots-found (x ∷ a) b = rw (dots-found a b) (or_true _)

first_at : (tag a : Text) (c : ℕ) → is_valid_tag tag ≡ true → tag ≡ c ∷ a → (c ≢ b'-') × (c ≢ b'.')
unfolding is_valid_tag starts_with
first_at [] a c h e = cc
first_at (x ∷ tag) a c h e =
    let same : x ≡ c = cc in subst (λ y. (y ≢ b'-') × (y ≢ b'.')) same (ground arith)

no_dots : (tag : Text) → is_valid_tag tag ≡ true → contains (codes "..") tag ≡ false
unfolding is_valid_tag
no_dots tag h = ground arith

-- A tag that `IsValidTag` accepts has between 1 and 200 bytes, does not begin with `-` or `.`, holds no
-- `..`, and none of its bytes is a control character, a blank, DEL, or one of `~^:?*[\/`.
pub is_valid_tag-Safe : (tag : Text) → is_valid_tag tag ≡ true → Safe tag
unfolding is_valid_tag
is_valid_tag-Safe tag h = record {
  some_char = ground arith;
  short = ground arith;
  first = (λ a c e. first_at tag a c h e);
  chars = (λ a b c e. chars_at a b tag c (ground arith) e);
  no_parent = (λ a b e.
      let found = ap (λ t. contains (codes "..") t) e ∙ dots-found a b in
      let none_found = no_dots tag h in cc);
}

from-release :
    (r : Response) (info : ReleaseInfo) (etag : Text)
    → check_latest (some r) ≡ check_updated info etag
    → (r.status_code ≡ 200) × (checked_release r.etag r.release ≡ check_updated info etag)
unfolding check_latest
from-release r info etag h = (ground arith, ground arith)

checked-valid :
    (etag : Text) (g : GhRelease) (info : ReleaseInfo) (etag' : Text)
    → checked_release etag (some g) ≡ check_updated info etag'
    → (is_valid_tag g.tag_name ≡ true)
      × (to_release_info g ≡ info)
      × (g.prerelease ≡ false)
      × (g.draft ≡ false)
checked-valid etag g info etag' h = (ground arith, ground arith, ground arith, ground arith)

-- The release of the answer that an update comes from.
pub record Released (r : Response) (info : ReleaseInfo) : Type 0 where
  pub found : r.status_code ≡ 200
  pub release : GhRelease
  pub answered : r.release ≡ some release
  pub reported : to_release_info release ≡ info
  pub no_prerelease : release.prerelease ≡ false
  pub no_draft : release.draft ≡ false
  pub safe : Safe release.tag_name

-- What `CheckLatest` reports as an update is the release of an answer with the status 200, which is
-- neither a draft nor a prerelease, and whose tag is safe.
pub check_latest-Safe :
    (r : Response) (info : ReleaseInfo) (etag : Text)
    → check_latest (some r) ≡ check_updated info etag
    → Released r info
unfolding check_latest
check_latest-Safe r info etag h = at r.release refl (from-release r info etag h).1
  where
    at :
        (o : Option GhRelease)
        → r.release ≡ o
        → checked_release r.etag o ≡ check_updated info etag
        → Released r info
    at none is e = cc
    at (some g) is e =
        let (valid, same, final, public) = checked-valid r.etag g info etag e in
        record {
          found = (from-release r info etag h).0;
          release = g;
          answered = is;
          reported = same;
          no_prerelease = final;
          no_draft = public;
          safe = is_valid_tag-Safe g.tag_name valid;
        }
