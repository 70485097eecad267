-- ===== src/Updater/Release.antt =====
-- lib/updater/refsafety.go and versionchecker.go: the tags and the latest release.
pub mod Safe
use etherpad_go.Prelude.{
  ℕ, Bool, true, false, not, ◌&&◌, ◌||◌, Option, none, some, [], ◌∷◌, Text, codes, if◌then◌else◌,
  ltb, leb, ◌==◌, length,
}
use etherpad_go.Strings.{starts_with, contains}
use etherpad_go.Updater.Types.{ReleaseInfo}

-- One round of the loop in `IsValidTag`.
unfoldable pub is_tag_char : ℕ → Bool
is_tag_char r = not (
    leb r b' '
    || r == 127
    || r == b'~'
    || r == b'^'
    || r == b':'
    || r == b'?'
    || r == b'*'
    || r == b'['
    || r == b'\x5c'
    || r == b'/')

unfoldable pub all_tag_chars : Text → Bool
all_tag_chars [] = true
all_tag_chars (r ∷ tag) = is_tag_char r && all_tag_chars tag

unfoldable pub is_valid_tag : Text → Bool
is_valid_tag tag =
    if length tag == 0 || ltb 200 (length tag)
    then false
    else if starts_with (codes "-") tag || starts_with (codes ".") tag
    then false
    else if contains (codes "..") tag
    then false
    else all_tag_chars tag

pub record GhAsset : Type 0 where
  pub name : Text
  pub browser_download_url : Text

pub record GhRelease : Type 0 where
  pub tag_name : Text
  pub body : Text
  pub draft : Bool
  pub prerelease : Bool
  pub published_at : Text
  pub html_url : Text

-- `strings.TrimPrefix(tag, "v")`
unfoldable pub trim_v : Text → Text
trim_v [] = []
trim_v (c ∷ s) = if c == b'v' then s else c ∷ s

unfoldable pub to_release_info : GhRelease → ReleaseInfo
to_release_info r = record {
  version = trim_v r.tag_name;
  tag = r.tag_name;
  body = r.body;
  published_at = r.published_at;
  prerelease = r.prerelease;
  html_url = r.html_url;
}

-- `CheckResult` without the status, which is only logged.
pub data CheckResult : Type 0 where
  check_updated : (release : ReleaseInfo) → (etag : Text) → CheckResult
  check_prerelease : (etag : Text) → CheckResult
  check_not_modified check_rate_limited check_error : CheckResult

-- What the server answers: the status, the header `ETag` and the release, if the body decodes.
pub record Response : Type 0 where
  pub status_code : ℕ
  pub etag : Text
  pub release : Option GhRelease

abbrev pub checked_release : Text → Option GhRelease → CheckResult
checked_release etag none = check_error
checked_release etag (some r) =
    if r.prerelease || r.draft
    then check_prerelease etag
    else if not (is_valid_tag r.tag_name)
    then check_error
    else check_updated (to_release_info r) etag

-- `none` is a request that got no answer.
unfoldable pub check_latest : Option Response → CheckResult
check_latest none = check_error
check_latest (some r) =
    if r.status_code == 304
    then check_not_modified
    else if r.status_code == 403 || r.status_code == 429
    then check_rate_limited
    else if not (r.status_code == 200)
    then check_error
    else checked_release r.etag r.release
