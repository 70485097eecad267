-- ===== src/Access.antt =====
-- lib/pad/SecurityManager.go, with what it uses of lib/pad (webaccess.go, SessionManager.go,
-- readOnlyManager.go) and lib/utils/padUtils.go: who may access a pad. Cookies are ASCII.
pub mod Session
pub mod Granted
use etherpad_go.Prelude.{
  ℕ, zero, suc, ◌+◌, ◌*◌, ◌-◌, ◌/◌, ◌%◌, ◌≤◌, ◌<◌, min, Bool, true, false, not, ◌&&◌, ◌||◌, Option,
  none, some, List, [], ◌∷◌, ◌++◌, map, Text, text_eq, codes, if◌then◌else◌, ltb, leb, ◌==◌, length,
  is_some, ◌≡◌, ◌≢◌, ◌↔◌, ◌⊎◌, inl, inr, refl, sym, ap, ◌∙◌, subst, arith, tests, Bool-cases,
  text_eq_refl, text_eq→eq, Option-cases, ltb→lt, lt→ltb, leb→le, le→leb, ==_iff,
}
use etherpad_go.Strings.{starts_with, contains, ends_with, lower_byte, to_lower, split_at_byte}
use etherpad_go.Attribs.{trim_space}

pub data Level : Type 0 where
  read_only modify create : Level

-- What an authorization may be in Go: a string or a Boolean.
pub data AuthzValue : Type 0 where
  authz_string : Text → AuthzValue
  authz_bool : Bool → AuthzValue

-- `none` is the error.
unfoldable pub normalize_authz_level : AuthzValue → Option Level
normalize_authz_level (authz_string s) =
    if text_eq s (codes "readOnly")
    then some read_only
    else if text_eq s (codes "modify")
    then some modify
    else if text_eq s (codes "create")
    then some create
    else none
normalize_authz_level (authz_bool true) = some create
normalize_authz_level (authz_bool false) = none

abbrev pub is_create : Level → Bool
is_create create = true
is_create modify = false
is_create read_only = false

-- `m[k]`, which is "" for a key that is missing.
unfoldable pub entry_of : Text → List (Text × Text) → Text
entry_of k [] = []
entry_of k ((k', s) ∷ m) = if text_eq k k' then s else entry_of k m

-- `SocketClientRequest`: nil pointers are `none`.
pub record ClientRequest : Type 0 where
  pub is_admin : Bool
  pub pad_authorizations : Option (List (Text × Text))
  pub read_only_flag : Option Bool
  pub can_create : Bool

pub record ApiSessionInfo : Type 0 where
  pub group_id : Text
  pub author_id : Text
  pub valid_until : ℕ

pub record AccessSettings : Type 0 where
  pub edit_only : Bool
  pub load_test : Bool
  pub require_authentication : Bool
  pub require_session : Bool

-- What the data store and the hooks answer: `none` is an error, or no record. `get_pad_id` gives the pad
-- of a read-only id, `some none` for a nil pointer without an error, `author_of` the author of a token, and `hook_author` is "" if no hook
-- names one. A pad that exists is taken to be read without error.
pub record Answers : Type 0 where
  pub get_pad_id : Text → Option (Option Text)
  pub access_denied : Text → Text → Text → Bool
  pub does_pad_exist : Text → Option Bool
  pub session_info : Text → Option ApiSessionInfo
  pub hook_author : Text → Text
  pub author_of : Text → Option Text
  pub public_status : Text → Bool
  pub now : ℕ

unfoldable pub is_read_only_id : Text → Bool
is_read_only_id id = starts_with (codes "r.") id

abbrev pub is_base64_byte : ℕ → Bool
is_base64_byte c =
    leb b'A' c && leb c b'Z'
    || leb b'a' c && leb c b'z'
    || leb b'0' c && leb c b'9'
    || c == b'+'
    || c == b'/'

abbrev pub is_padding : Text → Bool
is_padding s = text_eq s [] || text_eq s (codes "=") || text_eq s (codes "==")

-- The pattern `^[A-Za-z0-9+/]*={0,2}$`.
unfoldable pub is_base64_text : Text → Bool
is_base64_text [] = true
is_base64_text (c ∷ s) =
    let rest = is_base64_text s in if is_base64_byte c then rest else is_padding (c ∷ s)

abbrev pub behind_prefix : Text → Bool
behind_prefix [] = false
behind_prefix (c ∷ []) = false
behind_prefix (c ∷ d ∷ s) = ltb 0 (length s) && is_base64_text s

unfoldable pub is_valid_author_token : Text → Bool
is_valid_author_token token = starts_with (codes "t.") token && behind_prefix token

abbrev pub trim_quote : Text → Text
trim_quote [] = []
trim_quote (c ∷ s) = if c == b'"' then s else c ∷ s

unfoldable pub trim_end_quote : Text → Text
trim_end_quote [] = []
trim_end_quote (c ∷ []) = if c == b'"' then [] else c ∷ []
trim_end_quote (c ∷ d ∷ s) = c ∷ trim_end_quote (d ∷ s)

abbrev pub is_sessions_author : ℕ → Text → ApiSessionInfo → Bool
is_sessions_author now group info = text_eq info.group_id group && ltb now info.valid_until

-- The first part of `strings.Split(id, "$")`.
unfoldable pub group_of : Text → Text
group_of [] = []
group_of (c ∷ s) = let rest = group_of s in if c == b'$' then [] else c ∷ rest

pub data Denial : Type 0 where
  no_pad_id pad_id_not_found denied_by_hook bad_token no_user not_authorized store_error : Denial
  cannot_create no_session no_group_session private_pad : Denial

pub data Access : Type 0 where
  granted : (author_id : Text) → Access
  denied : Denial → Access
  -- A nil pointer is read.
  nil_panic : Access

abbrev pub or_empty_token : Option Text → Text
or_empty_token none = []
or_empty_token (some s) = s

abbrev pub grant_or : Denial → Option Text → Access
grant_or d none = denied d
grant_or d (some author) = granted author

abbrev pub token_passes : Option Text → Bool
token_passes none = true
token_passes (some token) = is_valid_author_token token

abbrev pub not_read_only : Option Bool → Bool
not_read_only none = true
not_read_only (some flag) = not flag

module _ (ans : Answers) where
  -- One round of `FindAuthorID`.
  abbrev pub author_in : Text → Option ApiSessionInfo → Option Text → Option Text
  author_in group none rest = rest
  author_in group (some info) rest =
      if is_sessions_author ans.now group info then some info.author_id else rest

  unfoldable pub first_author : Text → List Text → Option Text
  first_author group [] = none
  first_author group (id ∷ ids) =
      author_in group (ans.session_info (trim_space id)) (first_author group ids)

  unfoldable pub find_author_id : Text → Option Text → Option Text
  find_author_id group none = none
  find_author_id group (some cookie) =
      if text_eq cookie []
      then none
      else first_author group (split_at_byte b',' (trim_end_quote (trim_quote cookie)))

  unfoldable pub resolve_author_id : Option Text → Option Text
  resolve_author_id token =
      let hooked = ans.hook_author (or_empty_token token) in
      if text_eq hooked [] then ans.author_of (or_empty_token token) else some hooked

  -- Behind the author: pads of a group.
  abbrev pub check_group : Text → Bool → Option Text → Text → Access
  check_group pad exists session author =
      if not (contains (codes "$") pad)
      then granted author
      else if not exists
      then (if is_some session then granted author else denied no_group_session)
      else if not (ans.public_status pad) && not (is_some session)
      then denied private_pad
      else granted author

  abbrev pub check_author : Text → Bool → Option Text → Option Text → Access
  check_author pad exists session none = denied bad_token
  check_author pad exists session (some author) = check_group pad exists session author

  abbrev pub check_session : AccessSettings → Text → Bool → Option Text → Option Text → Access
  check_session set pad exists session token =
      if set.require_session && not (is_some session)
      then denied no_session
      else if not (is_some session) && not (token_passes token)
      then denied bad_token
      else check_author pad exists session (resolve_author_id token)

  abbrev pub check_exists :
      AccessSettings → Text → Bool → Option Text → Option Text → Option Bool → Access
  check_exists set pad may_create cookie token none = denied store_error
  check_exists set pad may_create cookie token (some exists) =
      if not exists && not may_create
      then denied cannot_create
      else check_session set pad exists (find_author_id (group_of pad) cookie) token

  abbrev pub check_pad : AccessSettings → Text → Bool → Option Text → Option Text → Access
  check_pad set pad may_create cookie token =
      check_exists set pad may_create cookie token (ans.does_pad_exist pad)

  abbrev pub check_level :
      AccessSettings → Text → Bool → Option Text → Option Text → Option Level → Access
  check_level set pad may_create cookie token none = denied not_authorized
  check_level set pad may_create cookie token (some level) =
      check_pad set pad (may_create && is_create level) cookie token

  abbrev pub level_of : Text → ClientRequest → Option Level
  level_of pad u = elim u.pad_authorizations [
    | none ↦ normalize_authz_level (authz_string [])
    | some m ↦ normalize_authz_level (authz_string (entry_of pad m))
  ]

  abbrev pub check_user :
      AccessSettings → Text → Bool → Option Text → Option Text → Option ClientRequest → Access
  check_user set pad may_create cookie token none = denied no_user
  check_user set pad may_create cookie token (some u) =
      check_level set pad (may_create && u.can_create && not_read_only u.read_only_flag) cookie
        token (level_of pad u)

  -- From the hooks on, for the pad's own id.
  abbrev pub check_hooked :
      AccessSettings → Text → Bool → Option Text → Option Text → Option ClientRequest → Access
  check_hooked set pad may_create cookie token user =
      if ans.access_denied pad (or_empty_token token) (or_empty_token cookie)
      then denied denied_by_hook
      else if set.load_test
      then grant_or bad_token (resolve_author_id token)
      else if set.require_authentication
      then check_user set pad may_create cookie token user
      else check_pad set pad may_create cookie token

  abbrev pub check_found :
      AccessSettings
      → Option (Option Text)
      → Option Text
      → Option Text
      → Option ClientRequest
      → Access
  check_found set none cookie token user = denied pad_id_not_found
  check_found set (some none) cookie token user = nil_panic
  check_found set (some (some pad)) cookie token user = check_hooked set pad false cookie token user

  unfoldable pub check_access :
      AccessSettings → Option Text → Option Text → Option Text → Option ClientRequest → Access
  check_access set none cookie token user = denied no_pad_id
  check_access set (some id) cookie token user =
      if is_read_only_id id
      then check_found set (ans.get_pad_id id) cookie token user
      else check_hooked set id (not set.edit_only) cookie token user
