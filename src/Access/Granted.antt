-- ===== src/Access/Granted.antt =====
-- When `CheckAccess` of lib/pad/SecurityManager.go grants access.
use etherpad_go.Prelude.{Bool, true, false, Option, some, Text, codes, ◌≡◌, ◌⊎◌, arith}
use etherpad_go.Strings.{contains}
use etherpad_go.Access.{
  Level, create, is_create, ClientRequest, AccessSettings, Answers, is_read_only_id, group_of,
  or_empty_token, not_read_only, resolve_author_id, is_valid_author_token, level_of,
}
use etherpad_go.Access.Session.{HasSession}

-- The pad with this id may be read and written by the author of the token.
pub record Open (ans : Answers) (set : AccessSettings) (pad : Text) (may_create : Bool)
    (cookie token : Option Text) (author : Text) : Type 0 where
  pub exists : Bool
  pub known : ans.does_pad_exist pad ≡ some exists
  pub there : (exists ≡ true) ⊎ (may_create ≡ true)
  pub has_session : (set.require_session ≡ false) ⊎ HasSession ans (group_of pad) cookie
  pub token_fits :
      HasSession ans (group_of pad) cookie
      ⊎ ((t : Text) → token ≡ some t → is_valid_author_token t ≡ true)
  pub its_author : resolve_author_id ans token ≡ some author
  pub group_fits :
      (contains (codes "$") pad ≡ false)
      ⊎ HasSession ans (group_of pad) cookie
      ⊎ (exists ≡ true) × (ans.public_status pad ≡ true)

-- The user who is logged in may use the pad, and may create it, if it may be created at all.
pub record Authorized (ans : Answers) (pad : Text) (user : Option ClientRequest) (may_create : Bool)
    : Type 0 where
  pub who : ClientRequest
  pub logged_in : user ≡ some who
  pub level : Level
  pub has_level : level_of ans pad who ≡ some level
  pub creates :
      (may_create ≡ false)
      ⊎ (level ≡ create) × (who.can_create ≡ true) × (not_read_only who.read_only_flag ≡ true)

-- What access to the pad with the id `id` rests on. A read-only id stands for another pad.
pub record Grant (ans : Answers) (set : AccessSettings) (id : Text) (cookie token : Option Text)
    (user : Option ClientRequest) (author : Text) : Type 0 where
  pub pad : Text
  pub may_create : Bool
  pub its_pad :
      (is_read_only_id id ≡ false) × (pad ≡ id)
      ⊎ (is_read_only_id id ≡ true) × (ans.get_pad_id id ≡ some (some pad)) × (may_create ≡ false)
  pub not_edit_only : (may_create ≡ false) ⊎ (set.edit_only ≡ false)
  pub not_denied : ans.access_denied pad (or_empty_token token) (or_empty_token cookie) ≡ false
  pub authorized : (set.require_authentication ≡ false) ⊎ Authorized ans pad user may_create
  pub opens : Open ans set pad may_create cookie token author

module _ (ans : Answers) (set : AccessSettings) (pad : Text) (cookie token : Option Text)
    (author : Text) where
  abbrev Passed : Bool → Option ClientRequest → Type 0
  Passed may user =
      (may_create : Bool) × (ans.access_denied pad (or_empty_token token) (or_empty_token cookie)
        ≡ false)
      × ((may_create ≡ false) ⊎ (may ≡ true))
      × ((set.require_authentication ≡ false) ⊎ Authorized ans pad user may_create)
      × Open ans set pad may_create cookie token author

  create-level : (l : Level) → is_create l ≡ true → l ≡ create
  create-level l h = ground arith
