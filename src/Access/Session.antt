-- ===== src/Access/Session.antt =====
-- What it takes for `FindAuthorID` of lib/pad/SessionManager.go to find an author, and for a token to pass.
use etherpad_go.Prelude.{
  true, Option, none, some, Text, is_some, ◌≡◌, inl, inr, refl, ap, arith, Bool-cases, List, [],
  ◌∷◌, ◌++◌, ◌<◌, text_eq→eq,
}
use etherpad_go.Strings.{split_at_byte}
use etherpad_go.Attribs.{trim_space}
use etherpad_go.Access.{
  Answers, token_passes, find_author_id, ApiSessionInfo, trim_quote, trim_end_quote,
  is_sessions_author, author_in, first_author, is_valid_author_token,
}

-- A session of the group that is not expired is listed in the cookie, behind the quotes.
pub record HasSession (ans : Answers) (group : Text) (cookie : Option Text) : Type 0 where
  pub text : Text
  pub its_cookie : cookie ≡ some text
  pub before : List Text
  pub id : Text
  pub after : List Text
  pub listed : split_at_byte b',' (trim_end_quote (trim_quote text)) ≡ before ++ (id ∷ after)
  pub info : ApiSessionInfo
  pub known : ans.session_info (trim_space id) ≡ some info
  pub its_group : info.group_id ≡ group
  pub not_expired : ans.now < info.valid_until

module _ (ans : Answers) (group : Text) where
  -- One of the sessions is found.
  abbrev Found : List Text → Type 0
  Found ids =
      (before : List Text) × (id : Text) × (after : List Text) × (info : ApiSessionInfo) × (ids
        ≡ before ++ (id ∷ after))
      × (ans.session_info (trim_space id) ≡ some info)
      × (info.group_id ≡ group)
      × (ans.now < info.valid_until)

  Found-next : (id : Text) (ids : List Text) → Found ids → Found (id ∷ ids)
  Found-next id ids (before, s, after, info, e, k, g, live) =
      (id ∷ before, s, after, info, ap (λ l. id ∷ l) e, k, g, live)

  first_author-Found : (ids : List Text) → is_some (first_author ans group ids) ≡ true → Found ids
  unfolding first_author
  first_author-Found [] h = cc
  first_author-Found (id ∷ ids) h =
      at (ans.session_info (trim_space id)) (λ g. first_author-Found ids g) refl h
    where
      at :
          (o : Option ApiSessionInfo)
          → (is_some (first_author ans group ids) ≡ true → Found ids)
          → ans.session_info (trim_space id) ≡ o
          → is_some (author_in ans group o (first_author ans group ids)) ≡ true
          → Found (id ∷ ids)
      at none later e h = Found-next id ids (later h)
      at (some info) later e h = elim (Bool-cases (is_sessions_author ans.now group info)) [
        | inl fits ↦ (
          [],
          id,
          ids,
          info,
          refl,
          e,
          text_eq→eq info.group_id group (ground (arith, fits)),
          ground (arith, fits),
        )
        | inr other ↦ Found-next id ids (later (rw other at h))
      ]

  pub find_author_id-HasSession :
      (cookie : Option Text)
      → is_some (find_author_id ans group cookie) ≡ true
      → HasSession ans group cookie
  unfolding find_author_id
  find_author_id-HasSession none h = cc
  find_author_id-HasSession (some text) h =
      let (before, id, after, info, e, k, g, live) =
        first_author-Found (split_at_byte b',' (trim_end_quote (trim_quote text))) (ground arith) in
      record {
        text = text;
        its_cookie = refl;
        before = before;
        id = id;
        after = after;
        listed = e;
        info = info;
        known = k;
        its_group = g;
        not_expired = live;
      }

pub token_passes-valid :
    (token : Option Text)
    → token_passes token ≡ true
    → (t : Text) → token ≡ some t
    → is_valid_author_token t ≡ true
token_passes-valid none h t e = cc
token_passes-valid (some s) h t e = let same : s ≡ t = cc in rw same at h
