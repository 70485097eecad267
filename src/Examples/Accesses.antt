-- ===== src/Examples/Accesses.antt =====
-- Access to pads, and the rate of commits.
use etherpad_go.Prelude.{ℕ, true, false, none, some, List, [], ◌∷◌, Text, codes}
use etherpad_go.Access.{ClientRequest, AccessSettings, Answers}
use etherpad_go.RateLimit.{CommitRateLimiting}

-- A store with the pad "p", to which "r.1" is the read-only id, and one author.
abbrev pad_store : Answers
pad_store = record {
  get_pad_id = λ id. some (some (codes "p"));
  access_denied = λ pad token cookie. false;
  does_pad_exist = λ pad. some true;
  session_info =
      λ id. some (record { group_id = codes "p"; author_id = codes "a.2"; valid_until = 5 });
  hook_author = λ token. [];
  author_of = λ token. some (codes "a.1");
  public_status = λ pad. false;
  now = 0;
}

abbrev logged_in : AccessSettings
logged_in = record {
  edit_only = false;
  load_test = false;
  require_authentication = true;
  require_session = true;
}

abbrev reader : ClientRequest
reader = record {
  is_admin = false;
  pad_authorizations = some ((codes "p", codes "readOnly") ∷ []);
  read_only_flag = none;
  can_create = false;
}

abbrev one_each_second : CommitRateLimiting
one_each_second = record { duration = 1; points = 1; load_test = false }

abbrev two_before : List (Text × ℕ)
two_before = (codes "h", 5) ∷ (codes "g", 9) ∷ []
