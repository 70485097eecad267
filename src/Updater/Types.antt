-- ===== src/Updater/Types.antt =====
-- lib/updater/types.go: tiers, install methods, and the persisted state.
use etherpad_go.Prelude.{ℕ, Bool, Option, none, [], Text}

pub data Tier : Type 0 where
  tier_off tier_notify tier_manual tier_auto tier_autonomous : Tier

pub data InstallMethod : Type 0 where
  install_auto install_binary install_docker install_managed : InstallMethod

pub data ExecutionStatus : Type 0 where
  idle scheduled preflight preflight_failed draining executing : ExecutionStatus
  pending_verification verified rolling_back rolled_back rollback_failed : ExecutionStatus

pub record ReleaseInfo : Type 0 where
  pub version : Text
  pub tag : Text
  pub body : Text
  pub published_at : Text
  pub prerelease : Bool
  pub html_url : Text

-- A time that is not set is `none`.
pub record Execution : Type 0 where
  pub status : ExecutionStatus
  pub target_tag : Text
  pub from_version : Text
  pub backup_path : Text
  pub scheduled_for : Option ℕ
  pub drain_ends_at : Option ℕ
  pub deadline_at : Option ℕ
  pub reason : Text
  pub at : Option ℕ

-- `Execution{Status: s}`: Go's zero value for the other fields.
abbrev pub execution : ExecutionStatus → Execution
execution s = record {
  status = s;
  target_tag = [];
  from_version = [];
  backup_path = [];
  scheduled_for = none;
  drain_ends_at = none;
  deadline_at = none;
  reason = [];
  at = none;
}

pub record LastResult : Type 0 where
  pub target_tag : Text
  pub from_version : Text
  pub outcome : Text
  pub reason : Text
  pub at : Option ℕ

pub record UpdateState : Type 0 where
  pub last_check_at : Option ℕ
  pub last_etag : Text
  pub latest : Option ReleaseInfo
  pub execution : Execution
  pub boot_count : ℕ
  pub last_result : Option LastResult

abbrev pub empty_state : UpdateState
empty_state = record {
  last_check_at = none;
  last_etag = [];
  latest = none;
  execution = execution idle;
  boot_count = 0;
  last_result = none;
}
