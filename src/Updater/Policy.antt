-- ===== src/Updater/Policy.antt =====
-- lib/updater/policy.go and version.go: what the updater may do.
use etherpad_go.Prelude.{
  Bool, true, false, not, Option, none, some, [], Text, text_eq, codes, if◌then◌else◌,
}
use etherpad_go.Updater.Types.{
  Tier, tier_off, tier_notify, tier_manual, tier_auto, tier_autonomous, InstallMethod, install_auto,
  install_binary, install_docker, install_managed, ExecutionStatus, idle, scheduled, preflight,
  preflight_failed, draining, executing, pending_verification, verified, rolling_back, rolled_back,
  rollback_failed, ReleaseInfo,
}

-- The package semver: versions are read from strings and compared.
pub record Semver : Type 1 where
  pub Version : Type 0
  pub new_version : Text → Option Version
  pub greater_than : Version → Version → Bool

module _ (v : Semver) where
  open v use {Version, new_version, greater_than}

  abbrev pub newer : Option Version → Option Version → Bool
  newer (some cur) (some lat) = greater_than lat cur
  newer (some cur) none = false
  newer none lat = false

  unfoldable pub update_available : Text → Text → Bool
  update_available current latest =
      if text_eq latest [] then false else newer (new_version current) (new_version latest)

pub record PolicyInput : Type 0 where
  pub tier : Tier
  pub install_method : InstallMethod
  pub current_version : Text
  pub latest : Option ReleaseInfo
  pub execution_status : ExecutionStatus
  pub window_configured : Bool
  pub window_valid : Bool

pub record PolicyResult : Type 0 where
  pub can_notify : Bool
  pub can_manual : Bool
  pub can_auto : Bool
  pub can_autonomous : Bool
  pub reason : Text

-- `PolicyResult{Reason: r}`
abbrev pub refused : Text → PolicyResult
refused r = record {
  can_notify = false;
  can_manual = false;
  can_auto = false;
  can_autonomous = false;
  reason = r;
}

abbrev pub notify : Text → PolicyResult
notify r = record (refused r) { can_notify = true }

abbrev pub is_rollback_failed : ExecutionStatus → Bool
is_rollback_failed rollback_failed = true
is_rollback_failed idle = false
is_rollback_failed scheduled = false
is_rollback_failed preflight = false
is_rollback_failed preflight_failed = false
is_rollback_failed draining = false
is_rollback_failed executing = false
is_rollback_failed pending_verification = false
is_rollback_failed verified = false
is_rollback_failed rolling_back = false
is_rollback_failed rolled_back = false

-- The last `if` of `EvaluatePolicy`.
abbrev pub block_failed : ExecutionStatus → PolicyResult → PolicyResult
block_failed s r =
    if is_rollback_failed s
    then record r {
      can_auto = false;
      can_autonomous = false;
      reason = codes "rollback-failed-terminal";
    }
    else r

abbrev pub allow_manual : PolicyResult → PolicyResult
allow_manual r = record r { can_manual = true }

abbrev pub autonomous_policy : Bool → Bool → PolicyResult → PolicyResult
autonomous_policy true configured r = record r { can_auto = true; can_autonomous = true }
autonomous_policy false true r = record r { reason = codes "maintenance-window-invalid" }
autonomous_policy false false r = record r { reason = codes "maintenance-window-missing" }

-- The switch over the tier, for a binary that can be replaced.
abbrev pub tier_policy : Tier → PolicyInput → PolicyResult → PolicyResult
tier_policy tier_off i r = block_failed i.execution_status r
tier_policy tier_notify i r = record r { reason = codes "notify-only" }
tier_policy tier_manual i r = allow_manual r
tier_policy tier_auto i r =
    block_failed i.execution_status (record (allow_manual r) { can_auto = true })
tier_policy tier_autonomous i r =
    block_failed i.execution_status
      (autonomous_policy i.window_valid i.window_configured (allow_manual r))

abbrev pub method_policy : InstallMethod → PolicyInput → PolicyResult
method_policy install_binary i = tier_policy i.tier i (notify (codes "ok"))
method_policy install_auto i = notify (codes "install-method-not-writable")
method_policy install_docker i = notify (codes "install-method-not-writable")
method_policy install_managed i = notify (codes "install-method-not-writable")

abbrev pub latest_policy : Semver → Option ReleaseInfo → PolicyInput → PolicyResult
latest_policy v none i = refused (codes "no-known-latest")
latest_policy v (some r) i =
    if not (update_available v i.current_version r.version)
    then refused (codes "up-to-date")
    else method_policy i.install_method i

abbrev pub is_off : Tier → Bool
is_off tier_off = true
is_off tier_notify = false
is_off tier_manual = false
is_off tier_auto = false
is_off tier_autonomous = false

unfoldable pub evaluate_policy : Semver → PolicyInput → PolicyResult
evaluate_policy v i =
    if is_off i.tier then refused (codes "tier-off") else latest_policy v i.latest i
