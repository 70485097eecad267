-- ===== src/Updater/State.antt =====
-- lib/updater/updater.go: the updater's state, its timers, and what it saves. preflight.go: the
-- preflight; state.go: the state that is loaded.
use etherpad_go.Prelude.{
  ℕ, Bool, true, false, not, Option, none, some, List, [], ◌∷◌, Text, codes, if◌then◌else◌, ltb,
  ◌==◌,
}
use etherpad_go.Updater.Types.{
  Tier, InstallMethod, install_auto, install_binary, install_docker, install_managed,
  ExecutionStatus, idle, scheduled, preflight, preflight_failed, draining, executing,
  pending_verification, verified, rolling_back, rolled_back, rollback_failed, ReleaseInfo,
  Execution, LastResult, UpdateState, empty_state,
}
use etherpad_go.Updater.Window.{MaintenanceWindow}

abbrev pub exit_code_restart : ℕ
exit_code_restart = 75

abbrev pub max_boots : ℕ
max_boots = 3

pub record Config : Type 0 where
  pub tier : Tier
  pub current_version : Text
  pub grace_minutes : ℕ
  pub drain_seconds : ℕ
  pub health_check_seconds : ℕ
  pub window : Option MaintenanceWindow
  pub window_configured : Bool

-- Where the goroutine that applies an update waits.
pub data Worker : Type 0 where
  no_apply : Worker
  in_drain : (target : ReleaseInfo) → Worker
  in_executor : (target : ReleaseInfo) → Worker

-- A timer that runs is the time when it fires. `saves` are the states handed to `SaveState`, the
-- last one first, and `exited` the code of `u.exit`.
pub record Updater : Type 0 where
  pub install_method : InstallMethod
  pub state : UpdateState
  pub apply_timer : Option ℕ
  pub health_timer : Option ℕ
  pub timer_target_tag : Text
  pub accepting : Bool
  pub applying : Bool
  pub worker : Worker
  pub saves : List UpdateState
  pub exited : Option ℕ

abbrev pub status_of : Updater → ExecutionStatus
status_of u = u.state.execution.status

unfoldable pub save_locked : Updater → Updater
save_locked u = record u { saves = u.state ∷ u.saves }

-- `u.state.Execution = e`
abbrev pub put_execution : Execution → Updater → Updater
put_execution e u = record u { state = record (u.state) { execution = e } }

unfoldable pub set_execution : Execution → Updater → Updater
set_execution e u = save_locked (put_execution e u)

-- `u.state.LastResult = &r`
abbrev pub put_result : LastResult → Updater → Updater
put_result r u = record u { state = record (u.state) { last_result = some r } }

abbrev pub put_boot_count : ℕ → Updater → Updater
put_boot_count n u = record u { state = record (u.state) { boot_count = n } }

unfoldable pub arm_apply_timer : Text → ℕ → ℕ → Updater → Updater
arm_apply_timer tag at now u = record u {
  timer_target_tag = tag;
  apply_timer = some (if ltb at now then now else at);
}

unfoldable pub cancel_apply_timer : Updater → Updater
cancel_apply_timer u = record u { timer_target_tag = []; apply_timer = none }

unfoldable pub run_preflight : InstallMethod → Bool → Option Text
run_preflight install_binary writable =
    if writable then none else some (codes "exe-dir-not-writable")
run_preflight install_auto writable = some (codes "install-method-not-writable")
run_preflight install_docker writable = some (codes "install-method-not-writable")
run_preflight install_managed writable = some (codes "install-method-not-writable")

-- What the executor returns: the path of the backup, or a reason.
pub data ExecResult : Type 0 where
  exec_ok : (backup_path : Text) → ExecResult
  exec_fail : (reason : Text) → ExecResult

abbrev pub is_pending : ExecutionStatus → Bool
is_pending pending_verification = true
is_pending idle = false
is_pending scheduled = false
is_pending preflight = false
is_pending preflight_failed = false
is_pending draining = false
is_pending executing = false
is_pending verified = false
is_pending rolling_back = false
is_pending rolled_back = false
is_pending rollback_failed = false

-- `LoadState`: the file's schema version, its status, if it has one, and the rest of the state;
-- `none` if it cannot be read or parsed.
unfoldable pub load_state : Option (ℕ × (Option ExecutionStatus × UpdateState)) → UpdateState
load_state none = empty_state
load_state (some (version, (status, s))) = if not (version == 1) then empty_state else elim status [
  | none ↦ record s { execution = record (s.execution) { status = idle } }
  | some st ↦ record s { execution = record (s.execution) { status = st } }
]
