-- ===== src/Updater/Runs.antt =====
-- Runs of the updater of lib/updater/updater.go: the handlers in any order, between the waits of
-- `runApply`, until the process exits.
pub mod Consistency
use etherpad_go.Prelude.{
  ℕ, zero, suc, ◌+◌, ◌*◌, ◌-◌, ◌/◌, ◌%◌, ◌≤◌, ◌<◌, min, Bool, true, false, not, ◌&&◌, ◌||◌, Option,
  none, some, List, [], ◌∷◌, ◌++◌, map, Text, text_eq, codes, if◌then◌else◌, ltb, leb, ◌==◌, length,
  is_some, ◌≡◌, ◌≢◌, ◌↔◌, ◌⊎◌, inl, inr, refl, sym, ap, ◌∙◌, subst, arith, tests, Bool-cases,
  text_eq_refl, text_eq→eq, Option-cases, ltb→lt, lt→ltb, leb→le, le→leb, ==_iff,
}
use etherpad_go.Updater.Types.{
  Tier, tier_off, tier_notify, tier_manual, tier_auto, tier_autonomous, InstallMethod, install_auto,
  install_binary, install_docker, install_managed, ExecutionStatus, idle, scheduled, preflight,
  preflight_failed, draining, executing, pending_verification, verified, rolling_back, rolled_back,
  rollback_failed, ReleaseInfo, Execution, execution, LastResult, UpdateState, empty_state,
}
use etherpad_go.Updater.Window.{
  Zone, utc, local, MaintenanceWindow, split_colon, all_digits, decimal, unsigned, is_minus,
  atoi_upto, hours_minutes, parts_hhmm, parse_hhmm, zone_of, window_of, parse_window, Clock,
  minute_of, in_window, start_on_day, next_window_start,
}
use etherpad_go.Updater.Policy.{
  Semver, newer, update_available, PolicyInput, PolicyResult, refused, notify, is_rollback_failed,
  block_failed, allow_manual, autonomous_policy, tier_policy, method_policy, latest_policy, is_off,
  evaluate_policy,
}
use etherpad_go.Updater.Schedule.{
  in_flight, is_scheduled, is_autonomous, ScheduleDecision, schedule_none, schedule_cancel,
  schedule_arm, ScheduleInput, TriggerDecision, trigger_fire, trigger_defer, trigger_abort,
  trigger_clear, TriggerInput, cancel_if_scheduled, outside, next_start, scheduled_time,
  schedule_latest, decide_schedule, trigger_latest, decide_trigger_apply,
}
use etherpad_go.Strings.{starts_with, contains}
use etherpad_go.Updater.Release.{
  is_tag_char, all_tag_chars, is_valid_tag, GhAsset, GhRelease, trim_v, to_release_info,
  CheckResult, check_updated, check_prerelease, check_not_modified, check_rate_limited, check_error,
  Response, checked_release, check_latest,
}
use etherpad_go.Updater.Decisions.{
  Automatic, evaluate_policy-Automatic, Arms, decide_schedule-Arms, scheduled_time-in_window, Fires,
  decide_trigger_apply-Fires,
}
use etherpad_go.Updater.State.{
  exit_code_restart, max_boots, Config, Worker, no_apply, in_drain, in_executor, Updater, status_of,
  save_locked, put_execution, set_execution, put_result, put_boot_count, arm_apply_timer,
  cancel_apply_timer, run_preflight, ExecResult, exec_ok, exec_fail, is_pending, load_state,
}
use etherpad_go.Updater.Checking.{
  policy_locked, schedule_decision, act_schedule, decide_schedule_locked, put_check, act_check,
  perform_check,
}
use etherpad_go.Updater.Applying.{
  record_result, start_drain, after_preflight, begin_apply, leave, drained, executed, end_drain_of,
  end_execution_of, end_drain, end_execution, run_apply, trigger_decision, apply_latest,
  act_trigger, on_apply_timer, apply_now,
}
use etherpad_go.Updater.Boot.{
  finish_rollback, rollback, health_seconds, count_boot, check_pending_verification, start,
  mark_boot_healthy, acknowledge,
}

-- One handler of a process that runs, with the answers of what it calls.
pub data Step (v : Semver) (clock : Clock) (cfg : Config) : Updater → Updater → Type 0 where
  checked :
      (u : Updater) (r : CheckResult) (now : ℕ)
      → Step v clock cfg u (perform_check v clock cfg r now u)
  fired :
      (u : Updater) (due now : ℕ) (locked writable : Bool)
      → u.apply_timer ≡ some due
      → due ≤ now
      → Step v clock cfg u (on_apply_timer v clock cfg locked writable now u)
  applied :
      (u w : Updater) (locked writable : Bool) (now : ℕ)
      → apply_now v clock cfg locked writable now u ≡ some w
      → Step v clock cfg u w
  drain_ended :
      (u : Updater) (cancelled : Bool) (now : ℕ)
      → Step v clock cfg u (end_drain v clock cfg cancelled now u)
  execution_ended :
      (u : Updater) (result : ExecResult) (now : ℕ)
      → Step v clock cfg u (end_execution v clock cfg result now u)
  healthy : (u : Updater) (now : ℕ) → Step v clock cfg u (mark_boot_healthy cfg now u)
  unhealthy :
      (u : Updater) (due now : ℕ) (error : Option Text)
      → u.health_timer ≡ some due
      → due ≤ now
      → Step v clock cfg u (rollback cfg (codes "health-check-timeout") error now u)
  acknowledged : (u w : Updater) → acknowledge cfg u ≡ some w → Step v clock cfg u w

-- Handlers one after another, the process running in between and at the end.
pub data Run (v : Semver) (clock : Clock) (cfg : Config) : Updater → Updater → Type 0 where
  stay : (u : Updater) → Run v clock cfg u u
  then_step :
      (u w x : Updater)
      → Run v clock cfg u w
      → Step v clock cfg w x
      → x.exited ≡ none
      → Run v clock cfg u x

-- A status that only a goroutine at work, or a rollback on its way, may leave.
abbrev pub busy : ExecutionStatus → Bool
busy preflight = true
busy draining = true
busy executing = true
busy rolling_back = true
busy idle = false
busy scheduled = false
busy preflight_failed = false
busy pending_verification = false
busy verified = false
busy rolled_back = false
busy rollback_failed = false

-- The goroutine's place agrees with the flags and the status.
unfoldable pub Agrees : Worker → Bool → Bool → Execution → Type 0
Agrees no_apply applying accepting e =
    (applying ≡ false) × (accepting ≡ true) × (busy e.status ≡ false)
Agrees (in_drain r) applying accepting e =
    (applying ≡ true) × (accepting ≡ false) × (e.status ≡ draining) × (e.target_tag ≡ r.tag)
Agrees (in_executor r) applying accepting e =
    (applying ≡ true) × (accepting ≡ true) × (e.status ≡ executing) × (e.target_tag ≡ r.tag)

abbrev pub Consistent : Updater → Type 0
Consistent u = Agrees u.worker u.applying u.accepting u.state.execution
