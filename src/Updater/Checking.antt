-- ===== src/Updater/Checking.antt =====
-- lib/updater/updater.go: the release checks and the schedule. A handler reads the clock once here.
use etherpad_go.Prelude.{ℕ, Option, some, [], Text, text_eq, if◌then◌else◌, is_some}
use etherpad_go.Updater.Types.{idle, scheduled, ReleaseInfo, execution}
use etherpad_go.Updater.Window.{Clock}
use etherpad_go.Updater.Policy.{Semver, PolicyResult, evaluate_policy}
use etherpad_go.Updater.Schedule.{
  ScheduleDecision, schedule_none, schedule_cancel, schedule_arm, decide_schedule,
}
use etherpad_go.Updater.Release.{
  CheckResult, check_updated, check_prerelease, check_not_modified, check_rate_limited, check_error,
}
use etherpad_go.Updater.State.{
  Config, Updater, status_of, save_locked, put_execution, arm_apply_timer, cancel_apply_timer,
}

module _ (v : Semver) (clock : Clock) (cfg : Config) where
  unfoldable pub policy_locked : Updater → PolicyResult
  policy_locked u = evaluate_policy v (record {
    tier = cfg.tier;
    install_method = u.install_method;
    current_version = cfg.current_version;
    latest = u.state.latest;
    execution_status = status_of u;
    window_configured = cfg.window_configured;
    window_valid = is_some cfg.window;
  })

  abbrev pub schedule_decision : ℕ → Updater → ScheduleDecision
  schedule_decision now u =
      let pol = policy_locked u in
      decide_schedule clock (record {
        can_auto = pol.can_auto;
        can_autonomous = pol.can_autonomous;
        tier = cfg.tier;
        latest = u.state.latest;
        execution = u.state.execution;
        now = now;
        grace_minutes = cfg.grace_minutes;
        window = cfg.window;
      })

  abbrev pub act_schedule : ScheduleDecision → ℕ → Updater → Updater
  act_schedule schedule_none now u = u
  act_schedule schedule_cancel now u = put_execution (execution idle) (cancel_apply_timer u)
  act_schedule (schedule_arm tag at) now u = arm_apply_timer tag at now (
      put_execution
        (record (execution scheduled) { target_tag = tag; scheduled_for = some at; at = some now })
        u)

  unfoldable pub decide_schedule_locked : ℕ → Updater → Updater
  decide_schedule_locked now u = act_schedule (schedule_decision now u) now u

  abbrev pub put_check : ℕ → Text → Option ReleaseInfo → Updater → Updater
  put_check now etag latest u = record u {
    state = record (u.state) { last_check_at = some now; last_etag = etag; latest = latest };
  }

  abbrev pub act_check : CheckResult → ℕ → Updater → Updater
  act_check (check_updated r etag) now u =
      decide_schedule_locked now (put_check now etag (some r) u)
  act_check (check_prerelease etag) now u =
      decide_schedule_locked now
        (put_check now (if text_eq etag [] then u.state.last_etag else etag) u.state.latest u)
  act_check check_not_modified now u =
      decide_schedule_locked now (put_check now u.state.last_etag u.state.latest u)
  act_check check_rate_limited now u = put_check now u.state.last_etag u.state.latest u
  act_check check_error now u = put_check now u.state.last_etag u.state.latest u

  unfoldable pub perform_check : CheckResult → ℕ → Updater → Updater
  perform_check r now u = save_locked (act_check r now u)
