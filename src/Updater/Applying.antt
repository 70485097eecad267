-- ===== src/Updater/Applying.antt =====
-- lib/updater/updater.go: `runApply`, which does not hold the lock, is cut where it waits: for the
-- drain and for the executor. A handler that the timer or an admin starts is one step here.
use etherpad_go.Prelude.{
  ℕ, ◌+◌, Bool, true, false, not, ◌||◌, Option, none, some, Text, codes, if◌then◌else◌, is_some,
}
use etherpad_go.Updater.Types.{
  idle, preflight_failed, draining, executing, pending_verification, ReleaseInfo, execution,
}
use etherpad_go.Updater.Window.{Clock}
use etherpad_go.Updater.Policy.{Semver}
use etherpad_go.Updater.Schedule.{
  TriggerDecision, trigger_fire, trigger_defer, trigger_abort, trigger_clear, decide_trigger_apply,
}
use etherpad_go.Updater.State.{
  exit_code_restart, Config, Worker, no_apply, in_drain, in_executor, Updater, save_locked,
  put_execution, set_execution, put_result, arm_apply_timer, cancel_apply_timer, run_preflight,
  ExecResult, exec_ok, exec_fail,
}
use etherpad_go.Updater.Checking.{policy_locked}

module _ (v : Semver) (clock : Clock) (cfg : Config) where
  unfoldable pub record_result : ReleaseInfo → Text → Text → ℕ → Updater → Updater
  record_result target outcome reason now u = save_locked (
      put_result
        (record {
          target_tag = target.tag;
          from_version = cfg.current_version;
          outcome = outcome;
          reason = reason;
          at = some now;
        })
        u)

  -- The lock is held from here on, and new connections are refused while it drains.
  abbrev pub start_drain : ReleaseInfo → ℕ → Updater → Updater
  start_drain target now u =
      record (set_execution
        (record (execution draining) {
          target_tag = target.tag;
          drain_ends_at = some (now + cfg.drain_seconds);
          at = some now;
        })
        u) { worker = in_drain target; applying = true; accepting = false }

  abbrev pub after_preflight : Option Text → ReleaseInfo → ℕ → Updater → Updater
  after_preflight none target now u = start_drain target now u
  after_preflight (some reason) target now u =
      record_result target (codes "preflight-failed") reason now (
        set_execution
          (record (execution preflight_failed) {
            target_tag = target.tag;
            reason = reason;
            at = some now;
          })
          u)

  -- `runApply` up to the drain. `locked`: the lock file is acquired without error; `writable`: the
  -- directory of the executable takes new files.
  unfoldable pub begin_apply : Bool → Bool → ReleaseInfo → ℕ → Updater → Updater
  begin_apply locked writable target now u =
      if u.applying || not locked
      then u
      else after_preflight (run_preflight u.install_method writable) target now u

  -- The worker returns: the deferred calls.
  abbrev pub leave : Updater → Updater
  leave u = record u { worker = no_apply; applying = false }

  -- `runApply` behind the drain, up to the executor.
  abbrev pub drained : Bool → ReleaseInfo → ℕ → Updater → Updater
  drained true target now u = leave (set_execution (execution idle) (record u { accepting = true }))
  drained false target now u =
      record (set_execution
        (record (execution executing) {
          target_tag = target.tag;
          from_version = cfg.current_version;
          at = some now;
        })
        (record u { accepting = true })) { worker = in_executor target }

  abbrev pub executed : ExecResult → ReleaseInfo → ℕ → Updater → Updater
  executed (exec_fail reason) target now u =
      leave (set_execution (execution idle) (record_result target (codes "failed") reason now u))
  executed (exec_ok backup) target now u =
      record (set_execution
        (record (execution pending_verification) {
          target_tag = target.tag;
          from_version = cfg.current_version;
          backup_path = backup;
          deadline_at = some (now + cfg.health_check_seconds);
          at = some now;
        })
        u) { exited = some exit_code_restart }

  abbrev pub end_drain_of : Worker → Bool → ℕ → Updater → Updater
  end_drain_of no_apply cancelled now u = u
  end_drain_of (in_drain target) cancelled now u = drained cancelled target now u
  end_drain_of (in_executor target) cancelled now u = u

  abbrev pub end_execution_of : Worker → ExecResult → ℕ → Updater → Updater
  end_execution_of no_apply result now u = u
  end_execution_of (in_drain target) result now u = u
  end_execution_of (in_executor target) result now u = executed result target now u

  unfoldable pub end_drain : Bool → ℕ → Updater → Updater
  end_drain cancelled now u = end_drain_of u.worker cancelled now u

  unfoldable pub end_execution : ExecResult → ℕ → Updater → Updater
  end_execution result now u = end_execution_of u.worker result now u

  -- `runApply` with nothing in between.
  unfoldable pub run_apply : Bool → Bool → Bool → ExecResult → ReleaseInfo → ℕ → Updater → Updater
  run_apply locked writable cancelled result target now u =
      end_execution result now (end_drain cancelled now (begin_apply locked writable target now u))

  abbrev pub trigger_decision : ℕ → Updater → TriggerDecision
  trigger_decision now u =
      let pol = policy_locked v clock cfg u in
      decide_trigger_apply clock (record {
        execution = u.state.execution;
        timer_target_tag = u.timer_target_tag;
        latest = u.state.latest;
        can_auto = pol.can_auto;
        can_autonomous = pol.can_autonomous;
        tier = cfg.tier;
        window = cfg.window;
        now = now;
      })

  abbrev pub apply_latest : Option ReleaseInfo → Bool → Bool → ℕ → Updater → Updater
  apply_latest none locked writable now u = u
  apply_latest (some target) locked writable now u = begin_apply locked writable target now u

  abbrev pub act_trigger : TriggerDecision → Bool → Bool → ℕ → Updater → Updater
  act_trigger trigger_fire locked writable now u = apply_latest u.state.latest locked writable now u
  act_trigger (trigger_defer next) locked writable now u =
      arm_apply_timer u.timer_target_tag next now u
  act_trigger trigger_abort locked writable now u = u
  act_trigger trigger_clear locked writable now u =
      save_locked (put_execution (execution idle) (cancel_apply_timer u))

  -- The timer has fired: it does not run any more.
  unfoldable pub on_apply_timer : Bool → Bool → ℕ → Updater → Updater
  on_apply_timer locked writable now u =
      let fired = record u { apply_timer = none } in
      act_trigger (trigger_decision now fired) locked writable now fired

  -- `ApplyNow`: `none` is its error.
  unfoldable pub apply_now : Bool → Bool → ℕ → Updater → Option Updater
  apply_now locked writable now u =
      let pol = policy_locked v clock cfg u in
      if not pol.can_manual || not (is_some u.state.latest)
      then none
      else some (apply_latest u.state.latest locked writable now u)
