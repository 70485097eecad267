-- ===== src/Updater/Boot.antt =====
-- lib/updater/updater.go: the verification of an update after a restart, and the rollback.
use etherpad_go.Prelude.{
  ℕ, ◌+◌, true, false, not, Option, none, some, [], Text, codes, if◌then◌else◌, ltb, ◌==◌,
}
use etherpad_go.Updater.Types.{
  InstallMethod, idle, verified, rolling_back, rolled_back, rollback_failed, Execution, execution,
  UpdateState,
}
use etherpad_go.Updater.Policy.{is_rollback_failed}
use etherpad_go.Updater.State.{
  exit_code_restart, max_boots, Config, no_apply, Updater, status_of, save_locked, put_execution,
  set_execution, put_result, put_boot_count, is_pending,
}

module _ (cfg : Config) where
  abbrev pub finish_rollback : Execution → Text → Option Text → ℕ → Updater → Updater
  finish_rollback exec reason (some error) now u = save_locked (
      put_result
        (record {
          target_tag = exec.target_tag;
          from_version = exec.from_version;
          outcome = codes "rollback-failed";
          reason = error;
          at = some now;
        })
        (put_execution
          (record (execution rollback_failed) {
            target_tag = exec.target_tag;
            reason = error;
            at = some now;
          })
          u))
  finish_rollback exec reason none now u = save_locked (
      put_result
        (record {
          target_tag = exec.target_tag;
          from_version = exec.from_version;
          outcome = codes "rolled-back";
          reason = reason;
          at = some now;
        })
        (put_boot_count 0 (
          put_execution
            (record (execution rolled_back) {
              target_tag = exec.target_tag;
              reason = reason;
              at = some now;
            })
            u)))

  -- `error` is what the executor's `Rollback` returns.
  unfoldable pub rollback : Text → Option Text → ℕ → Updater → Updater
  rollback reason error now u =
      let exec = u.state.execution in
      record (finish_rollback exec reason error now (
        set_execution
          (record (execution rolling_back) {
            target_tag = exec.target_tag;
            from_version = exec.from_version;
            backup_path = exec.backup_path;
            reason = reason;
            at = some now;
          })
          u)) { exited = some exit_code_restart }

  abbrev pub health_seconds : ℕ
  health_seconds = if cfg.health_check_seconds == 0 then 60 else cfg.health_check_seconds

  abbrev pub count_boot : Updater → Updater
  count_boot u = save_locked (put_boot_count (1 + u.state.boot_count) u)

  unfoldable pub check_pending_verification : Option Text → ℕ → Updater → Updater
  check_pending_verification error now u =
      if not (is_pending (status_of u))
      then u
      else if ltb max_boots (1 + u.state.boot_count)
      then rollback (codes "health-check-failed-or-crash-loop") error now (count_boot u)
      else record (count_boot u) { health_timer = some (now + health_seconds) }

  -- `New` and `Start` before the polling, on the state that `LoadState` read.
  unfoldable pub start : InstallMethod → UpdateState → Option Text → ℕ → Updater
  start method loaded error now = check_pending_verification error now (record {
    install_method = method;
    state = loaded;
    apply_timer = none;
    health_timer = none;
    timer_target_tag = [];
    accepting = true;
    applying = false;
    worker = no_apply;
    saves = [];
    exited = none;
  })

  unfoldable pub mark_boot_healthy : ℕ → Updater → Updater
  mark_boot_healthy now u =
      let exec = u.state.execution in
      if not (is_pending (status_of u))
      then u
      else save_locked (
          put_result
            (record {
              target_tag = exec.target_tag;
              from_version = exec.from_version;
              outcome = codes "verified";
              reason = [];
              at = some now;
            })
            (put_boot_count 0 (
              put_execution
                (record (execution verified) { target_tag = exec.target_tag; at = some now })
                (record u { health_timer = none }))))

  -- `Acknowledge`: `none` is its error.
  unfoldable pub acknowledge : Updater → Option Updater
  acknowledge u =
      if not (is_rollback_failed (status_of u))
      then none
      else some (save_locked (put_boot_count 0 (put_execution (execution idle) u)))
