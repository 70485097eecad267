-- ===== src/Updater/Runs/Consistency.antt =====
-- Runs of the updater: the goroutine's place, the flags and the status agree.
use etherpad_go.Prelude.{
  ℕ, Bool, true, false, not, ◌||◌, Option, none, some, Text, codes, ◌≡◌, ◌⊎◌, inl, inr, refl, sym,
  ap, subst, arith, Bool-cases,
}
use etherpad_go.Updater.Types.{ExecutionStatus, idle, executing, ReleaseInfo, Execution, execution}
use etherpad_go.Updater.Window.{Clock}
use etherpad_go.Updater.Policy.{Semver, is_rollback_failed}
use etherpad_go.Updater.Schedule.{
  in_flight, is_scheduled, ScheduleDecision, schedule_none, schedule_cancel, schedule_arm,
  ScheduleInput, TriggerDecision, trigger_fire, trigger_defer, trigger_abort, trigger_clear,
  TriggerInput, decide_schedule, decide_trigger_apply,
}
use etherpad_go.Updater.Release.{
  CheckResult, check_updated, check_prerelease, check_not_modified, check_rate_limited, check_error,
}
use etherpad_go.Updater.Decisions.{decide_schedule-Arms}
use etherpad_go.Updater.State.{
  exit_code_restart, Config, Worker, no_apply, in_drain, in_executor, Updater, save_locked,
  put_execution, set_execution, put_boot_count, arm_apply_timer, cancel_apply_timer, run_preflight,
  ExecResult, exec_ok, exec_fail, is_pending,
}
use etherpad_go.Updater.Checking.{
  schedule_decision, act_schedule, decide_schedule_locked, perform_check,
}
use etherpad_go.Updater.Applying.{
  record_result, after_preflight, begin_apply, end_drain_of, end_execution_of, end_drain,
  end_execution, trigger_decision, apply_latest, act_trigger, on_apply_timer, apply_now,
}
use etherpad_go.Updater.Boot.{rollback, mark_boot_healthy, acknowledge}
use etherpad_go.Updater.Runs.{
  Step, checked, fired, applied, drain_ended, execution_ended, healthy, unhealthy, acknowledged,
  Run, stay, then_step, busy, Agrees, Consistent,
}

-- A handler that leaves an attempt on its way alone, and makes no status busy.
abbrev Quiet : Execution → Execution → Type 0
Quiet e e' = (e' ≡ e) ⊎ (in_flight e.status ≡ false) × (busy e'.status ≡ false)

Agrees-Quiet :
    (k : Worker) (ap ac : Bool) (e e' : Execution)
    → Quiet e e'
    → Agrees k ap ac e
    → Agrees k ap ac e'
unfolding Agrees
Agrees-Quiet k ap ac e e' (inl same) h = subst (λ x. Agrees k ap ac x) (sym same) h
Agrees-Quiet no_apply ap ac e e' (inr (free, rest)) (a, b, c) = (a, b, rest)
Agrees-Quiet (in_drain r) ap ac e e' (inr (free, rest)) (a, b, st, t) = ground arith
Agrees-Quiet (in_executor r) ap ac e e' (inr (free, rest)) (a, b, st, t) = ground arith

-- With no attempt at work, a handler may set any status that is not busy.
Agrees-at_rest :
    (k : Worker) (ap ac : Bool) (e e' : Execution)
    → k ≡ no_apply
    → busy e'.status ≡ false
    → Agrees k ap ac e
    → Agrees k ap ac e'
unfolding Agrees
Agrees-at_rest no_apply ap ac e e' rest free (a, b, c) = (a, b, free)
Agrees-at_rest (in_drain r) ap ac e e' rest free h = cc
Agrees-at_rest (in_executor r) ap ac e e' rest free h = cc

Agrees-free :
    (k : Worker) (ap ac : Bool) (e : Execution) → Agrees k ap ac e → ap ≡ false → k ≡ no_apply
unfolding Agrees
Agrees-free no_apply ap ac e h free = refl
Agrees-free (in_drain r) ap ac e (a, b, st, t) free = ground arith
Agrees-free (in_executor r) ap ac e (a, b, st, t) free = ground arith

left-Agrees : Agrees no_apply false true (execution idle)
unfolding Agrees
left-Agrees = (refl, refl, refl)

began-Agrees :
    (r : ReleaseInfo) (ap ac : Bool) (e e' : Execution)
    → e'.status ≡ executing
    → e'.target_tag ≡ r.tag
    → Agrees (in_drain r) ap ac e
    → Agrees (in_executor r) ap true e'
unfolding Agrees
began-Agrees r ap ac e e' st' t' (a, b, st, t) = (a, refl, st', t')

ended-Agrees :
    (r : ReleaseInfo) (ap ac : Bool) (e : Execution)
    → Agrees (in_executor r) ap ac e
    → Agrees no_apply false ac (execution idle)
unfolding Agrees
ended-Agrees r ap ac e (a, b, st, t) = (refl, b, refl)

pending-rest :
    (k : Worker) (ap ac : Bool) (e : Execution)
    → Agrees k ap ac e
    → is_pending e.status ≡ true
    → k ≡ no_apply
unfolding Agrees
pending-rest no_apply ap ac e h waits = refl
pending-rest (in_drain r) ap ac e (a, b, st, t) waits = ground arith
pending-rest (in_executor r) ap ac e (a, b, st, t) waits = ground arith

failed-rest :
    (k : Worker) (ap ac : Bool) (e : Execution)
    → Agrees k ap ac e
    → is_rollback_failed e.status ≡ true
    → k ≡ no_apply
unfolding Agrees
failed-rest no_apply ap ac e h waits = refl
failed-rest (in_drain r) ap ac e (a, b, st, t) waits = ground arith
failed-rest (in_executor r) ap ac e (a, b, st, t) waits = ground arith

clear-is_scheduled :
    (clock : Clock) (i : TriggerInput)
    → decide_trigger_apply clock i ≡ trigger_clear
    → is_scheduled i.execution.status ≡ true
unfolding decide_trigger_apply
clear-is_scheduled clock i h = ground arith

cancel-is_scheduled :
    (clock : Clock) (i : ScheduleInput)
    → decide_schedule clock i ≡ schedule_cancel
    → is_scheduled i.execution.status ≡ true
unfolding decide_schedule
cancel-is_scheduled clock i h = ground arith

scheduled-free : (s : ExecutionStatus) → is_scheduled s ≡ true → in_flight s ≡ false
scheduled-free s h = ground arith

module _ (v : Semver) (clock : Clock) (cfg : Config) where
  act_schedule-Consistent :
      (u : Updater) (now : ℕ) (d : ScheduleDecision)
      → schedule_decision v clock cfg now u ≡ d
      → Consistent u
      → Consistent (act_schedule v clock cfg d now u)
  unfolding arm_apply_timer cancel_apply_timer
  act_schedule-Consistent u now schedule_none e h = h
  act_schedule-Consistent u now schedule_cancel e h =
      Agrees-Quiet u.worker u.applying u.accepting u.state.execution _
        (inr (scheduled-free _ (cancel-is_scheduled clock _ e), refl)) h
  act_schedule-Consistent u now (schedule_arm tag at) e h =
      Agrees-Quiet u.worker u.applying u.accepting u.state.execution _
        (inr (((decide_schedule-Arms clock _ tag at).0 e).free, refl)) h

  decide_schedule_locked-Consistent :
      (u : Updater) (now : ℕ) → Consistent u → Consistent (decide_schedule_locked v clock cfg now u)
  unfolding decide_schedule_locked
  decide_schedule_locked-Consistent u now h =
      act_schedule-Consistent u now (schedule_decision v clock cfg now u) refl h

  pub perform_check-Consistent :
      (r : CheckResult) (now : ℕ) (u : Updater)
      → Consistent u
      → Consistent (perform_check v clock cfg r now u)
  unfolding perform_check save_locked
  perform_check-Consistent (check_updated r etag) now u h =
      decide_schedule_locked-Consistent _ now h
  perform_check-Consistent (check_prerelease etag) now u h =
      decide_schedule_locked-Consistent _ now h
  perform_check-Consistent check_not_modified now u h = decide_schedule_locked-Consistent _ now h
  perform_check-Consistent check_rate_limited now u h = h
  perform_check-Consistent check_error now u h = h

  after_preflight-Consistent :
      (o : Option Text) (target : ReleaseInfo) (now : ℕ) (u : Updater)
      → u.worker ≡ no_apply
      → Consistent u
      → Consistent (after_preflight v clock cfg o target now u)
  unfolding set_execution record_result save_locked Agrees
  after_preflight-Consistent none target now u rest h = (refl, refl, refl, refl)
  after_preflight-Consistent (some reason) target now u rest h =
      Agrees-at_rest u.worker u.applying u.accepting u.state.execution _ rest refl h

  begin_apply-Consistent :
      (locked writable : Bool) (target : ReleaseInfo) (now : ℕ) (u : Updater)
      → Consistent u
      → Consistent (begin_apply v clock cfg locked writable target now u)
  unfolding begin_apply
  begin_apply-Consistent locked writable target now u h =
      elim (Bool-cases (u.applying || not locked)) [
        | inl out ↦ rw (out) h
        | inr free ↦ rw (free) (
            after_preflight-Consistent (run_preflight u.install_method writable) target now u
              (Agrees-free u.worker u.applying u.accepting u.state.execution h (ground arith)) h)
      ]

  apply_latest-Consistent :
      (o : Option ReleaseInfo) (locked writable : Bool) (now : ℕ) (u : Updater)
      → Consistent u
      → Consistent (apply_latest v clock cfg o locked writable now u)
  apply_latest-Consistent none locked writable now u h = h
  apply_latest-Consistent (some r) locked writable now u h =
      begin_apply-Consistent locked writable r now u h

  act_trigger-Consistent :
      (locked writable : Bool) (now : ℕ) (u : Updater) (d : TriggerDecision)
      → trigger_decision v clock cfg now u ≡ d
      → Consistent u
      → Consistent (act_trigger v clock cfg d locked writable now u)
  unfolding arm_apply_timer cancel_apply_timer save_locked
  act_trigger-Consistent locked writable now u trigger_fire e h =
      apply_latest-Consistent u.state.latest locked writable now u h
  act_trigger-Consistent locked writable now u (trigger_defer next) e h = h
  act_trigger-Consistent locked writable now u trigger_abort e h = h
  act_trigger-Consistent locked writable now u trigger_clear e h =
      Agrees-Quiet u.worker u.applying u.accepting u.state.execution _
        (inr (scheduled-free _ (clear-is_scheduled clock _ e), refl)) h

  on_apply_timer-Consistent :
      (locked writable : Bool) (now : ℕ) (u : Updater)
      → Consistent u
      → Consistent (on_apply_timer v clock cfg locked writable now u)
  unfolding on_apply_timer
  on_apply_timer-Consistent locked writable now u h =
      act_trigger-Consistent locked writable now (record u { apply_timer = none })
        (trigger_decision v clock cfg now (record u { apply_timer = none })) refl h

  apply_now-Consistent :
      (locked writable : Bool) (now : ℕ) (u w : Updater)
      → apply_now v clock cfg locked writable now u ≡ some w
      → Consistent u
      → Consistent w
  unfolding apply_now
  apply_now-Consistent locked writable now u w e h =
      subst (λ x. Consistent x) (result e)
        (apply_latest-Consistent u.state.latest locked writable now u h)
    where
      result :
          apply_now v clock cfg locked writable now u ≡ some w
          → apply_latest v clock cfg u.state.latest locked writable now u ≡ w
      result e = ground arith

  end_drain-Consistent :
      (cancelled : Bool) (now : ℕ) (u : Updater)
      → Consistent u
      → Consistent (end_drain v clock cfg cancelled now u)
  unfolding end_drain set_execution save_locked
  end_drain-Consistent cancelled now u h = at u.worker cancelled h h
    where
      at :
          (k : Worker) (cancelled : Bool)
          → Consistent u
          → Agrees k u.applying u.accepting u.state.execution
          → Consistent (end_drain_of v clock cfg k cancelled now u)
      at no_apply cancelled h k = h
      at (in_drain target) true h k = left-Agrees
      at (in_drain target) false h k =
          began-Agrees target u.applying u.accepting u.state.execution _ refl refl k
      at (in_executor target) cancelled h k = h

  end_execution-Consistent :
      (result : ExecResult) (now : ℕ) (u : Updater)
      → Consistent u
      → (end_execution v clock cfg result now u).exited ≡ none
      → Consistent (end_execution v clock cfg result now u)
  unfolding end_execution set_execution record_result save_locked
  end_execution-Consistent result now u h = at u.worker result h h
    where
      at :
          (k : Worker) (result : ExecResult)
          → Consistent u
          → Agrees k u.applying u.accepting u.state.execution
          → (end_execution_of v clock cfg k result now u).exited ≡ none
          → Consistent (end_execution_of v clock cfg k result now u)
      at no_apply result h k e = h
      at (in_drain target) result h k e = h
      at (in_executor target) (exec_ok backup) h k e = cc
      at (in_executor target) (exec_fail reason) h k e =
          ended-Agrees target u.applying u.accepting u.state.execution k

  mark_boot_healthy-Consistent :
      (now : ℕ) (u : Updater) → Consistent u → Consistent (mark_boot_healthy cfg now u)
  unfolding mark_boot_healthy save_locked
  mark_boot_healthy-Consistent now u h = elim (Bool-cases (is_pending u.state.execution.status)) [
    | inl waits ↦ rw (waits) (
        Agrees-at_rest u.worker u.applying u.accepting u.state.execution _
          (pending-rest u.worker u.applying u.accepting u.state.execution h waits) refl h)
    | inr other ↦ rw (other) h
  ]

  acknowledge-Consistent :
      (u w : Updater) → acknowledge cfg u ≡ some w → Consistent u → Consistent w
  unfolding acknowledge save_locked
  acknowledge-Consistent u w e h =
      subst (λ x. Consistent x) (result e)
        (Agrees-at_rest u.worker u.applying u.accepting u.state.execution _
          (failed-rest u.worker u.applying u.accepting u.state.execution h (failed e)) refl h)
    where
      failed : acknowledge cfg u ≡ some w → is_rollback_failed u.state.execution.status ≡ true
      failed e = ground arith

      result :
          acknowledge cfg u ≡ some w
          → save_locked (put_boot_count 0 (put_execution (execution idle) u)) ≡ w
      result e = ground arith

  rollback-exited :
      (reason : Text) (error : Option Text) (now : ℕ) (u : Updater)
      → (rollback cfg reason error now u).exited ≡ some exit_code_restart
  unfolding rollback
  rollback-exited reason error now u = refl

  pub Step-Consistent :
      (u w : Updater) → Step v clock cfg u w → w.exited ≡ none → Consistent u → Consistent w
  Step-Consistent u w (checked _ r now) e h = perform_check-Consistent r now u h
  Step-Consistent u w (fired _ due now locked writable _ _) e h =
      on_apply_timer-Consistent locked writable now u h
  Step-Consistent u w (applied _ _ locked writable now a) e h =
      apply_now-Consistent locked writable now u w a h
  Step-Consistent u w (drain_ended _ cancelled now) e h = end_drain-Consistent cancelled now u h
  Step-Consistent u w (execution_ended _ result now) e h = end_execution-Consistent result now u h e
  Step-Consistent u w (healthy _ now) e h = mark_boot_healthy-Consistent now u h
  Step-Consistent u w (unhealthy _ due now error _ _) e h =
      let out = rollback-exited (codes "health-check-timeout") error now u in cc
  Step-Consistent u w (acknowledged _ _ a) e h = acknowledge-Consistent u w a h

  -- Whatever order the handlers of a running process come in, from a consistent state the goroutine's
  -- place, the flags `applying` and `accepting`, and the status agree: a busy status has a
  -- goroutine at work, which applies the release that the state names.
  pub Run-Consistent : (u w : Updater) → Run v clock cfg u w → Consistent u → Consistent w
  Run-Consistent u w (stay _) h = h
  Run-Consistent u w (then_step _ x _ r s e) h = Step-Consistent x w s e (Run-Consistent u x r h)
