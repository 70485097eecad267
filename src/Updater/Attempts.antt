-- ===== src/Updater/Attempts.antt =====
-- What an attempt to update comes to, over the handlers of lib/updater/updater.go.
use etherpad_go.Prelude.{
  ℕ, zero, suc, Bool, true, false, not, ◌||◌, Option, none, some, List, [], ◌∷◌, ◌++◌, map, Text,
  if◌then◌else◌, ◌≡◌, refl, sym, ap, ◌∙◌, subst,
}
use etherpad_go.Updater.Types.{
  InstallMethod, ExecutionStatus, idle, preflight_failed, draining, executing, pending_verification,
  ReleaseInfo, UpdateState,
}
use etherpad_go.Updater.Window.{Clock}
use etherpad_go.Updater.Policy.{Semver}
use etherpad_go.Updater.State.{
  exit_code_restart, Config, no_apply, Updater, status_of, save_locked, set_execution,
  run_preflight, ExecResult, exec_ok, exec_fail,
}
use etherpad_go.Updater.Applying.{
  record_result, after_preflight, begin_apply, end_drain_of, end_execution_of, end_drain,
  end_execution, run_apply,
}
use etherpad_go.Updater.Boot.{start}

-- What `runApply` leaves that is not interrupted, on each of its paths: the status, the exit code, and
-- the statuses that it saved, the last one first.
pub record Outcome : Type 0 where
  pub status : ExecutionStatus
  pub exit_code : Option ℕ
  pub saved : List ExecutionStatus

abbrev pub outcome : ExecutionStatus → Bool → Option Text → Bool → ExecResult → Outcome
outcome before false pf cancelled result = record { status = before; exit_code = none; saved = [] }
outcome before true (some reason) cancelled result = record {
  status = preflight_failed;
  exit_code = none;
  saved = preflight_failed ∷ preflight_failed ∷ [];
}
outcome before true none true result = record {
  status = idle;
  exit_code = none;
  saved = idle ∷ draining ∷ [];
}
outcome before true none false (exec_fail reason) = record {
  status = idle;
  exit_code = none;
  saved = idle ∷ executing ∷ executing ∷ draining ∷ [];
}
outcome before true none false (exec_ok backup) = record {
  status = pending_verification;
  exit_code = some exit_code_restart;
  saved = pending_verification ∷ executing ∷ draining ∷ [];
}

abbrev pub statuses : List UpdateState → List ExecutionStatus
statuses saves = map (λ s. s.execution.status) saves

pub record Ends (before : Updater) (o : Outcome) (after : Updater) : Type 0 where
  pub open_again : after.accepting ≡ true
  pub status_is : status_of after ≡ o.status
  pub exits : after.exited ≡ o.exit_code
  pub saves_are : statuses after.saves ≡ o.saved ++ statuses before.saves

-- An updater whose process runs and that applies nothing.
pub record Free (u : Updater) : Type 0 where
  pub free : u.applying ≡ false
  pub at_rest : u.worker ≡ no_apply
  pub open_ : u.accepting ≡ true
  pub running : u.exited ≡ none

module _ (v : Semver) (clock : Clock) (cfg : Config) where
  abbrev rest_of_apply : Bool → ExecResult → ℕ → Updater → Updater
  rest_of_apply cancelled result now u =
      end_execution v clock cfg result now (end_drain v clock cfg cancelled now u)

  at_rest-same :
      (cancelled : Bool) (result : ExecResult) (now : ℕ) (u : Updater)
      → u.worker ≡ no_apply
      → rest_of_apply cancelled result now u ≡ u
  unfolding end_execution end_drain
  at_rest-same cancelled result now u rest =
      ap (λ x. end_execution_of v clock cfg x.worker result now x)
        (ap (λ k. end_drain_of v clock cfg k cancelled now u) rest)
      ∙ ap (λ k. end_execution_of v clock cfg k result now u) rest

  preflight-Ends :
      (pf : Option Text) (cancelled : Bool) (result : ExecResult) (target : ReleaseInfo) (now : ℕ)
      (u : Updater)
      → Free u
      → Ends u
          (outcome (status_of u) true pf cancelled result)
          (rest_of_apply cancelled result now (after_preflight v clock cfg pf target now u))
  unfolding end_execution end_drain set_execution record_result save_locked
  preflight-Ends (some reason) cancelled result target now u f =
      subst (λ x. Ends u (outcome (status_of u) true (some reason) cancelled result) x)
        (sym (
          at_rest-same cancelled result now (after_preflight v clock cfg (some reason) target now u)
            f.at_rest))
        (record { open_again = f.open_; status_is = refl; exits = f.running; saves_are = refl })
  preflight-Ends none true result target now u f = record {
    open_again = refl;
    status_is = refl;
    exits = f.running;
    saves_are = refl;
  }
  preflight-Ends none false (exec_fail reason) target now u f = record {
    open_again = refl;
    status_is = refl;
    exits = f.running;
    saves_are = refl;
  }
  preflight-Ends none false (exec_ok backup) target now u f = record {
    open_again = refl;
    status_is = refl;
    exits = refl;
    saves_are = refl;
  }

  -- `runApply`, not interrupted, on an updater that applies nothing: on each path it ends with the
  -- connections accepted, in the status and after the saves that the outcome names; the process
  -- exits with 75 only where the executor has replaced the binary.
  pub run_apply-Ends :
      (locked writable cancelled : Bool) (result : ExecResult) (target : ReleaseInfo) (now : ℕ)
      (u : Updater)
      → Free u
      → Ends u
          (outcome (status_of u) locked (run_preflight u.install_method writable) cancelled result)
          (run_apply v clock cfg locked writable cancelled result target now u)
  unfolding run_apply begin_apply
  run_apply-Ends locked writable cancelled result target now u f =
      subst
        (λ b.
          Ends u
            (outcome (status_of u) locked (run_preflight u.install_method writable) cancelled
              result)
            (rest_of_apply cancelled result now (
              if b || not locked
              then u
              else after_preflight v clock cfg (run_preflight u.install_method writable) target now
                  u)))
        (sym f.free) (at locked)
    where
      at :
          (l : Bool)
          → Ends u
              (outcome (status_of u) l (run_preflight u.install_method writable) cancelled result)
              (rest_of_apply cancelled result now (
                if false || not l
                then u
                else after_preflight v clock cfg
                    (run_preflight u.install_method writable)
                    target
                    now
                    u))
      at false =
          subst
            (λ x.
              Ends u
                (outcome (status_of u) false (run_preflight u.install_method writable) cancelled
                  result)
                x)
            (sym (at_rest-same cancelled result now u f.at_rest))
            (record { open_again = f.open_; status_is = refl; exits = f.running; saves_are = refl })
      at true =
          preflight-Ends (run_preflight u.install_method writable) cancelled result target now u f

-- What `start` finds, before it looks for an update to verify.
abbrev pub loaded : InstallMethod → UpdateState → Updater
loaded method s = record {
  install_method = method;
  state = s;
  apply_timer = none;
  health_timer = none;
  timer_target_tag = [];
  accepting = true;
  applying = false;
  worker = no_apply;
  saves = [];
  exited = none;
}

module _ (cfg : Config) where
  -- The state after `n` more boots of a process that is killed before it is healthy: each boot reads
  -- what the last one saved. `error` is what a rollback returns.
  unfoldable pub boots : InstallMethod → Option Text → ℕ → ℕ → UpdateState → UpdateState
  boots method error now zero s = s
  boots method error now (suc n) s = (start cfg method (boots method error now n s) error now).state
