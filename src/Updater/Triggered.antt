-- ===== src/Updater/Triggered.antt =====
-- What the timer of lib/updater/updater.go starts, and when it is not armed.
use etherpad_go.Prelude.{
  ℕ, Bool, true, false, not, ◌&&◌, ◌||◌, Option, none, some, List, [], ◌∷◌, Text, text_eq,
  if◌then◌else◌, ◌≡◌, refl, sym, ap, ◌∙◌, subst, arith, text_eq→eq,
}
use etherpad_go.Updater.Types.{InstallMethod, ExecutionStatus, ReleaseInfo, UpdateState}
use etherpad_go.Updater.Window.{Clock}
use etherpad_go.Updater.Policy.{Semver}
use etherpad_go.Updater.Schedule.{
  is_scheduled, is_autonomous, schedule_none, ScheduleInput, TriggerDecision, trigger_fire,
  trigger_defer, trigger_abort, trigger_clear, outside, decide_schedule,
}
use etherpad_go.Updater.Release.{
  CheckResult, check_updated, check_prerelease, check_not_modified, check_rate_limited, check_error,
}
use etherpad_go.Updater.Decisions.{decide_trigger_apply-Fires}
use etherpad_go.Updater.State.{
  Config, no_apply, in_drain, Updater, status_of, save_locked, set_execution, arm_apply_timer,
  cancel_apply_timer, run_preflight, is_pending,
}
use etherpad_go.Updater.Checking.{
  policy_locked, schedule_decision, act_schedule, decide_schedule_locked, put_check, perform_check,
}
use etherpad_go.Updater.Applying.{
  record_result, after_preflight, begin_apply, trigger_decision, apply_latest, act_trigger,
  on_apply_timer,
}
use etherpad_go.Updater.Boot.{check_pending_verification, start}
use etherpad_go.Updater.Attempts.{loaded}

-- What holds when the timer starts the update to a release.
pub record Triggered (v : Semver) (clock : Clock) (cfg : Config) (locked writable : Bool) (now : ℕ)
    (u : Updater) (r : ReleaseInfo) : Type 0 where
  pub latest_release : u.state.latest ≡ some r
  pub is_due : is_scheduled (status_of u) ≡ true
  pub its_tag : text_eq u.state.execution.target_tag r.tag ≡ true
  pub allowed : (policy_locked v clock cfg u).can_auto ≡ true
  pub in_time : (is_autonomous cfg.tier && outside clock cfg.window now) ≡ false
  pub replaceable : run_preflight u.install_method writable ≡ none
  pub has_lock : locked ≡ true

begin_apply-drains :
    (v : Semver) (clock : Clock) (cfg : Config) (locked writable : Bool) (t : ReleaseInfo) (now : ℕ)
    (u : Updater) (r : ReleaseInfo)
    → u.worker ≡ no_apply
    → (begin_apply v clock cfg locked writable t now u).worker ≡ in_drain r
    → (t ≡ r) × (run_preflight u.install_method writable ≡ none) × (locked ≡ true)
unfolding begin_apply set_execution record_result save_locked
begin_apply-drains v clock cfg locked writable t now u r rest h =
    at (u.applying || not locked) refl (run_preflight u.install_method writable) refl h
  where
    at :
        (b : Bool)
        → (u.applying || not locked) ≡ b
        → (o : Option Text) → run_preflight u.install_method writable ≡ o
        → (if b then u else after_preflight v clock cfg o t now u).worker ≡ in_drain r
        → (t ≡ r) × (run_preflight u.install_method writable ≡ none) × (locked ≡ true)
    at true e o p h = cc
    at false e none p h = (cc, p, ground arith)
    at false e (some reason) p h = cc

act_trigger-drains :
    (v : Semver) (clock : Clock) (cfg : Config) (locked writable : Bool) (now : ℕ) (u : Updater)
    (r : ReleaseInfo) (d : TriggerDecision)
    → trigger_decision v clock cfg now u ≡ d
    → u.worker ≡ no_apply
    → (act_trigger v clock cfg d locked writable now u).worker ≡ in_drain r
    → Triggered v clock cfg locked writable now u r
unfolding arm_apply_timer cancel_apply_timer save_locked
act_trigger-drains v clock cfg locked writable now u r trigger_fire e rest h =
    let f = (decide_trigger_apply-Fires clock _).0 e in
    let same : apply_latest v clock cfg (some f.release) locked writable now u
        ≡ apply_latest v clock cfg u.state.latest locked writable now u =
      ap (λ o. apply_latest v clock cfg o locked writable now u) (sym f.known) in
    let (target, pf, held) =
      begin_apply-drains v clock cfg locked writable f.release now u r rest
        (ap (λ x. x.worker) same ∙ h) in
    record {
      latest_release = f.known ∙ ap (λ x. some x) target;
      is_due = f.scheduled_state;
      its_tag =
          subst (λ x. text_eq u.state.execution.target_tag x ≡ true)
            (sym (text_eq→eq f.release.tag u.timer_target_tag f.still_latest)
              ∙ ap (λ x. x.tag) target)
            f.same_tag;
      allowed = f.allowed;
      in_time = f.in_time;
      replaceable = pf;
      has_lock = held;
    }
act_trigger-drains v clock cfg locked writable now u r (trigger_defer next) e rest h = cc
act_trigger-drains v clock cfg locked writable now u r trigger_abort e rest h = cc
act_trigger-drains v clock cfg locked writable now u r trigger_clear e rest h = cc

-- The timer starts an update only to the latest release, while the state is scheduled for its tag,
-- automatic updates are allowed, an autonomous one is not outside its window, the preflight passes and
-- the lock file is acquired.
pub on_apply_timer-Triggered :
    (v : Semver) (clock : Clock) (cfg : Config) (locked writable : Bool) (now : ℕ) (u : Updater)
    (r : ReleaseInfo)
    → u.worker ≡ no_apply
    → (on_apply_timer v clock cfg locked writable now u).worker ≡ in_drain r
    → Triggered v clock cfg locked writable now u r
unfolding on_apply_timer policy_locked
on_apply_timer-Triggered v clock cfg locked writable now u r rest h =
    let t =
      act_trigger-drains v clock cfg locked writable now (record u { apply_timer = none }) r
        (trigger_decision v clock cfg now (record u { apply_timer = none })) refl rest h in
    record {
      latest_release = t.latest_release;
      is_due = t.is_due;
      its_tag = t.its_tag;
      allowed = t.allowed;
      in_time = t.in_time;
      replaceable = t.replaceable;
      has_lock = t.has_lock;
    }

-- A release check that tells of no release.
abbrev pub tells_none : CheckResult → Bool
tells_none (check_updated r etag) = false
tells_none (check_prerelease etag) = true
tells_none check_not_modified = true
tells_none check_rate_limited = true
tells_none check_error = true

-- An update is scheduled for the latest release, and no timer runs.
pub record Unarmed (v : Semver) (clock : Clock) (cfg : Config) (u : Updater) : Type 0 where
  pub no_timer : u.apply_timer ≡ none
  pub is_waiting : is_scheduled (status_of u) ≡ true
  pub release : ReleaseInfo
  pub known : u.state.latest ≡ some release
  pub its_tag : text_eq u.state.execution.target_tag release.tag ≡ true
  pub allowed : (policy_locked v clock cfg u).can_auto ≡ true

decide-none :
    (clock : Clock) (i : ScheduleInput) (r : ReleaseInfo)
    → i.latest ≡ some r
    → i.can_auto ≡ true
    → is_scheduled i.execution.status ≡ true
    → text_eq i.execution.target_tag r.tag ≡ true
    → decide_schedule clock i ≡ schedule_none
unfolding decide_schedule
decide-none clock i r known allowed waits tag = ground arith

scheduled-other : (s : ExecutionStatus) → is_scheduled s ≡ true → is_pending s ≡ false
scheduled-other s h = ground arith

module _ (v : Semver) (clock : Clock) (cfg : Config) where
  Unarmed-decide :
      (now : ℕ) (u : Updater)
      → Unarmed v clock cfg u
      → Unarmed v clock cfg (decide_schedule_locked v clock cfg now u)
  unfolding decide_schedule_locked
  Unarmed-decide now u h =
      let left : schedule_decision v clock cfg now u ≡ schedule_none =
        decide-none clock _ h.release h.known h.allowed h.is_waiting h.its_tag in
      subst (λ d. Unarmed v clock cfg (act_schedule v clock cfg d now u)) (sym left) h

  Unarmed-put :
      (now : ℕ) (etag : Text) (u : Updater)
      → Unarmed v clock cfg u
      → Unarmed v clock cfg (put_check v clock cfg now etag u.state.latest u)
  unfolding policy_locked
  Unarmed-put now etag u h = record {
    no_timer = h.no_timer;
    is_waiting = h.is_waiting;
    release = h.release;
    known = h.known;
    its_tag = h.its_tag;
    allowed = h.allowed;
  }

  Unarmed-save : (u : Updater) → Unarmed v clock cfg u → Unarmed v clock cfg (save_locked u)
  unfolding policy_locked save_locked
  Unarmed-save u h = record {
    no_timer = h.no_timer;
    is_waiting = h.is_waiting;
    release = h.release;
    known = h.known;
    its_tag = h.its_tag;
    allowed = h.allowed;
  }

  Unarmed-check :
      (r : CheckResult) (now : ℕ) (u : Updater)
      → tells_none r ≡ true
      → Unarmed v clock cfg u
      → Unarmed v clock cfg (perform_check v clock cfg r now u)
  unfolding perform_check
  Unarmed-check (check_updated r etag) now u same h = ground arith
  Unarmed-check (check_prerelease etag) now u same h =
      Unarmed-save _ (Unarmed-decide now _ (Unarmed-put now _ u h))
  Unarmed-check check_not_modified now u same h =
      Unarmed-save _ (Unarmed-decide now _ (Unarmed-put now _ u h))
  Unarmed-check check_rate_limited now u same h = Unarmed-save _ (Unarmed-put now _ u h)
  Unarmed-check check_error now u same h = Unarmed-save _ (Unarmed-put now _ u h)

  start-loaded :
      (method : InstallMethod) (s : UpdateState) (error : Option Text) (now : ℕ)
      → is_scheduled s.execution.status ≡ true
      → start cfg method s error now ≡ loaded method s
  unfolding start check_pending_verification
  start-loaded method s error now waits =
      let other : is_pending s.execution.status ≡ false =
        scheduled-other s.execution.status waits in
      rw (other) refl

  -- The checks of the polling loop, one after another, each with its time.
  unfoldable pub poll : List (CheckResult × ℕ) → Updater → Updater
  poll [] u = u
  poll ((r, now) ∷ checks) u = poll checks (perform_check v clock cfg r now u)

  unfoldable pub AllTellNone : List (CheckResult × ℕ) → Type 0
  AllTellNone [] = Unit {0}
  AllTellNone ((r, now) ∷ checks) = (tells_none r ≡ true) × AllTellNone checks

  poll-Unarmed :
      (checks : List (CheckResult × ℕ)) (u : Updater)
      → AllTellNone checks
      → Unarmed v clock cfg u
      → Unarmed v clock cfg (poll checks u)
  unfolding poll AllTellNone
  poll-Unarmed [] u all h = h
  poll-Unarmed ((r, now) ∷ checks) u (one, all) h =
      poll-Unarmed checks _ all (Unarmed-check r now u one h)

  -- An update that is scheduled for the latest release when the process stops is not armed again: with
  -- automatic updates allowed at the next boot, no timer runs then, and none after any release
  -- checks that tell of no release.
  pub start-Unarmed :
      (method : InstallMethod) (s : UpdateState) (error : Option Text) (now : ℕ)
      (checks : List (CheckResult × ℕ)) (r : ReleaseInfo)
      → is_scheduled s.execution.status ≡ true
      → s.latest ≡ some r
      → text_eq s.execution.target_tag r.tag ≡ true
      → (policy_locked v clock cfg (start cfg method s error now)).can_auto ≡ true
      → AllTellNone checks
      → (poll checks (start cfg method s error now)).apply_timer ≡ none
  start-Unarmed method s error now checks r waits known tag allowed all =
      (poll-Unarmed checks (start cfg method s error now) all (record {
        no_timer = ap (λ u. u.apply_timer) same;
        is_waiting = ap (λ u. is_scheduled (status_of u)) same ∙ waits;
        release = r;
        known = ap (λ u. u.state.latest) same ∙ known;
        its_tag = ap (λ u. text_eq u.state.execution.target_tag r.tag) same ∙ tag;
        allowed = allowed;
      })).no_timer
    where
      same : start cfg method s error now ≡ loaded method s
      same = start-loaded method s error now waits
