-- ===== src/Updater/Decisions.antt =====
-- What the pure decisions of policy.go, scheduler.go and window.go guarantee.
use etherpad_go.Prelude.{
  ℕ, ◌+◌, ◌*◌, ◌≤◌, Bool, true, false, not, ◌&&◌, Option, none, some, Text, text_eq, codes,
  if◌then◌else◌, ◌≡◌, ◌↔◌, ◌⊎◌, inl, inr, refl, sym, subst, arith, Bool-cases,
}
use etherpad_go.Updater.Types.{
  Tier, tier_off, tier_notify, tier_manual, tier_auto, tier_autonomous, InstallMethod, install_auto,
  install_binary, install_docker, install_managed, ReleaseInfo,
}
use etherpad_go.Updater.Window.Bounds.{Utc, ValidWindow, next_window_start-in_window}
use etherpad_go.Updater.Window.{MaintenanceWindow, in_window, utc, Clock}
use etherpad_go.Updater.Policy.{
  Semver, update_available, PolicyInput, refused, notify, is_rollback_failed, tier_policy,
  method_policy, latest_policy, is_off, evaluate_policy,
}
use etherpad_go.Updater.Schedule.{
  in_flight, is_scheduled, is_autonomous, schedule_arm, ScheduleInput, trigger_fire, TriggerInput,
  outside, decide_schedule, scheduled_time, next_start, decide_trigger_apply,
}

pub record Automatic (v : Semver) (i : PolicyInput) : Type 0 where
  pub release : ReleaseInfo
  pub known : i.latest ≡ some release
  pub newer_version : update_available v i.current_version release.version ≡ true
  pub replaceable : i.install_method ≡ install_binary
  pub not_failed : is_rollback_failed i.execution_status ≡ false
  pub tier_allows : (i.tier ≡ tier_auto) ⊎ (i.tier ≡ tier_autonomous) × (i.window_valid ≡ true)

-- The tier allows an update without an admin, and no rollback has failed.
abbrev TierAllows : Tier → PolicyInput → Type 0
TierAllows t i =
    (is_rollback_failed i.execution_status ≡ false)
    × ((t ≡ tier_auto) ⊎ (t ≡ tier_autonomous) × (i.window_valid ≡ true))

tier_policy-can_auto :
    (t : Tier) (i : PolicyInput)
    → (tier_policy t i (notify (codes "ok"))).can_auto ≡ true
    → TierAllows t i
tier_policy-can_auto tier_off i h = ground arith
tier_policy-can_auto tier_notify i h = ground arith
tier_policy-can_auto tier_manual i h = ground arith
tier_policy-can_auto tier_auto i h = ground arith
tier_policy-can_auto tier_autonomous i h = ground arith

tier_policy-allows :
    (t : Tier) (i : PolicyInput)
    → TierAllows t i
    → (tier_policy t i (notify (codes "ok"))).can_auto ≡ true
tier_policy-allows t i (ok, inl e) = rw (e, ok)
tier_policy-allows t i (ok, inr (e, valid)) = rw (e, valid, ok)

method_policy-can_auto :
    (m : InstallMethod) (i : PolicyInput)
    → (method_policy m i).can_auto ≡ true
    → (m ≡ install_binary) × TierAllows i.tier i
method_policy-can_auto install_binary i h = (refl, tier_policy-can_auto i.tier i h)
method_policy-can_auto install_auto i h = ground arith
method_policy-can_auto install_docker i h = ground arith
method_policy-can_auto install_managed i h = ground arith

latest_policy-can_auto :
    (v : Semver) (l : Option ReleaseInfo) (i : PolicyInput)
    → (latest_policy v l i).can_auto ≡ true
    → (r : ReleaseInfo) × (l ≡ some r)
      × (update_available v i.current_version r.version ≡ true)
      × (i.install_method ≡ install_binary)
      × TierAllows i.tier i
latest_policy-can_auto v none i h = ground arith
latest_policy-can_auto v (some r) i h =
    elim (Bool-cases (update_available v i.current_version r.version)) [
      | inl new ↦
          let allowed : (method_policy i.install_method i).can_auto ≡ true =
            subst
              (λ b.
                (if not b
                  then refused (codes "up-to-date")
                  else method_policy i.install_method i).can_auto
                ≡ true)
              new h in
          let (m, t) = method_policy-can_auto i.install_method i allowed in (r, refl, new, m, t)
      | inr old ↦ ground arith
    ]

abbrev automatic :
    (v : Semver) (i : PolicyInput)
    → ((r : ReleaseInfo) × (i.latest ≡ some r)
        × (update_available v i.current_version r.version ≡ true)
        × (i.install_method ≡ install_binary)
        × TierAllows i.tier i)
    → Automatic v i
automatic v i (r, known, new, m, (ok, t)) = record {
  release = r;
  known = known;
  newer_version = new;
  replaceable = m;
  not_failed = ok;
  tier_allows = t;
}

latest_policy-allows :
    (v : Semver) (l : Option ReleaseInfo) (i : PolicyInput) (r : ReleaseInfo)
    → l ≡ some r
    → update_available v i.current_version r.version ≡ true
    → i.install_method ≡ install_binary
    → TierAllows i.tier i
    → (latest_policy v l i).can_auto ≡ true
latest_policy-allows v l i r known new m t =
    subst (λ x. (latest_policy v x i).can_auto ≡ true) (sym known)
      (subst
        (λ b.
          (if not b
            then refused (codes "up-to-date")
            else method_policy i.install_method i).can_auto
          ≡ true)
        (sym new)
        (subst (λ x. (method_policy x i).can_auto ≡ true) (sym m) (tier_policy-allows i.tier i t)))

evaluate-allows :
    (v : Semver) (t : Tier) (i : PolicyInput)
    → is_off t ≡ false
    → (latest_policy v i.latest i).can_auto ≡ true
    → (if is_off t then refused (codes "tier-off") else latest_policy v i.latest i).can_auto ≡ true
evaluate-allows v t i on h = rw (on, h)

allows-on :
    (t : Tier) (valid : Bool)
    → (t ≡ tier_auto) ⊎ (t ≡ tier_autonomous) × (valid ≡ true)
    → is_off t ≡ false
allows-on t valid (inl e) = rw e
allows-on t valid (inr (e, _)) = rw e

-- `EvaluatePolicy` allows an automatic update exactly when the latest release is known and newer,
-- the binary can be replaced, no rollback has failed, and the tier is auto, or autonomous with a valid
-- window.
pub evaluate_policy-Automatic :
    (v : Semver) (i : PolicyInput) → ((evaluate_policy v i).can_auto ≡ true) ↔ Automatic v i
unfolding evaluate_policy
evaluate_policy-Automatic v i = (to, from)
  where
    to : (evaluate_policy v i).can_auto ≡ true → Automatic v i
    to h = elim (Bool-cases (is_off i.tier)) [
      | inl off ↦ ground arith
      | inr on ↦ automatic v i (
          latest_policy-can_auto v i.latest i (
            subst
              (λ b.
                (if b then refused (codes "tier-off") else latest_policy v i.latest i).can_auto
                ≡ true)
              on h))
    ]

    from : Automatic v i → (evaluate_policy v i).can_auto ≡ true
    from a = evaluate-allows v i.tier i (allows-on i.tier i.window_valid a.tier_allows) (
        latest_policy-allows v i.latest i a.release a.known a.newer_version a.replaceable
          (a.not_failed, a.tier_allows))

pub record Arms (clock : Clock) (i : ScheduleInput) (tag : Text) (at : ℕ) : Type 0 where
  pub release : ReleaseInfo
  pub known : i.latest ≡ some release
  pub its_tag : tag ≡ release.tag
  pub its_time : at ≡ scheduled_time clock i
  pub allowed : i.can_auto ≡ true
  pub free : in_flight i.execution.status ≡ false
  pub not_failed : is_rollback_failed i.execution.status ≡ false
  pub not_armed :
      (is_scheduled i.execution.status && text_eq i.execution.target_tag release.tag) ≡ false

-- `DecideSchedule` arms a timer exactly when the latest release is known, automatic updates are
-- allowed, no attempt is on its way or has failed for good, and none is scheduled for the same tag;
-- the timer is for the release's tag and the time that `scheduled_time` gives.
pub decide_schedule-Arms :
    (clock : Clock) (i : ScheduleInput) (tag : Text) (at : ℕ)
    → (decide_schedule clock i ≡ schedule_arm tag at) ↔ Arms clock i tag at
unfolding decide_schedule
decide_schedule-Arms clock i tag at = ((λ h. to h), (λ a. from a))
  where
    to : decide_schedule clock i ≡ schedule_arm tag at → Arms clock i tag at
    to h = ground arith

    from : Arms clock i tag at → decide_schedule clock i ≡ schedule_arm tag at
    from a = ground arith

-- The time that `scheduled_time` picks, for a time `t` and a tier's test.
timed-in_window :
    (clock : Clock) (o : Option MaintenanceWindow) (w : MaintenanceWindow) (t : ℕ) (auto : Bool)
    → Utc clock
    → o ≡ some w
    → w.tz ≡ utc
    → ValidWindow w
    → auto ≡ true
    → (in_window clock w (if auto && outside clock o t then next_start clock o t else t) ≡ true)
      × (t ≤ (if auto && outside clock o t then next_start clock o t else t))
timed-in_window clock none w t auto u known z ok e = ground arith
timed-in_window clock (some x) w t false u known z ok e = ground arith
timed-in_window clock (some x) w t true u known z ok e =
    let same : w ≡ x = cc known in
    let (inside, later, near) = next_window_start-in_window clock w t u z ok in
    subst
      (λ y.
        (in_window clock w (if outside clock (some y) t then next_start clock (some y) t else t)
          ≡ true)
        × (t ≤ (if outside clock (some y) t then next_start clock (some y) t else t)))
      same
      (elim (Bool-cases (in_window clock w t)) [
        | inl now ↦ rw (now) (now, ground arith)
        | inr out ↦ rw (out) (inside, ground arith)
      ])

-- An autonomous update in a valid window of the zone UTC is armed for a time inside the window,
-- not before the grace period is over.
pub scheduled_time-in_window :
    (clock : Clock) (i : ScheduleInput) (w : MaintenanceWindow)
    → Utc clock
    → i.window ≡ some w
    → w.tz ≡ utc
    → ValidWindow w
    → (is_autonomous i.tier && i.can_autonomous) ≡ true
    → (in_window clock w (scheduled_time clock i) ≡ true)
      × (i.now + i.grace_minutes * 60 ≤ scheduled_time clock i)
unfolding scheduled_time
scheduled_time-in_window clock i w u known z ok auto =
    timed-in_window clock i.window w (i.now + i.grace_minutes * 60) _ u known z ok auto

pub record Fires (clock : Clock) (i : TriggerInput) : Type 0 where
  pub scheduled_state : is_scheduled i.execution.status ≡ true
  pub release : ReleaseInfo
  pub known : i.latest ≡ some release
  pub same_tag : text_eq i.execution.target_tag i.timer_target_tag ≡ true
  pub still_latest : text_eq release.tag i.timer_target_tag ≡ true
  pub allowed : i.can_auto ≡ true
  pub in_time : (is_autonomous i.tier && outside clock i.window i.now) ≡ false

-- A timer that fires applies an update exactly when the state is still scheduled, for the timer's tag,
-- which is still the latest release's, automatic updates are still allowed, and an autonomous
-- one is not outside its window.
pub decide_trigger_apply-Fires :
    (clock : Clock) (i : TriggerInput)
    → (decide_trigger_apply clock i ≡ trigger_fire) ↔ Fires clock i
unfolding decide_trigger_apply
decide_trigger_apply-Fires clock i = ((λ h. to h), (λ f. from f))
  where
    to : decide_trigger_apply clock i ≡ trigger_fire → Fires clock i
    to h = ground arith

    from : Fires clock i → decide_trigger_apply clock i ≡ trigger_fire
    from f = ground arith
