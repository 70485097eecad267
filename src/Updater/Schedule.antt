-- ===== src/Updater/Schedule.antt =====
-- lib/updater/scheduler.go: when the update of the latest release is applied.
use etherpad_go.Prelude.{
  ℕ, ◌+◌, ◌*◌, Bool, true, false, not, ◌&&◌, ◌||◌, Option, none, some, Text, text_eq, if◌then◌else◌,
}
use etherpad_go.Updater.Types.{
  Tier, tier_off, tier_notify, tier_manual, tier_auto, tier_autonomous, ExecutionStatus, idle,
  scheduled, preflight, preflight_failed, draining, executing, pending_verification, verified,
  rolling_back, rolled_back, rollback_failed, ReleaseInfo, Execution,
}
use etherpad_go.Updater.Policy.{is_rollback_failed}
use etherpad_go.Updater.Window.{MaintenanceWindow, Clock, in_window, next_window_start}

abbrev pub in_flight : ExecutionStatus → Bool
in_flight preflight = true
in_flight draining = true
in_flight executing = true
in_flight pending_verification = true
in_flight rolling_back = true
in_flight idle = false
in_flight scheduled = false
in_flight preflight_failed = false
in_flight verified = false
in_flight rolled_back = false
in_flight rollback_failed = false

abbrev pub is_scheduled : ExecutionStatus → Bool
is_scheduled scheduled = true
is_scheduled idle = false
is_scheduled preflight = false
is_scheduled preflight_failed = false
is_scheduled draining = false
is_scheduled executing = false
is_scheduled pending_verification = false
is_scheduled verified = false
is_scheduled rolling_back = false
is_scheduled rolled_back = false
is_scheduled rollback_failed = false

abbrev pub is_autonomous : Tier → Bool
is_autonomous tier_autonomous = true
is_autonomous tier_off = false
is_autonomous tier_notify = false
is_autonomous tier_manual = false
is_autonomous tier_auto = false

-- `ScheduleDecision`: the fields of the actions that have any.
pub data ScheduleDecision : Type 0 where
  schedule_none : ScheduleDecision
  schedule_cancel : ScheduleDecision
  schedule_arm : (target_tag : Text) → (scheduled_for : ℕ) → ScheduleDecision

pub record ScheduleInput : Type 0 where
  pub can_auto : Bool
  pub can_autonomous : Bool
  pub tier : Tier
  pub latest : Option ReleaseInfo
  pub execution : Execution
  pub now : ℕ
  pub grace_minutes : ℕ
  pub window : Option MaintenanceWindow

-- `TriggerDecision`: the field of the action that has one.
pub data TriggerDecision : Type 0 where
  trigger_fire : TriggerDecision
  trigger_defer : (next_at : ℕ) → TriggerDecision
  trigger_abort : TriggerDecision
  trigger_clear : TriggerDecision

pub record TriggerInput : Type 0 where
  pub execution : Execution
  pub timer_target_tag : Text
  pub latest : Option ReleaseInfo
  pub can_auto : Bool
  pub can_autonomous : Bool
  pub tier : Tier
  pub window : Option MaintenanceWindow
  pub now : ℕ

abbrev pub cancel_if_scheduled : ExecutionStatus → ScheduleDecision
cancel_if_scheduled s = if is_scheduled s then schedule_cancel else schedule_none

module _ (clock : Clock) where
  -- `w != nil && !w.InWindow(t)`
  abbrev pub outside : Option MaintenanceWindow → ℕ → Bool
  outside none t = false
  outside (some w) t = not (in_window clock w t)

  abbrev pub next_start : Option MaintenanceWindow → ℕ → ℕ
  next_start none t = t
  next_start (some w) t = next_window_start clock w t

  unfoldable pub scheduled_time : ScheduleInput → ℕ
  scheduled_time i =
      let t = i.now + i.grace_minutes * 60 in
      if is_autonomous i.tier && i.can_autonomous && outside i.window t
      then next_start i.window t
      else t

  abbrev pub schedule_latest : ScheduleInput → Option ReleaseInfo → ScheduleDecision
  schedule_latest i none = cancel_if_scheduled i.execution.status
  schedule_latest i (some r) =
      if not i.can_auto
      then cancel_if_scheduled i.execution.status
      else if in_flight i.execution.status || is_rollback_failed i.execution.status
      then schedule_none
      else if is_scheduled i.execution.status && text_eq i.execution.target_tag r.tag
      then schedule_none
      else schedule_arm r.tag (scheduled_time i)

  unfoldable pub decide_schedule : ScheduleInput → ScheduleDecision
  decide_schedule i = schedule_latest i i.latest

  abbrev pub trigger_latest : TriggerInput → Option ReleaseInfo → TriggerDecision
  trigger_latest i none = trigger_abort
  trigger_latest i (some r) =
      if not (text_eq i.execution.target_tag i.timer_target_tag)
        || not (text_eq r.tag i.timer_target_tag)
      then trigger_abort
      else if not i.can_auto
      then trigger_clear
      else if is_autonomous i.tier && outside i.window i.now
      then trigger_defer (next_start i.window i.now)
      else trigger_fire

  unfoldable pub decide_trigger_apply : TriggerInput → TriggerDecision
  decide_trigger_apply i =
      if not (is_scheduled i.execution.status) then trigger_abort else trigger_latest i i.latest
