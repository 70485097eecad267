-- ===== src/Examples/Updates.antt =====
-- The updater: its decisions, and runs from the first check to the exit.
use etherpad_go.Prelude.{
  ℕ, ◌+◌, ◌≤◌, ◌<◌, true, false, none, some, List, [], ◌∷◌, text_eq, codes, ltb, length, ◌≡◌, ◌↔◌,
  refl, arith, text_eq_refl,
}
use etherpad_go.Attribs.{trim_right, trim_left}
use etherpad_go.Updater.Types.{
  tier_autonomous, install_binary, idle, scheduled, pending_verification, ReleaseInfo, Execution,
  execution, UpdateState, empty_state,
}
use etherpad_go.Updater.Window.{
  utc, MaintenanceWindow, split_colon, all_digits, decimal, atoi_upto, parse_hhmm, parse_window,
  Clock, minute_of, in_window, next_window_start,
}
use etherpad_go.Updater.Window.Bounds.{
  Utc, ValidWindow, parse_window-ValidWindow, next_window_start-in_window,
}
use etherpad_go.Updater.Policy.{Semver, update_available, PolicyInput, evaluate_policy}
use etherpad_go.Updater.Schedule.{
  schedule_arm, ScheduleInput, trigger_fire, TriggerInput, scheduled_time, decide_schedule,
  decide_trigger_apply,
}
use etherpad_go.Updater.Release.{
  is_tag_char, all_tag_chars, is_valid_tag, trim_v, to_release_info, CheckResult, check_updated,
  check_not_modified, check_error, Response, check_latest,
}
use etherpad_go.Updater.Release.Safe.{Safe, Released, is_valid_tag-Safe, check_latest-Safe}
use etherpad_go.Updater.Decisions.{
  Automatic, evaluate_policy-Automatic, Arms, decide_schedule-Arms, scheduled_time-in_window, Fires,
  decide_trigger_apply-Fires,
}
use etherpad_go.Updater.State.{
  Config, no_apply, in_drain, Updater, save_locked, set_execution, arm_apply_timer, run_preflight,
  exec_ok,
}
use etherpad_go.Updater.Checking.{policy_locked, decide_schedule_locked, perform_check}
use etherpad_go.Updater.Applying.{begin_apply, run_apply, on_apply_timer, apply_now}
use etherpad_go.Updater.Boot.{check_pending_verification, start}
use etherpad_go.Updater.Runs.{then_step, stay, checked, applied, Run, stay, Agrees, Consistent}
use etherpad_go.Updater.Runs.Consistency.{Run-Consistent}
use etherpad_go.Updater.Attempts.{outcome, Ends, Free, run_apply-Ends}
use etherpad_go.Updater.Triggered.{
  Triggered, on_apply_timer-Triggered, poll, AllTellNone, start-Unarmed,
}

-- Versions that are newer the longer they are.
abbrev by_length : Semver
by_length = record {
  Version = ℕ;
  new_version = λ s. some (length s);
  greater_than = λ a b. ltb b a;
}

-- A clock that shows UTC in every zone.
abbrev utc_clock : Clock
utc_clock = record { wall = λ z t. t; instant = λ z t. t }

utc_clock-Utc : Utc utc_clock
utc_clock-Utc = record { wall_utc = λ t. refl; instant_utc = λ t. refl }

-- From 02:00 to 03:00.
abbrev night : MaintenanceWindow
night = record { start_min = 120; end_min = 180; tz = utc }

night-ValidWindow : ValidWindow night
night-ValidWindow = record {
  start_day = omega arith;
  end_day = omega arith;
  nonempty = λ e. omega (arith, e);
}

abbrev version_22 : ReleaseInfo
version_22 = record {
  version = codes "22";
  tag = codes "v22";
  body = [];
  published_at = [];
  prerelease = false;
  html_url = [];
}

abbrev night_config : Config
night_config = record {
  tier = tier_autonomous;
  current_version = codes "1";
  grace_minutes = 10;
  drain_seconds = 60;
  health_check_seconds = 60;
  window = some night;
  window_configured = true;
}

abbrev night_policy : PolicyInput
night_policy = record {
  tier = tier_autonomous;
  install_method = install_binary;
  current_version = codes "1";
  latest = some version_22;
  execution_status = idle;
  window_configured = true;
  window_valid = true;
}

evaluate_policy-Automatic_example :
    ((evaluate_policy by_length night_policy).can_auto ≡ true) ↔ Automatic by_length night_policy
evaluate_policy-Automatic_example = evaluate_policy-Automatic by_length night_policy

abbrev first_schedule : ScheduleInput
first_schedule = record {
  can_auto = true;
  can_autonomous = true;
  tier = tier_autonomous;
  latest = some version_22;
  execution = execution idle;
  now = 0;
  grace_minutes = 10;
  window = some night;
}

decide_schedule-Arms_example :
    (decide_schedule utc_clock first_schedule ≡ schedule_arm (codes "v22") 7200)
    ↔ Arms utc_clock first_schedule (codes "v22") 7200
decide_schedule-Arms_example = decide_schedule-Arms utc_clock first_schedule (codes "v22") 7200

scheduled_time-in_window_example :
    (in_window utc_clock night (scheduled_time utc_clock first_schedule) ≡ true)
    × (600 ≤ scheduled_time utc_clock first_schedule)
scheduled_time-in_window_example =
    scheduled_time-in_window utc_clock first_schedule night utc_clock-Utc refl refl
      night-ValidWindow refl

-- The state is scheduled, and it is half past two.
abbrev waiting : Execution
waiting = record (execution scheduled) { target_tag = codes "v22" }

abbrev at_night : TriggerInput
at_night = record {
  execution = waiting;
  timer_target_tag = codes "v22";
  latest = some version_22;
  can_auto = true;
  can_autonomous = true;
  tier = tier_autonomous;
  window = some night;
  now = 9000;
}

decide_trigger_apply-Fires_example :
    (decide_trigger_apply utc_clock at_night ≡ trigger_fire) ↔ Fires utc_clock at_night
decide_trigger_apply-Fires_example = decide_trigger_apply-Fires utc_clock at_night

next_window_start-in_window_example :
    (in_window utc_clock night (next_window_start utc_clock night 9000) ≡ true)
    × (9000 < next_window_start utc_clock night 9000)
    × (next_window_start utc_clock night 9000 ≤ 9000 + 86400)
next_window_start-in_window_example =
    next_window_start-in_window utc_clock night 9000 utc_clock-Utc refl night-ValidWindow

night_parsed : parse_window (codes "02:00") (codes "03:00") (codes "utc") ≡ some night
unfolding parse_window parse_hhmm split_colon all_digits decimal atoi_upto text_eq trim_right
    trim_left etherpad_go.Attribs.is_space
night_parsed = refl

parse_window-ValidWindow_example : ValidWindow night
parse_window-ValidWindow_example =
    parse_window-ValidWindow (codes "02:00") (codes "03:00") (codes "utc") night night_parsed

tag_v22 : is_valid_tag (codes "v22") ≡ true
unfolding is_valid_tag all_tag_chars is_tag_char etherpad_go.Strings.starts_with
    etherpad_go.Strings.contains
tag_v22 = refl

is_valid_tag-Safe_example : Safe (codes "v22")
is_valid_tag-Safe_example = is_valid_tag-Safe (codes "v22") tag_v22

abbrev answer : Response
answer = record {
  status_code = 200;
  etag = codes "e";
  release = some (record {
    tag_name = codes "v22";
    body = [];
    draft = false;
    prerelease = false;
    published_at = [];
    html_url = [];
  });
}

answer-updated : check_latest (some answer) ≡ check_updated version_22 (codes "e")
unfolding check_latest is_valid_tag all_tag_chars is_tag_char to_release_info trim_v
    etherpad_go.Strings.starts_with etherpad_go.Strings.contains
answer-updated = refl

check_latest-Safe_example : Released answer version_22
check_latest-Safe_example = check_latest-Safe answer version_22 (codes "e") answer-updated

abbrev booted : Updater
booted = record {
  install_method = install_binary;
  state = empty_state;
  apply_timer = none;
  health_timer = none;
  timer_target_tag = [];
  accepting = true;
  applying = false;
  worker = no_apply;
  saves = [];
  exited = none;
}

booted-Consistent : Consistent booted
unfolding Agrees
booted-Consistent = (refl, refl, refl)

-- A check finds version 22, and then an admin starts the update.
abbrev found_22 : Updater
found_22 =
    perform_check by_length utc_clock night_config (check_updated version_22 (codes "e")) 0 booted

abbrev started_22 : Updater
started_22 = begin_apply by_length utc_clock night_config true true version_22 60 found_22

found_22-runs : found_22.exited ≡ none
unfolding perform_check save_locked decide_schedule_locked decide_schedule policy_locked
    evaluate_policy update_available text_eq arm_apply_timer
found_22-runs = refl

started_22-runs : started_22.exited ≡ none
unfolding begin_apply perform_check save_locked decide_schedule_locked decide_schedule policy_locked
    evaluate_policy update_available text_eq arm_apply_timer run_preflight set_execution
started_22-runs = refl

started_22-applied :
    apply_now by_length utc_clock night_config true true 60 found_22 ≡ some started_22
unfolding apply_now policy_locked evaluate_policy perform_check save_locked decide_schedule_locked
    decide_schedule update_available text_eq arm_apply_timer
started_22-applied = refl

found_22-Run : Run by_length utc_clock night_config booted started_22
found_22-Run =
    then_step booted found_22 started_22
      (then_step booted booted found_22 (stay booted)
        (checked booted (check_updated version_22 (codes "e")) 0) found_22-runs)
      (applied found_22 started_22 true true 60 started_22-applied) started_22-runs

Run-Consistent_example : Consistent started_22
Run-Consistent_example =
    Run-Consistent by_length utc_clock night_config booted started_22 found_22-Run booted-Consistent

booted-Free : Free booted
booted-Free = record { free = refl; at_rest = refl; open_ = refl; running = refl }

run_apply-Ends_example :
    Ends booted
      (outcome idle true (run_preflight install_binary true) false (exec_ok (codes "/x.bak")))
      (run_apply by_length utc_clock night_config true true false
        (exec_ok (codes "/x.bak"))
        version_22
        0
        booted)
run_apply-Ends_example =
    run_apply-Ends by_length utc_clock night_config true true false (exec_ok (codes "/x.bak"))
      version_22 0 booted booted-Free

abbrev unverified : UpdateState
unverified = record empty_state { execution = execution pending_verification; boot_count = 1 }

abbrev due : Updater
due = record booted {
  state = record empty_state { latest = some version_22; execution = waiting };
  timer_target_tag = codes "v22";
  apply_timer = some 9000;
}

due-drains :
    (on_apply_timer by_length utc_clock night_config true true 9000 due).worker
    ≡ in_drain version_22
unfolding on_apply_timer decide_trigger_apply text_eq policy_locked evaluate_policy update_available
    in_window minute_of begin_apply run_preflight
due-drains = refl

on_apply_timer-Triggered_example :
    Triggered by_length utc_clock night_config true true 9000 due version_22
on_apply_timer-Triggered_example =
    on_apply_timer-Triggered by_length utc_clock night_config true true 9000 due version_22 refl
      due-drains

abbrev restarted : UpdateState
restarted = record empty_state { latest = some version_22; execution = waiting }

abbrev two_checks : List (CheckResult × ℕ)
two_checks = (check_not_modified, 5) ∷ (check_error, 10) ∷ []

two_checks-AllTellNone : AllTellNone by_length utc_clock night_config two_checks
unfolding AllTellNone
two_checks-AllTellNone = (refl, (refl, tt))

restarted-automatic :
    (policy_locked by_length utc_clock night_config
      (start night_config install_binary restarted none 0)).can_auto
    ≡ true
unfolding policy_locked evaluate_policy start check_pending_verification update_available text_eq
restarted-automatic = refl

start-Unarmed_example :
    (poll by_length utc_clock night_config two_checks
      (start night_config install_binary restarted none 0)).apply_timer
    ≡ none
start-Unarmed_example =
    start-Unarmed by_length utc_clock night_config install_binary restarted none 0 two_checks
      version_22 refl refl (text_eq_refl (codes "v22")) restarted-automatic two_checks-AllTellNone
