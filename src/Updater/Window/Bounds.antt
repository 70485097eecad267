-- ===== src/Updater/Window/Bounds.antt =====
-- The times that lib/updater/window.go gives.
use etherpad_go.Prelude.{
  ℕ, ◌+◌, ◌*◌, ◌/◌, ◌%◌, ◌≤◌, ◌<◌, true, ◌&&◌, ◌||◌, Option, none, some, Text, if◌then◌else◌, ltb,
  leb, ◌≡◌, ◌≢◌, inl, inr, refl, sym, ap, ◌∙◌, subst, arith, Bool-cases, ltb→lt,
}
use etherpad_go.Attribs.{trim_space}
use etherpad_go.Updater.Window.{
  Zone, utc, MaintenanceWindow, split_colon, atoi_upto, hours_minutes, parts_hhmm, parse_hhmm,
  zone_of, window_of, parse_window, Clock, minute_of, in_window, start_on_day, next_window_start,
}

-- The clock of the zone UTC.
pub record Utc (clock : Clock) : Type 0 where
  pub wall_utc : (t : ℕ) → clock.wall utc t ≡ t
  pub instant_utc : (t : ℕ) → clock.instant utc t ≡ t

-- What `ParseWindow` returns.
pub record ValidWindow (w : MaintenanceWindow) : Type 0 where
  pub start_day : w.start_min < 1440
  pub end_day : w.end_min < 1440
  pub nonempty : w.start_min ≢ w.end_min

hit :
    (w : MaintenanceWindow) (cur : ℕ)
    → ValidWindow w
    → cur ≡ w.start_min
    → (if ltb w.start_min w.end_min
        then leb w.start_min cur && ltb cur w.end_min
        else leb w.start_min cur || ltb cur w.end_min)
      ≡ true
hit w cur ok e = ground arith

minute-start : (d s : ℕ) → s < 1440 → (d * 86400 + s * 60) / 60 % 1440 ≡ s
minute-start d s h = omega arith

atoi_upto-le : (top : ℕ) (s : Text) (n : ℕ) → atoi_upto top s ≡ some n → n ≤ top
unfolding atoi_upto
atoi_upto-le top s n h = ground arith

window_of-Valid :
    (s e : Option ℕ) (z : Option Zone) (w : MaintenanceWindow)
    → ((n : ℕ) → s ≡ some n → n < 1440)
    → ((n : ℕ) → e ≡ some n → n < 1440)
    → window_of s e z ≡ some w
    → ValidWindow w
window_of-Valid none e z w hs he h = ground arith
window_of-Valid (some s) none z w hs he h = ground arith
window_of-Valid (some s) (some e) none w hs he h = ground arith
window_of-Valid (some s) (some e) (some z) w hs he h =
    let s_day = hs s refl in let e_day = he e refl in ground arith

hours_minutes-lt :
    (h m : Option ℕ) (n : ℕ)
    → ((k : ℕ) → h ≡ some k → k ≤ 23)
    → ((k : ℕ) → m ≡ some k → k ≤ 59)
    → hours_minutes h m ≡ some n
    → n < 1440
hours_minutes-lt none m n hh hm e = ground arith
hours_minutes-lt (some h) none n hh hm e = ground arith
hours_minutes-lt (some h) (some m) n hh hm e =
    let hours = hh h refl in let minutes = hm m refl in ground arith

parts_hhmm-lt : (p : Option (Text × Text)) (n : ℕ) → parts_hhmm p ≡ some n → n < 1440
parts_hhmm-lt none n h = ground arith
parts_hhmm-lt (some (h, m)) n e =
    hours_minutes-lt (atoi_upto 23 h) (atoi_upto 59 m) n (atoi_upto-le 23 h) (atoi_upto-le 59 m) e

-- A window that `ParseWindow` returns starts and ends at different minutes of the day.
pub parse_window-ValidWindow :
    (start stop tz : Text) (w : MaintenanceWindow)
    → parse_window start stop tz ≡ some w
    → ValidWindow w
unfolding parse_window parse_hhmm
parse_window-ValidWindow start stop tz w h =
    window_of-Valid (parse_hhmm start) (parse_hhmm stop) (zone_of tz) w
      (parts_hhmm-lt (split_colon (trim_space start)))
      (parts_hhmm-lt (split_colon (trim_space stop))) h

wall-utc : (clock : Clock) (z : Zone) (t : ℕ) → Utc clock → z ≡ utc → clock.wall z t ≡ t
wall-utc clock z t u e = ap (λ x. clock.wall x t) e ∙ u.wall_utc t

instant-utc : (clock : Clock) (z : Zone) (t : ℕ) → Utc clock → z ≡ utc → clock.instant z t ≡ t
instant-utc clock z t u e = ap (λ x. clock.instant x t) e ∙ u.instant_utc t

in_window-start :
    (clock : Clock) (w : MaintenanceWindow) (d : ℕ)
    → Utc clock
    → w.tz ≡ utc
    → ValidWindow w
    → in_window clock w (d * 86400 + w.start_min * 60) ≡ true
unfolding in_window minute_of
in_window-start clock w d u z ok = hit w (minute_of clock w.tz (d * 86400 + w.start_min * 60)) ok (
    ap (λ x. x / 60 % 1440) (wall-utc clock w.tz (d * 86400 + w.start_min * 60) u z)
    ∙ minute-start d w.start_min ok.start_day)

start-near :
    (t s x : ℕ) → s < 1440 → x ≡ t / 86400 * 86400 + s * 60 → (x ≤ t + 86400) × (t < x + 86400)
start-near t s x small e = (omega arith, omega arith)

start_on_day-utc :
    (clock : Clock) (w : MaintenanceWindow) (t : ℕ)
    → Utc clock
    → w.tz ≡ utc
    → start_on_day clock w t ≡ t / 86400 * 86400 + w.start_min * 60
unfolding start_on_day
start_on_day-utc clock w t u z =
    instant-utc clock w.tz (clock.wall w.tz t / 86400 * 86400 + w.start_min * 60) u z
    ∙ ap (λ x. x / 86400 * 86400 + w.start_min * 60) (wall-utc clock w.tz t u z)

-- In the zone UTC, `NextWindowStart` is a time inside the window, later than the given one and
-- by a day at most.
pub next_window_start-in_window :
    (clock : Clock) (w : MaintenanceWindow) (t : ℕ)
    → Utc clock
    → w.tz ≡ utc
    → ValidWindow w
    → (in_window clock w (next_window_start clock w t) ≡ true)
      × (t < next_window_start clock w t)
      × (next_window_start clock w t ≤ t + 86400)
unfolding next_window_start
next_window_start-in_window clock w t u z ok =
    let start = start_on_day-utc clock w t u z in
    let (le, lt) = start-near t w.start_min (start_on_day clock w t) ok.start_day start in
    let today = in_window-start clock w (t / 86400) u z ok in
    let tomorrow = in_window-start clock w (t / 86400 + 1) u z ok in
    elim (Bool-cases (ltb t (start_on_day clock w t))) [
      | inl before ↦ rw (before) (
        subst (λ x. in_window clock w x ≡ true) (sym start) today,
        ltb→lt _ _ before,
        (ground arith),
      )
      | inr after ↦ rw (after) (
        subst (λ x. in_window clock w x ≡ true) (ground arith) tomorrow,
        (ground arith),
        (ground arith),
      )
    ]
