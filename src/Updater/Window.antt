-- ===== src/Updater/Window.antt =====
-- lib/updater/window.go: the daily window for autonomous updates.
pub mod Bounds
use etherpad_go.Prelude.{
  ℕ, ◌+◌, ◌*◌, ◌-◌, ◌/◌, ◌%◌, Bool, true, false, not, ◌&&◌, ◌||◌, Option, none, some, [], ◌∷◌, Text,
  text_eq, codes, if◌then◌else◌, ltb, leb, ◌==◌, length,
}
use etherpad_go.Attribs.{trim_space}

-- The time zone of a window.
pub data Zone : Type 0 where
  utc local : Zone

pub record MaintenanceWindow : Type 0 where
  pub start_min : ℕ
  pub end_min : ℕ
  pub tz : Zone

-- What is before the first ':' and behind it; `none` if there is none.
unfoldable pub split_colon : Text → Option (Text × Text)
split_colon [] = none
split_colon (c ∷ s) =
    let rest = split_colon s in
    if c == b':' then some ([], s) else elim rest [ none ↦ none | some (a, b) ↦ some (c ∷ a, b) ]

unfoldable pub all_digits : Text → Bool
all_digits [] = true
all_digits (c ∷ s) = leb b'0' c && leb c b'9' && all_digits s

unfoldable pub decimal : ℕ → Text → ℕ
decimal acc [] = acc
decimal acc (c ∷ s) = decimal (acc * 10 + (c - b'0')) s

-- A sign may stand in front of the digits; -0 is 0.
abbrev pub unsigned : Text → Text
unsigned [] = []
unsigned (c ∷ s) = if c == b'-' || c == b'+' then s else c ∷ s

abbrev pub is_minus : Text → Bool
is_minus [] = false
is_minus (c ∷ s) = c == b'-'

-- `strconv.Atoi` with the test `0 <= n && n <= top` behind it.
unfoldable pub atoi_upto : ℕ → Text → Option ℕ
atoi_upto top s =
    let n = decimal 0 (unsigned s) in
    if length (unsigned s) == 0
      || not (all_digits (unsigned s))
      || ltb top n
      || is_minus s && ltb 0 n
    then none
    else some n

abbrev pub hours_minutes : Option ℕ → Option ℕ → Option ℕ
hours_minutes none m = none
hours_minutes (some h) none = none
hours_minutes (some h) (some m) = some (h * 60 + m)

abbrev pub parts_hhmm : Option (Text × Text) → Option ℕ
parts_hhmm none = none
parts_hhmm (some (h, m)) = hours_minutes (atoi_upto 23 h) (atoi_upto 59 m)

unfoldable pub parse_hhmm : Text → Option ℕ
parse_hhmm s = parts_hhmm (split_colon (trim_space s))

abbrev pub zone_of : Text → Option Zone
zone_of s =
    if text_eq s (codes "utc")
    then some utc
    else if text_eq s (codes "local") || text_eq s []
    then some local
    else none

abbrev pub window_of : Option ℕ → Option ℕ → Option Zone → Option MaintenanceWindow
window_of none e z = none
window_of (some s) none z = none
window_of (some s) (some e) none = none
window_of (some s) (some e) (some z) =
    if s == e then none else some (record { start_min = s; end_min = e; tz = z })

unfoldable pub parse_window : Text → Text → Text → Option MaintenanceWindow
parse_window start stop tz = window_of (parse_hhmm start) (parse_hhmm stop) (zone_of tz)

-- The clocks of the zones: the wall clock's seconds at an instant, and the instant at which the wall
-- clock shows a number of seconds, as `time.Date` finds it.
pub record Clock : Type 0 where
  pub wall : Zone → ℕ → ℕ
  pub instant : Zone → ℕ → ℕ

module _ (clock : Clock) where
  open clock use {wall, instant}

  -- `t.Hour()*60 + t.Minute()`
  unfoldable pub minute_of : Zone → ℕ → ℕ
  minute_of z t = wall z t / 60 % 1440

  unfoldable pub in_window : MaintenanceWindow → ℕ → Bool
  in_window w t =
      let cur = minute_of w.tz t in
      if ltb w.start_min w.end_min
      then leb w.start_min cur && ltb cur w.end_min
      else leb w.start_min cur || ltb cur w.end_min

  -- The window's start on the day of `t`.
  unfoldable pub start_on_day : MaintenanceWindow → ℕ → ℕ
  start_on_day w t = instant w.tz (wall w.tz t / 86400 * 86400 + w.start_min * 60)

  unfoldable pub next_window_start : MaintenanceWindow → ℕ → ℕ
  next_window_start w t =
      let start = start_on_day w t in if ltb t start then start else start + 86400
