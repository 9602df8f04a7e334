-- ===== src/Bookings/Slots.antt =====
-- The slots of a day: `generate_slots` and `is_slot_available` of app/domain/bookings/service.py.
use clean.Base.{
  ℕ, zero, suc, ◌+◌, ◌-◌, ◌/◌, Bool, true, false, not, ◌&&◌, List, [], ◌∷◌, ◌++◌, map, Option, none,
  some, ltb, leb, ◌==◌, if◌then◌else◌, any, keep,
}
use clean.Bookings.Rows.{
  Status, pending, confirmed, Booking, WorkingHours, Blackout, Store, Calendar, minutes,
}

abbrev pub slot_step : ℕ
slot_step = minutes 30

abbrev pub buffer : ℕ
buffer = minutes 30

-- `BLOCKING_STATUSES`
abbrev pub is_blocking : Status → Bool
is_blocking pending = true
is_blocking confirmed = true
is_blocking _ = false

-- `_day_window` for the hours from `start` to `end`.
unfoldable pub window_of : Calendar → ℕ → ℕ → ℕ → Option (ℕ × ℕ)
window_of c date start end = if leb end start then none else some (c.at date start, c.at date end)

-- `_day_window`; without hours of the team, from 9 to 18.
unfoldable pub day_window : Calendar → ℕ → Option WorkingHours → Option (ℕ × ℕ)
unfolding window_of
day_window c date none = window_of c date (minutes 540) (minutes 1080)
day_window c date (some h) = window_of c date h.start_time h.end_time

-- `_booking_window_filters`; the source subtracts from the day's start what stands on the left here.
unfoldable pub in_window : ℕ → ℕ → ℕ → Booking → Bool
in_window team day_start day_end b =
    (b.team_id == team)
    && (ltb b.starts_at (day_end + buffer)
        && (ltb day_start (b.starts_at + buffer + minutes 720) && is_blocking b.status))

-- A window from `start` less `margin` to `stop` and `margin`.
pub record Blocked : Type 0 where
  pub start : ℕ
  pub stop : ℕ
  pub margin : ℕ

abbrev pub finish : Booking → ℕ
finish b = b.starts_at + minutes b.duration_minutes

unfoldable pub blocked_by : Booking → Blocked
blocked_by b = record { start = b.starts_at; stop = finish b; margin = buffer }

unfoldable pub blacked_out : Blackout → Blocked
blacked_out o = record { start = o.starts_at; stop = o.ends_at; margin = 0 }

unfoldable pub is_excluded : Option ℕ → Booking → Bool
is_excluded none b = false
is_excluded (some id) b = b.booking_id == id

-- `_blackouts_for_window`
unfoldable pub touches : ℕ → ℕ → ℕ → Blackout → Bool
touches team day_start day_end o =
    (o.team_id == team) && (ltb o.starts_at day_end && ltb day_start o.ends_at)

unfoldable pub blocked_windows : Store → ℕ → ℕ → ℕ → Option ℕ → List Blocked
unfolding is_excluded touches
blocked_windows s team day_start day_end excluded =
    map blocked_by (
      keep (λ b. not (is_excluded excluded b)) (keep (in_window team day_start day_end) s.bookings))
    ++ map blacked_out (keep (touches team day_start day_end) s.blackouts)

unfoldable pub conflicts : ℕ → ℕ → Blocked → Bool
conflicts candidate candidate_end b =
    ltb candidate (b.stop + b.margin) && ltb b.start (candidate_end + b.margin)

-- The loop from `candidate` on, on fuel.
unfoldable pub slots_from : ℕ → ℕ → ℕ → List Blocked → ℕ → List ℕ
slots_from zero duration day_end blocked candidate = []
slots_from (suc fuel) duration day_end blocked candidate =
    let rest = slots_from fuel duration day_end blocked (candidate + slot_step) in
    if leb (candidate + duration) day_end
    then (if any (conflicts candidate (candidate + duration)) blocked
        then rest
        else candidate ∷ rest)
    else []

unfoldable pub slots_in : Option (ℕ × ℕ) → ℕ → Store → ℕ → Option ℕ → List ℕ
unfolding slots_from
slots_in none duration s team excluded = []
slots_in (some (day_start, day_end)) duration s team excluded =
    slots_from (suc ((day_end - day_start) / slot_step)) duration day_end
      (blocked_windows s team day_start day_end excluded) day_start

-- `generate_slots` for a team.
unfoldable pub generate_slots : Calendar → ℕ → ℕ → Store → ℕ → Option ℕ → List ℕ
unfolding slots_in
generate_slots c date duration_minutes s team excluded =
    slots_in (day_window c date (s.working_hours team (c.weekday date))) (minutes duration_minutes)
      s team excluded

-- `is_slot_available`
unfoldable pub is_slot_available : Calendar → ℕ → ℕ → Store → ℕ → Option ℕ → Bool
is_slot_available c starts_at duration_minutes s team excluded =
    any (λ t. t == starts_at)
      (generate_slots c (c.local_date starts_at) duration_minutes s team excluded)
