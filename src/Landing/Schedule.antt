-- ===== src/Landing/Schedule.antt =====
-- src/modules/landing-requests/utils/validate-landing-schedule.util.ts. Instants are milliseconds.
use aerobi_api.Common.{
  ◌≡◌, ◌↔◌, Option, none, some, ℕ, ◌+◌, ◌*◌, ◌<◌, ◌≤◌, leb, ltb, if◌then◌else◌, arith,
}

abbrev pub landing_min_advance_from_now_ms : ℕ
landing_min_advance_from_now_ms = 3 * 60 * 60 * 1000

-- `MESSAGES`.
pub data ScheduleError : Type 0 where
  departure_in_past landing_in_past landing_before_departure : ScheduleError
  landing_before_min_advance exit_before_landing : ScheduleError

unfoldable pub validate_landing_schedule : ℕ → ℕ → ℕ → ℕ → Option ScheduleError
validate_landing_schedule departure landing exit now =
    if leb departure now
    then some ScheduleError.departure_in_past
    else if leb landing now
    then some ScheduleError.landing_in_past
    else if leb landing departure
    then some ScheduleError.landing_before_departure
    else if ltb landing (now + landing_min_advance_from_now_ms)
    then some ScheduleError.landing_before_min_advance
    else if leb exit landing
    then some ScheduleError.exit_before_landing
    else none

-- The schedule passes exactly when the departure lies ahead, the landing follows it and is at least
-- three hours away, and the exit follows the landing.
pub validate_landing_schedule_iff :
    (departure landing exit now : ℕ)
    → (validate_landing_schedule departure landing exit now ≡ none)
      ↔ ((now < departure) × (departure < landing) × (now + 10800000 ≤ landing) × (landing < exit))
unfolding validate_landing_schedule
validate_landing_schedule_iff departure landing exit now = ground arith
