-- ===== src/Routines/Schedule.antt =====
-- `deriveRoutineOccurrence` (src/routines/schedule.js): the calendar occurrence that a start of a
-- routine belongs to, and whether it is in time. Times are milliseconds since 1970.
pub mod Laws
use aimgr.Prelude.{
  ◌≡◌, ℕ, ◌-◌, Bool, true, false, ◌&&◌, ◌||◌, Option, none, some, List, [], ◌∷◌, ◌++◌, map, filter,
  Result, ok, err, leb, ltb, ◌==◌, if◌then◌else◌,
}

pub record CalendarEntry : Type 0 where
  pub hour : ℕ
  pub minute : ℕ
  pub weekday : Option ℕ

pub data Day : Type 0 where
  yesterday today : Day

-- The local calendar of the language's library: `new Date(year, month, day, hour, minute)` on a day
-- relative to a time, `getDay`, and `setSeconds(0, 0)`, which goes back to the start of the minute.
pub record Calendar : Type 0 where
  pub date_at : ℕ → Day → ℕ → ℕ → ℕ
  pub day_of_week : ℕ → ℕ
  pub minute_start : ℕ → ℕ
  pub minute_start-le : (t : ℕ) → leb (minute_start t) t ≡ true

-- ADMISSION_WINDOW_MS.
abbrev pub admission_window_ms : ℕ
admission_window_ms = 600_000

pub data ScheduleError : Type 0 where
  no_due_occurrence : ScheduleError

pub record Occurrence : Type 0 where
  pub manual : Bool
  pub admitted : Bool
  pub delay_ms : ℕ
  pub scheduled_at : ℕ

-- `entry.weekday === undefined || date.getDay() === entry.weekday`.
abbrev pub is_on : Calendar → CalendarEntry × ℕ → Bool
is_on cal (entry, date) = elim entry.weekday [ none ↦ true | some d ↦ cal.day_of_week date == d ]

unfoldable pub candidates_for_date : Calendar → List CalendarEntry → ℕ → Day → List ℕ
candidates_for_date cal entries now day =
    map (λ p. p.1)
      (filter (is_on cal) (map (λ e. (e, cal.date_at now day e.hour e.minute)) entries))

unfoldable pub all_candidates : Calendar → List CalendarEntry → ℕ → List ℕ
unfolding candidates_for_date
all_candidates cal entries now =
    candidates_for_date cal entries now yesterday ++ candidates_for_date cal entries now today

-- The reduction to the latest candidate, from the first one.
unfoldable pub latest : ℕ → List ℕ → ℕ
latest t [] = t
latest t (c ∷ cs) = latest (if ltb t c then c else t) cs

unfoldable pub occurrence_at : Bool → ℕ → ℕ → Occurrence
occurrence_at manual now scheduled = record {
  manual = manual;
  admitted = manual || leb (now - scheduled) admission_window_ms;
  delay_ms = now - scheduled;
  scheduled_at = scheduled;
}

unfoldable pub latest_occurrence : ℕ → List ℕ → Result ScheduleError Occurrence
unfolding occurrence_at latest
latest_occurrence now [] = err no_due_occurrence
latest_occurrence now (c ∷ cs) = ok (occurrence_at false now (latest c cs))

-- The scheduled time is never after the current one, so the difference is not negative.
unfoldable pub derive_routine_occurrence :
    Calendar → List CalendarEntry → ℕ → Bool → Result ScheduleError Occurrence
unfolding latest_occurrence occurrence_at all_candidates
derive_routine_occurrence cal entries now true = ok (occurrence_at true now (cal.minute_start now))
derive_routine_occurrence cal entries now false =
    latest_occurrence now (filter (λ c. leb c now) (all_candidates cal entries now))
