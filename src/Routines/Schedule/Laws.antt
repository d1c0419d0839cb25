-- ===== src/Routines/Schedule/Laws.antt =====
-- The occurrence is the latest one that is due.
use aimgr.Prelude.{
  ℕ, ◌+◌, ◌≡◌, refl, sym, ap, head?, inl, inr, Bool, true, false, List, [], ◌∷◌, filter, any, All,
  Result, ok, err, leb, ltb, ◌==◌, arith, Bool-cases,
}
use mathlib.Core.Option.{none-ne-some}
use aimgr.Routines.Schedule.{
  CalendarEntry, Calendar, admission_window_ms, ScheduleError, Occurrence, all_candidates, latest,
  occurrence_at, latest_occurrence, derive_routine_occurrence,
}

-- `m` is a greatest element of the list.
record IsGreatest (m : ℕ) (cs : List ℕ) : Type 0 where
  pub is_bound : All (λ c. leb c m ≡ true) cs
  pub occurs : any (λ c. c == m) cs ≡ true

latest-IsGreatest : (t m : ℕ) (cs : List ℕ) → latest t cs ≡ m → IsGreatest m (t ∷ cs)
unfolding latest
latest-IsGreatest t m [] e = record { is_bound = (ground arith, tt); occurs = ground arith }
latest-IsGreatest t m (c ∷ cs) e = elim (Bool-cases (ltb t c)) [
  | inl k ↦
      let g = latest-IsGreatest c m cs (rw k at e) in
      record {
        is_bound = (ground (arith, g.is_bound.0), g.is_bound);
        occurs = ground (arith, g.occurs);
      }
  | inr k ↦
      let g = latest-IsGreatest t m cs (rw k at e) in
      record {
        is_bound = (g.is_bound.0, (ground (arith, g.is_bound.0), g.is_bound.1));
        occurs = ground (arith, g.occurs);
      }
]

any-passes :
    (p : ℕ → Bool) (xs : List ℕ) (m : ℕ) → any (λ c. c == m) (filter p xs) ≡ true → p m ≡ true
any-passes p [] m h = ground arith
any-passes p (x ∷ xs) m h = elim (Bool-cases (p x)) [
  | inl e ↦
      let k = rw e at h in
      elim (Bool-cases (x == m)) [
        | inl same ↦ let q : x ≡ m = ground arith in rw (← q) e
        | inr other ↦ any-passes p xs m (ground arith)
      ]
  | inr e ↦ any-passes p xs m (rw e at h)
]

any-filter : (p q : ℕ → Bool) (xs : List ℕ) → any q (filter p xs) ≡ true → any q xs ≡ true
any-filter p q [] h = h
any-filter p q (x ∷ xs) h = elim (Bool-cases (p x)) [
  | inl e ↦ let k = rw e at h in ground (arith, any-filter p q xs)
  | inr e ↦ let k = rw e at h in ground (arith, any-filter p q xs k)
]

none_due : (p : ℕ → Bool) (xs : List ℕ) → filter p xs ≡ [] → All (λ c. p c ≡ false) xs
none_due p [] e = tt
none_due p (x ∷ xs) e = elim (Bool-cases (p x)) [
  | inl k ↦ let k' = rw k at e in absurd (none-ne-some _ (sym (ap head? k')))
  | inr k ↦ (k, none_due p xs (rw k at e))
]

-- The occurrence is a candidate that is due, no due candidate is after it, and it is admitted
-- exactly within the window.
pub record IsDue (now : ℕ) (candidates : List ℕ) (o : Occurrence) : Type 0 where
  pub is_candidate : any (λ c. c == o.scheduled_at) candidates ≡ true
  pub latest_due : All (λ c. leb c o.scheduled_at ≡ true) (filter (λ c. leb c now) candidates)
  pub since : o.delay_ms + o.scheduled_at ≡ now
  pub in_time : o.admitted ≡ leb o.delay_ms admission_window_ms

abbrev pub IsDerived : ℕ → List ℕ → Result ScheduleError Occurrence → Type 0
IsDerived now candidates (ok o) = IsDue now candidates o
IsDerived now candidates (err e) = All (λ c. leb c now ≡ false) candidates

latest_occurrence-IsDerived :
    (now : ℕ) (candidates due : List ℕ)
    → filter (λ c. leb c now) candidates ≡ due
    → IsDerived now candidates (latest_occurrence now due)
unfolding latest_occurrence occurrence_at
latest_occurrence-IsDerived now candidates [] e = none_due _ candidates e
latest_occurrence-IsDerived now candidates (c ∷ cs) e =
    let g = latest-IsGreatest c (latest c cs) cs refl in
    let found : any (λ d. d == latest c cs) (filter (λ d. leb d now) candidates) ≡ true =
      rw e g.occurs in
    let before : leb (latest c cs) now ≡ true =
      any-passes (λ d. leb d now) candidates (latest c cs) found in
    record {
      is_candidate = any-filter _ _ candidates found;
      latest_due = rw e g.is_bound;
      since = ground (arith, before);
      in_time = refl;
    }

abbrev pub IsManual : ℕ → Result ScheduleError Occurrence → Type 0
IsManual now (ok o) = (o.admitted ≡ true) × (o.delay_ms + o.scheduled_at ≡ now)
IsManual now (err e) = ⊥

-- A start by the calendar fails exactly where no candidate of yesterday or today is due. Otherwise
-- its occurrence is the latest due candidate, the delay is the time since then, and it is admitted
-- exactly where the delay is within ten minutes. A manual start is always admitted, and its delay
-- is the time since the start of the minute.
pub derive_routine-IsDerived :
    (cal : Calendar) (entries : List CalendarEntry) (now : ℕ)
    → IsDerived now
        (all_candidates cal entries now)
        (derive_routine_occurrence cal entries now false)
      × IsManual now (derive_routine_occurrence cal entries now true)
unfolding derive_routine_occurrence occurrence_at
derive_routine-IsDerived cal entries now = (
  latest_occurrence-IsDerived now (all_candidates cal entries now) _ refl,
  (refl, ground (arith, cal.minute_start-le now)),
)
