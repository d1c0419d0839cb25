-- ===== src/Credentials/Maintenance/Laws.antt =====
-- When a persistent failure of one account asks for a new login
-- (src/credentials/claude-maintenance.js).
use aimgr.Prelude.{
  ℕ, ◌+◌, ◌≤◌, ◌≡◌, ◌≢◌, ◌↔◌, ◌⊎◌, refl, sym, ap, ◌∙◌, subst, inl, inr, Bool, true, false, ◌&&◌,
  none, some, List, [], ◌∷◌, Text, same_refl, All, Bool-cases, leb→le, le→leb,
}
use aimgr.Credentials.Maintenance.{
  Publication, confirmed, landed, not_written, Calendar, MaintenanceResult, PassOutcome,
  reauth_needed, retryable, refreshed, not_changed, skipped, Streak, ReauthState, Pass, is_success,
  is_retryable, is_escalatable, escalate_after_ms, is_same_streak, continued, is_overdue,
  is_escalated, next_count, failed_state, failed_result, published_or, fail_pass,
  apply_maintenance_escalation,
}

-- One pass: its time, what becomes of its publication, and what it comes to.
pub record Round : Type 0 where
  pub now : ℕ
  pub published : Publication
  pub result : MaintenanceResult

retryable_not_success :
    (o : PassOutcome) (b : Bool) → (is_retryable o && b) ≡ true → is_success o ≡ false
unfolding is_retryable is_success
retryable_not_success refreshed b h = cc h
retryable_not_success not_changed b h = cc h
retryable_not_success retryable b h = refl
retryable_not_success skipped b h = refl
retryable_not_success reauth_needed b h = refl

retryable_not_needed :
    (o : PassOutcome) (b : Bool) → (is_retryable o && b) ≡ true → o ≢ reauth_needed
unfolding is_retryable
retryable_not_needed refreshed b h q = cc q
retryable_not_needed not_changed b h q = cc q
retryable_not_needed retryable b h q = cc q
retryable_not_needed skipped b h q = cc q
retryable_not_needed reauth_needed b h q = cc h

failure_not_needed : (x : MaintenanceResult) → is_escalatable x ≡ true → x.outcome ≢ reauth_needed
unfolding is_escalatable
failure_not_needed x h q = retryable_not_needed (x.outcome) _ h q

module _ (cal : Calendar) where
  abbrev pub pass : ReauthState → Round → Pass
  pass r e = apply_maintenance_escalation cal (e.now) (e.published) r (e.result)

  -- The state on the server after some passes, on any hosts, one after the other.
  unfoldable pub run : ReauthState → List Round → ReauthState
  run r [] = r
  run r (e ∷ es) = run (pass r e).shared es

  -- The server holds a streak of failures for a reason, since a time.
  pub record IsFailing (reason : Text) (first : ℕ) (r : ReauthState) : Type 0 where
    pub streak : Streak
    pub held : r.maintenance ≡ some streak
    pub for_reason : streak.reason ≡ reason
    pub since : cal.parse_date (streak.first_failed_at) ≡ some first

  -- A failure for the reason, or a pass that neither succeeds nor counts as an account's failure.
  abbrev pub IsStill : Text → Round → Type 0
  IsStill reason e =
      (is_success (e.result.outcome) ≡ false)
      × ((e.result.reason ≡ reason) ⊎ (is_escalatable (e.result) ≡ false))

  -- A published failure that can escalate, for the reason.
  pub record IsFailure (reason : Text) (e : Round) : Type 0 where
    pub escalatable : is_escalatable (e.result) ≡ true
    pub for_reason : e.result.reason ≡ reason
    pub reached : e.published ≡ confirmed

  same_streak :
      (reason : Text) (first : ℕ) (r : ReauthState) (f : IsFailing reason first r)
      → is_same_streak cal (some (f.streak)) reason ≡ true
  unfolding is_same_streak
  same_streak reason first r f = rw (f.for_reason, f.since, same_refl reason) refl

  kept_streak :
      (reason : Text) (first now : ℕ) (r : ReauthState) (f : IsFailing reason first r)
      → continued cal (some (f.streak)) reason now ≡ record {
        first_failed_at = f.streak.first_failed_at;
        reason = reason;
        count = some (next_count (f.streak.count));
      }
  unfolding continued
  kept_streak reason first now r f = rw (same_streak reason first r f) refl

  failure_not_success :
      (x : MaintenanceResult) → is_escalatable x ≡ true → is_success (x.outcome) ≡ false
  unfolding is_escalatable is_retryable is_success
  failure_not_success x h = retryable_not_success (x.outcome) _ h

  pub failed_maintenance :
      (r : ReauthState) (s : Streak) (b : Bool) → (failed_state cal r s b).maintenance ≡ some s
  unfolding failed_state
  failed_maintenance r s true = refl
  failed_maintenance r s false = refl

  pub pass_failure :
      (r : ReauthState) (e : Round)
      → is_escalatable (e.result) ≡ true
      → pass r e ≡ fail_pass cal (e.now) (e.published) r (e.result)
  unfolding apply_maintenance_escalation
  pass_failure r e h = rw (failure_not_success (e.result) h, h) refl

  pub pass_other :
      (r : ReauthState) (e : Round)
      → is_success (e.result.outcome) ≡ false
      → is_escalatable (e.result) ≡ false
      → pass r e ≡ record { local = r; shared = r; result = e.result }
  unfolding apply_maintenance_escalation
  pass_other r e s h = rw (s, h) refl

  pub continued_failing :
      (reason : Text) (first now : ℕ) (r : ReauthState)
      → IsFailing reason first r
      → (s : Streak) × (continued cal (r.maintenance) reason now ≡ s)
        × (s.reason ≡ reason)
        × (cal.parse_date (s.first_failed_at) ≡ some first)
  continued_failing reason first now r f = (
    _,
    ap (λ m. continued cal m reason now) (f.held) ∙ kept_streak reason first now r f,
    refl,
    f.since,
  )

  pub IsFailing-with :
      (reason : Text) (first : ℕ) (r : ReauthState) (s : Streak)
      → r.maintenance ≡ some s
      → s.reason ≡ reason
      → cal.parse_date (s.first_failed_at) ≡ some first
      → IsFailing reason first r
  IsFailing-with reason first r s h p q = record { streak = s; held = h; for_reason = p; since = q }

  written-IsFailing :
      (reason : Text) (first now : ℕ) (r : ReauthState) (x : MaintenanceResult)
      → x.reason ≡ reason
      → IsFailing reason first r
      → let s = continued cal (r.maintenance) (x.reason) now in
        IsFailing reason first (failed_state cal r s (is_escalated cal s now))
  written-IsFailing reason first now r x e f =
      let (s, p, q, w) = continued_failing reason first now r f in
      let c : continued cal (r.maintenance) (x.reason) now ≡ s = rw e p in
      IsFailing-with reason first _ s (failed_maintenance r _ _ ∙ ap some c) q w

  failed-IsFailing :
      (reason : Text) (first now : ℕ) (b : Publication) (r : ReauthState) (x : MaintenanceResult)
      → x.reason ≡ reason
      → IsFailing reason first r
      → IsFailing reason first (fail_pass cal now b r x).shared
  unfolding fail_pass published_or
  failed-IsFailing reason first now not_written r x e f = f
  failed-IsFailing reason first now landed r x e f = written-IsFailing reason first now r x e f
  failed-IsFailing reason first now confirmed r x e f = written-IsFailing reason first now r x e f

  pass-IsFailing :
      (reason : Text) (first : ℕ) (r : ReauthState) (e : Round)
      → IsStill reason e
      → IsFailing reason first r
      → IsFailing reason first (pass r e).shared
  pass-IsFailing reason first r e (n, k) f = elim (Bool-cases (is_escalatable (e.result))) [
    | inr x ↦ subst (λ p. IsFailing reason first p.shared) (sym (pass_other r e n x)) f
    | inl x ↦
        let q : e.result.reason ≡ reason = elim k [ inl y ↦ y | inr y ↦ cc (x, y) ] in
        subst (λ p. IsFailing reason first p.shared) (sym (pass_failure r e x))
          (failed-IsFailing reason first (e.now) (e.published) r (e.result) q f)
  ]

  -- No success in between, a streak keeps its reason and its start, whatever failures of other kinds
  -- and skipped passes come between and whether or not their policy reaches the server.
  pub run-IsFailing :
      (reason : Text) (first : ℕ) (r : ReauthState) (es : List Round)
      → All (IsStill reason) es
      → IsFailing reason first r
      → IsFailing reason first (run r es)
  unfolding run
  run-IsFailing reason first r [] h f = f
  run-IsFailing reason first r (e ∷ es) h f =
      run-IsFailing reason first (pass r e).shared es h.1 (pass-IsFailing reason first r e h.0 f)

  pub first-IsFailing :
      (reason : Text) (r : ReauthState) (e : Round)
      → r.maintenance ≡ none
      → IsFailure reason e
      → IsFailing reason (e.now) (pass r e).shared
  unfolding fail_pass continued published_or
  first-IsFailing reason r e m f =
      subst (λ p. IsFailing reason (e.now) p.shared) (sym (pass_failure r e (f.escalatable)))
        (rw (f.reached) (
          IsFailing-with reason (e.now) _ _
            (failed_maintenance r _ _
              ∙ ap (λ z. some (continued cal z (e.result.reason) (e.now))) m)
            (f.for_reason) (cal.parse-to_iso (e.now))))

  pub overdue_iff :
      (s : Streak) (first now : ℕ)
      → cal.parse_date (s.first_failed_at) ≡ some first
      → (is_escalated cal s now ≡ true) ↔ (first + escalate_after_ms ≤ now)
  unfolding is_escalated is_overdue
  overdue_iff s first now h = rw h (leb→le _ _, le→leb _ _)

  pub result_iff :
      (x : MaintenanceResult) (s : Streak) (b : Bool)
      → is_escalatable x ≡ true
      → ((failed_result cal x s confirmed b).outcome ≡ reauth_needed) ↔ (b ≡ true)
  unfolding failed_result
  result_iff x s true h = (λ _. refl, λ _. refl)
  result_iff x s false h = (λ q. absurd (failure_not_needed x h q), λ q. cc q)
