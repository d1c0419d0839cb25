-- ===== src/Credentials/Maintenance/Escalation.antt =====
-- Two hours of one failure
-- (src/credentials/claude-maintenance.js).
use aimgr.Prelude.{ℕ, ◌+◌, ◌≤◌, ◌≡◌, ◌↔◌, sym, subst, none, List, Text, All}
use aimgr.Credentials.Maintenance.{
  Calendar, reauth_needed, ReauthState, escalate_after_ms, is_escalated, continued, fail_pass,
}
use aimgr.Credentials.Maintenance.Laws.{
  Round, pass, run, IsFailing, IsStill, IsFailure, pass_failure, continued_failing, first-IsFailing,
  run-IsFailing, overdue_iff, result_iff,
}

module _ (cal : Calendar) where
  published_result :
      (reason : Text) (first : ℕ) (r : ReauthState) (e : Round)
      → IsFailing cal reason first r
      → IsFailure cal reason e
      → ((fail_pass cal (e.now) (e.published) r (e.result)).result.outcome ≡ reauth_needed)
        ↔ (first + escalate_after_ms ≤ e.now)
  unfolding fail_pass
  published_result reason first r e f h =
      let (s, p, q, w) = continued_failing cal reason first (e.now) r f in
      let c : continued cal (r.maintenance) (e.result.reason) (e.now) ≡ s = rw (h.for_reason) p in
      let b = is_escalated cal s (e.now) in
      let (x, y) = result_iff cal (e.result) s b (h.escalatable) in
      let (u, v) = overdue_iff cal s first (e.now) w in
      rw (h.reached, c) (λ z. u (x z), λ z. y (v z))

  failing_result :
      (reason : Text) (first : ℕ) (r : ReauthState) (e : Round)
      → IsFailing cal reason first r
      → IsFailure cal reason e
      → ((pass cal r e).result.outcome ≡ reauth_needed) ↔ (first + escalate_after_ms ≤ e.now)
  failing_result reason first r e f h =
      subst (λ p. (p.result.outcome ≡ reauth_needed) ↔ (first + escalate_after_ms ≤ e.now))
        (sym (pass_failure cal r e (h.escalatable))) (published_result reason first r e f h)

  -- From an account without a streak: after a published failure for a reason, and then passes that
  -- neither succeed nor fail for another reason of the account, the next published failure for that
  -- reason asks for a new login exactly where two hours have gone by since the first.
  pub escalation_iff :
      (reason : Text) (r : ReauthState) (e0 : Round) (es : List Round) (e1 : Round)
      → r.maintenance ≡ none
      → IsFailure cal reason e0
      → All (IsStill cal reason) es
      → IsFailure cal reason e1
      → ((pass cal (run cal (pass cal r e0).shared es) e1).result.outcome ≡ reauth_needed)
        ↔ (e0.now + escalate_after_ms ≤ e1.now)
  escalation_iff reason r e0 es e1 m f h g =
      failing_result reason (e0.now) _ e1
        (run-IsFailing cal reason (e0.now) _ es h (first-IsFailing cal reason r e0 m f)) g
