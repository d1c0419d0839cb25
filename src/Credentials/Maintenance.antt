-- ===== src/Credentials/Maintenance.antt =====
-- What a maintenance pass leaves of its failure: `applyMaintenanceEscalation` and its publication
-- (src/credentials/claude-maintenance.js).
pub mod Laws
pub mod Escalation
pub mod Blocked
use aimgr.Prelude.{
  ℕ, ◌+◌, ◌≡◌, Bool, true, false, not, ◌&&◌, ◌||◌, Option, none, some, List, [], ◌∷◌, ◌++◌, Text,
  codes, same, includes, leb, is_some, if◌then◌else◌,
}

-- Dates of the language's library: `new Date(ms).toISOString()`, and `Date.parse`, which reads it back.
pub record Calendar : Type 0 where
  pub to_iso : ℕ → Text
  pub parse_date : Text → Option ℕ
  pub parse-to_iso : (ms : ℕ) → parse_date (to_iso ms) ≡ some ms

pub data PassOutcome : Type 0 where
  refreshed not_changed retryable skipped reauth_needed : PassOutcome

pub record MaintenanceResult : Type 0 where
  pub outcome : PassOutcome
  pub reason : Text
  pub detail : Option Text

-- `reauth.maintenance`; a count that is no safe integer is `none`.
pub record Streak : Type 0 where
  pub first_failed_at : Text
  pub reason : Text
  pub count : Option ℕ

-- The account's `reauth`, without its other keys.
pub record ReauthState : Type 0 where
  pub blocked_reason : Option Text
  pub maintenance : Option Streak

abbrev pub retry_reasons : List Text
retry_reasons =
    codes "proxy_unavailable"
    ∷ codes "client_failed"
    ∷ codes "client_signaled"
    ∷ codes "client_timeout"
    ∷ codes "client_unavailable"
    ∷ codes "coordination_unavailable"
    ∷ codes "lease_lost"
    ∷ codes "lease_release_failed"
    ∷ codes "local_state_conflict"
    ∷ codes "local_state_unreadable"
    ∷ codes "maintenance_failed"
    ∷ codes "publication_failed"
    ∷ []

abbrev pub escalatable_retry_reasons : List Text
escalatable_retry_reasons =
    codes "client_failed"
    ∷ codes "client_signaled"
    ∷ codes "local_state_conflict"
    ∷ codes "local_state_unreadable"
    ∷ []

-- `MAINTENANCE_FAILURE_ESCALATE_AFTER_MS`.
abbrev pub escalate_after_ms : ℕ
escalate_after_ms = 7200000

unfoldable pub is_success : PassOutcome → Bool
is_success refreshed = true
is_success not_changed = true
is_success retryable = false
is_success skipped = false
is_success reauth_needed = false

unfoldable pub is_retryable : PassOutcome → Bool
is_retryable refreshed = false
is_retryable not_changed = false
is_retryable retryable = true
is_retryable skipped = false
is_retryable reauth_needed = false

-- A failure that can escalate.
unfoldable pub is_escalatable : MaintenanceResult → Bool
unfolding is_retryable includes
is_escalatable r = is_retryable (r.outcome) && includes (r.reason) escalatable_retry_reasons

-- What the pass leaves: the state that this host holds, the state on the server, and the result.
pub record Pass : Type 0 where
  pub local : ReauthState
  pub shared : ReauthState
  pub result : MaintenanceResult

unfoldable pub next_count : Option ℕ → ℕ
next_count none = 1
next_count (some n) = n + 1

-- What becomes of the publication: it succeeds, or the write lands and a later step throws (the reply
-- is lost, or the snapshot cannot be read again), or nothing is written.
pub data Publication : Type 0 where
  confirmed landed not_written : Publication

unfoldable pub published_or : Publication → ReauthState → ReauthState → ReauthState
published_or confirmed new old = new
published_or landed new old = new
published_or not_written new old = old

module _ (cal : Calendar) where
  -- `streak?.reason === result.reason && Number.isFinite(Date.parse(streak?.firstFailedAt))`.
  unfoldable pub is_same_streak : Option Streak → Text → Bool
  is_same_streak none reason = false
  is_same_streak (some s) reason =
      same (s.reason) reason && is_some (cal.parse_date (s.first_failed_at))

  unfoldable pub continued : Option Streak → Text → ℕ → Streak
  unfolding is_same_streak next_count
  continued none reason now = record {
    first_failed_at = cal.to_iso now;
    reason = reason;
    count = some 1;
  }
  continued (some s) reason now =
      if is_same_streak (some s) reason
      then record {
        first_failed_at = s.first_failed_at;
        reason = reason;
        count = some (next_count (s.count));
      }
      else record { first_failed_at = cal.to_iso now; reason = reason; count = some 1 }

  -- `nowMs - Date.parse(firstFailedAt) >= MAINTENANCE_FAILURE_ESCALATE_AFTER_MS`; with NaN it is false.
  unfoldable pub is_overdue : Option ℕ → ℕ → Bool
  is_overdue none now = false
  is_overdue (some first) now = leb (first + escalate_after_ms) now

  unfoldable pub is_escalated : Streak → ℕ → Bool
  unfolding is_overdue
  is_escalated s now = is_overdue (cal.parse_date (s.first_failed_at)) now

  abbrev pub reauth_required_reason : Text
  reauth_required_reason = codes "oauth_reauth_required"

  unfoldable pub failed_state : ReauthState → Streak → Bool → ReauthState
  failed_state r s true = record {
    blocked_reason = some reauth_required_reason;
    maintenance = some s;
  }
  failed_state r s false = record { blocked_reason = r.blocked_reason; maintenance = some s }

  unfoldable pub failed_result : MaintenanceResult → Streak → Publication → Bool → MaintenanceResult
  failed_result r s not_written escalated = r
  failed_result r s landed escalated = r
  failed_result r s confirmed false = r
  failed_result r s confirmed true = record {
    outcome = reauth_needed;
    reason = codes "escalated_persistent_failure";
    detail = some (codes "persistent " ++ (r.reason ++ (codes " since " ++ s.first_failed_at)));
  }

  unfoldable pub fail_pass : ℕ → Publication → ReauthState → MaintenanceResult → Pass
  unfolding continued is_escalated failed_state failed_result published_or
  fail_pass now published r result =
      let s = continued (r.maintenance) (result.reason) now in
      let e = is_escalated s now in
      record {
        local = failed_state r s e;
        shared = published_or published (failed_state r s e) r;
        result = failed_result result s published e;
      }

  -- A success clears the streak, where there is one.
  unfoldable pub cleared_pass : Publication → ReauthState → MaintenanceResult → Option Streak → Pass
  unfolding published_or
  cleared_pass published r result none = record { local = r; shared = r; result = result }
  cleared_pass published r result (some s) =
      let cleared : ReauthState = record {
        blocked_reason = r.blocked_reason;
        maintenance = none;
      } in
      record { local = cleared; shared = published_or published cleared r; result = result }

  unfoldable pub success_pass : Publication → ReauthState → MaintenanceResult → Pass
  unfolding cleared_pass
  success_pass published r result = cleared_pass published r result (r.maintenance)

  -- `applyMaintenanceEscalation`, for an account that exists. `published` says what becomes of the
  -- check of the lease, the write of the policy and the reading after it; the state comes from the
  -- server.
  unfoldable pub apply_maintenance_escalation :
      ℕ → Publication → ReauthState → MaintenanceResult → Pass
  unfolding fail_pass success_pass is_success is_escalatable
  apply_maintenance_escalation now published r result =
      if is_success (result.outcome)
      then success_pass published r result
      else if is_escalatable result
      then fail_pass now published r result
      else record { local = r; shared = r; result = result }
