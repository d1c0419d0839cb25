-- ===== src/Credentials/Maintenance/Blocked.antt =====
-- Labels that are blocked until a new login (src/credentials/claude-maintenance.js).
use aimgr.Prelude.{ℕ, ◌+◌, ◌≤◌, ◌≡◌, ◌⊎◌, some, Text}
use aimgr.Credentials.Maintenance.{
  Calendar, MaintenanceResult, reauth_needed, ReauthState, Pass, escalate_after_ms,
  reauth_required_reason,
}
use aimgr.Credentials.Maintenance.Laws.{IsFailing}

module _ (cal : Calendar) where
  -- The server holds the block and a streak for the reason that has lasted for two hours.
  pub record IsBlocked (reason : Text) (now : ℕ) (r : ReauthState) : Type 0 where
    pub blocked : r.blocked_reason ≡ some (reauth_required_reason cal)
    pub first : ℕ
    pub failing : IsFailing cal reason first r
    pub lasted : first + escalate_after_ms ≤ now

  -- A new login is asked for only with the block on the server, and the block is as it was or comes
  -- with a streak of two hours.
  abbrev pub IsSound : ReauthState → ℕ → MaintenanceResult → Pass → Type 0
  IsSound r now x p =
      ((p.result ≡ x) ⊎ ((p.result.outcome ≡ reauth_needed) × IsBlocked (x.reason) now (p.shared)))
      × ((p.shared.blocked_reason ≡ r.blocked_reason) ⊎ IsBlocked (x.reason) now (p.shared))
