-- ===== src/Tests/Maintenance.antt =====
-- A failure that lasts for two hours.
use aimgr.Prelude.{
  ℕ, ◌≡◌, refl, none, some, List, [], ◌∷◌, Text, codes, same, includes, inl, inr, arith, All,
}
use aimgr.Credentials.Maintenance.{
  Publication, confirmed, landed, Calendar, PassOutcome, retryable, skipped, reauth_needed,
  ReauthState, is_success, is_retryable, is_escalatable,
}
use aimgr.Credentials.Maintenance.Laws.{Round, pass, run, IsStill, IsFailure}
use aimgr.Credentials.Maintenance.Escalation.{escalation_iff}

-- A calendar that writes a time as its number.
abbrev calendar : Calendar
calendar = record {
  to_iso = λ ms. ms ∷ [];
  parse_date = λ t. elim t [ [] ↦ none | ms ∷ rest ↦ some ms ];
  parse-to_iso = λ ms. refl;
}

abbrev event : ℕ → Publication → PassOutcome → Text → Round
event now published outcome reason = record {
  now = now;
  published = published;
  result = record { outcome = outcome; reason = reason; detail = none };
}

abbrev fresh : ReauthState
fresh = record { blocked_reason = none; maintenance = none }

abbrev first_failure : Round
first_failure = event 1000 confirmed retryable (codes "client_failed")

abbrev between : List Round
between =
    event 2000 confirmed skipped (codes "not_due")
    ∷ event 3000 landed retryable (codes "client_failed")
    ∷ event 4000 confirmed retryable (codes "proxy_unavailable")
    ∷ []

abbrev last_failure : Round
last_failure = event 7201000 confirmed retryable (codes "client_failed")

first_counts : IsFailure calendar (codes "client_failed") first_failure
unfolding same includes is_retryable is_escalatable
first_counts = record { escalatable = refl; for_reason = refl; reached = refl }

last_counts : IsFailure calendar (codes "client_failed") last_failure
unfolding same includes is_retryable is_escalatable
last_counts = record { escalatable = refl; for_reason = refl; reached = refl }

between-IsStill : All (IsStill calendar (codes "client_failed")) between
unfolding same includes is_retryable is_escalatable is_success
between-IsStill = ((refl, inr refl), ((refl, inl refl), ((refl, inr refl), tt)))

escalation_iff_example :
    (pass calendar
      (run calendar (pass calendar fresh first_failure).shared between)
      last_failure).result.outcome
    ≡ reauth_needed
escalation_iff_example =
    (escalation_iff calendar (codes "client_failed") fresh first_failure between last_failure refl
        first_counts between-IsStill last_counts).1
      (omega arith)

-- The streak of the first failure, and a last failure whose write lands although its reply is lost.
abbrev failing : ReauthState
failing = record {
  blocked_reason = none;
  maintenance =
      some (record { first_failed_at = 1000 ∷ []; reason = codes "client_failed"; count = some 2 });
}

abbrev reply_lost : Round
reply_lost = event 7201000 landed retryable (codes "client_failed")
