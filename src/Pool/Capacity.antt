-- ===== src/Pool/Capacity.antt =====
-- The outlook of `projectPoolCapacity` (src/pool/capacity.js) on the history of a pool.
pub mod Laws
use aimgr.Prelude.{
  ℕ, ◌+◌, ◌*◌, Bool, true, false, ◌&&◌, ◌||◌, Option, none, some, List, [], ◌∷◌, ◌++◌, filter,
  length, Text, codes, same, ends_with, leb, if◌then◌else◌,
}

-- An entry of the history; a property is none where it has another type, and the time where it
-- cannot be read.
pub record Event : Type 0 where
  pub observed_at_ms : Option ℕ
  pub kind : Option Text
  pub status : Option Text
  pub reason : Option Text
  pub had_spare_eligible_capacity : Option Bool

abbrev pub text_is : Option Text → Text → Bool
text_is none t = false
text_is (some s) t = same s t

abbrev pub spare_is : Bool → Option Bool → Bool
spare_is true (some true) = true
spare_is false (some false) = true
spare_is b o = false

-- `observedAt >= now - lookbackDays`, in milliseconds.
unfoldable pub is_recent : ℕ → ℕ → Event → Bool
is_recent now lookback_days e = elim e.observed_at_ms [
  | none ↦ false
  | some t ↦ leb now (t + lookback_days * 86400000)
]

unfoldable pub is_blocked_no_eligible : Event → Bool
unfolding same
is_blocked_no_eligible e =
    text_is e.status (codes "blocked") && text_is e.reason (codes "no_eligible_pool_account")

unfoldable pub is_demand_overflow : Event → Bool
unfolding same
is_demand_overflow e = text_is e.reason (codes "projected_demand_exceeds_eligible_supply")

unfoldable pub is_warning : Event → Bool
unfolding ends_with
is_warning e = elim e.status [ none ↦ false | some s ↦ ends_with (codes "_with_warnings") s ]

unfoldable pub is_exhaustion : Bool → Event → Bool
unfolding same
is_exhaustion spare e =
    text_is e.kind (codes "exhaustion") && spare_is spare e.had_spare_eligible_capacity

abbrev pub count_of : (Event → Bool) → List Event → ℕ
count_of p events = length (filter p events)

pub data RiskLevel : Type 0 where
  low medium high : RiskLevel

-- The reasons with their counts.
pub data CapacityReason : Type 0 where
  blocked_receipts demand_overflows no_spare_exhaustions spare_exhaustions warning_receipts :
      ℕ → CapacityReason

unfoldable pub need_more_accounts : List Event → Bool
unfolding is_blocked_no_eligible is_demand_overflow is_exhaustion
need_more_accounts events =
    leb 1 (count_of is_blocked_no_eligible events)
    || leb 2 (count_of (is_exhaustion false) events)
    || leb 1 (count_of is_demand_overflow events)

unfoldable pub risk_level : List Event → RiskLevel
unfolding need_more_accounts is_exhaustion is_warning
risk_level events =
    if need_more_accounts events
    then high
    else if leb 1 (count_of (is_exhaustion true) events) || leb 2 (count_of is_warning events)
    then medium
    else low

-- `if (count > 0) reasons.push(...)`.
abbrev pub reason_of : (ℕ → CapacityReason) → ℕ → List CapacityReason
reason_of reason n = if leb 1 n then reason n ∷ [] else []

unfoldable pub history_reasons : List Event → List CapacityReason
unfolding is_blocked_no_eligible is_demand_overflow is_exhaustion is_warning
history_reasons events =
    reason_of blocked_receipts (count_of is_blocked_no_eligible events)
    ++ reason_of demand_overflows (count_of is_demand_overflow events)
    ++ reason_of no_spare_exhaustions (count_of (is_exhaustion false) events)
    ++ reason_of spare_exhaustions (count_of (is_exhaustion true) events)
    ++ reason_of warning_receipts (count_of is_warning events)

pub record Outlook : Type 0 where
  pub needs_more : Bool
  pub risk : RiskLevel
  pub reasons : List CapacityReason

unfoldable pub project_pool_capacity : ℕ → ℕ → List Event → Outlook
unfolding is_recent need_more_accounts risk_level history_reasons
project_pool_capacity now lookback_days history =
    let events = filter (is_recent now lookback_days) history in
    record {
      needs_more = need_more_accounts events;
      risk = risk_level events;
      reasons = history_reasons events;
    }
