-- ===== src/Pool/Capacity/Laws.antt =====
-- The risk that the history shows.
use aimgr.Prelude.{
  ℕ, ◌+◌, ◌≤◌, ◌≡◌, ◌≢◌, ◌↔◌, ◌⊎◌, refl, ap, ◌∙◌, Bool, true, false, Bool-cases, inl, inr, List, [],
  ◌++◌, filter, filter-append, length, length-append, leb, arith, if◌then◌else◌,
}
use aimgr.Pool.Capacity.{
  Event, is_recent, is_blocked_no_eligible, is_demand_overflow, is_warning, is_exhaustion, count_of,
  RiskLevel, low, medium, high, need_more_accounts, risk_level, history_reasons, CapacityReason,
  reason_of, blocked_receipts, demand_overflows, no_spare_exhaustions, spare_exhaustions,
  warning_receipts, project_pool_capacity,
}

abbrev pub rank_of : RiskLevel → ℕ
rank_of low = 0
rank_of medium = 1
rank_of high = 2

count_of_append :
    (p : Event → Bool) (xs ys : List Event) → count_of p (xs ++ ys) ≡ count_of p xs + count_of p ys
count_of_append p xs ys =
    ap length (filter-append p xs ys) ∙ length-append (filter p xs) (filter p ys)

-- Events that come in between are counted too.
count_of-le :
    (p : Event → Bool) (xs more ys : List Event)
    → count_of p (xs ++ ys) ≤ count_of p (xs ++ more ++ ys)
count_of-le p xs more ys =
    omega
      (arith, count_of_append p xs ys, count_of_append p (xs ++ more) ys, count_of_append p xs more)

need_more-le :
    (xs more ys : List Event)
    → need_more_accounts (xs ++ ys) ≡ true
    → need_more_accounts (xs ++ more ++ ys) ≡ true
unfolding need_more_accounts
need_more-le xs more ys h = ground (
  arith,
  h,
  count_of-le is_blocked_no_eligible xs more ys,
  count_of-le (is_exhaustion false) xs more ys,
  count_of-le is_demand_overflow xs more ys,
)

risk_level-le :
    (xs more ys : List Event)
    → rank_of (risk_level (xs ++ ys)) ≤ rank_of (risk_level (xs ++ more ++ ys))
unfolding risk_level
risk_level-le xs more ys = ground (
  arith,
  need_more-le xs more ys,
  count_of-le (is_exhaustion true) xs more ys,
  count_of-le is_warning xs more ys,
)

not_high : (b : Bool) → (if b then medium else low) ≡ high → false ≡ true
not_high true h = cc h
not_high false h = cc h

-- More accounts are asked for exactly at the highest risk.
need_more_iff :
    (events : List Event) → (need_more_accounts events ≡ true) ↔ (risk_level events ≡ high)
unfolding risk_level
need_more_iff events = elim (Bool-cases (need_more_accounts events)) [
  | inl e ↦ rw e (λ _. refl, λ _. refl)
  | inr e ↦ rw e (λ h. cc h, λ h. not_high _ h)
]

length-reason_of :
    (reason : ℕ → CapacityReason) (n : ℕ) → length (reason_of reason n) ≡ (if leb 1 n then 1 else 0)
length-reason_of reason n = elim (Bool-cases (leb 1 n)) [ inl e ↦ rw e refl | inr e ↦ rw e refl ]

-- As many reasons as kinds of event that occur.
length-history_reasons :
    (events : List Event)
    → length (history_reasons events)
      ≡ length (reason_of blocked_receipts (count_of is_blocked_no_eligible events))
        + length (reason_of demand_overflows (count_of is_demand_overflow events))
        + length (reason_of no_spare_exhaustions (count_of (is_exhaustion false) events))
        + length (reason_of spare_exhaustions (count_of (is_exhaustion true) events))
        + length (reason_of warning_receipts (count_of is_warning events))
unfolding history_reasons
length-history_reasons events = rw (length-append, length-append, length-append, length-append) refl

-- A risk has a reason.
risk_has_reason :
    (events : List Event)
    → leb 1 (rank_of (risk_level events)) ≡ true
    → leb 1 (length (history_reasons events)) ≡ true
unfolding risk_level need_more_accounts
risk_has_reason events h = ground (
  arith,
  h,
  length-history_reasons events,
  length-reason_of blocked_receipts (count_of is_blocked_no_eligible events),
  length-reason_of demand_overflows (count_of is_demand_overflow events),
  length-reason_of no_spare_exhaustions (count_of (is_exhaustion false) events),
  length-reason_of spare_exhaustions (count_of (is_exhaustion true) events),
  length-reason_of warning_receipts (count_of is_warning events),
)

some_reason :
    (events : List Event) → leb 1 (rank_of (risk_level events)) ≡ true → history_reasons events ≢ []
some_reason events h e =
    let n : leb 1 (length (history_reasons events)) ≡ true = risk_has_reason events h in
    absurd (cc (rw e at n))

risk_reasons :
    (events : List Event) (r : RiskLevel)
    → risk_level events ≡ r
    → (risk_level events ≡ low) ⊎ (history_reasons events ≢ [])
risk_reasons events low e = inl e
risk_reasons events medium e = inr (some_reason events (rw e refl))
risk_reasons events high e = inr (some_reason events (rw e refl))

-- More history never lowers the risk, wherever it comes in; more accounts are asked for exactly at
-- the highest risk; and a risk above the lowest comes with a reason.
pub project_capacity-IsMonotone :
    (now lookback_days : ℕ) (xs more ys : List Event)
    → (rank_of ((project_pool_capacity now lookback_days (xs ++ ys)).risk)
        ≤ rank_of ((project_pool_capacity now lookback_days (xs ++ more ++ ys)).risk))
      × (((project_pool_capacity now lookback_days xs).needs_more ≡ true)
          ↔ ((project_pool_capacity now lookback_days xs).risk ≡ high))
      × (((project_pool_capacity now lookback_days xs).risk ≡ low)
          ⊎ ((project_pool_capacity now lookback_days xs).reasons ≢ []))
unfolding project_pool_capacity
project_capacity-IsMonotone now lookback_days xs more ys =
    let recent = is_recent now lookback_days in
    (
      rw
          (
            filter-append recent xs ys,
            filter-append recent (xs ++ more) ys,
            filter-append recent xs more,
          )
          (risk_level-le (filter recent xs) (filter recent more) (filter recent ys)),
      need_more_iff (filter recent xs),
      risk_reasons (filter recent xs) _ refl,
    )
