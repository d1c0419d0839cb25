-- ===== src/Tests/Rank.antt =====
-- Two labels ranked, the second of them current; and the outlook on a pool's history.
use aimgr.Prelude.{
  ◌≢◌, ◌↔◌, ◌⊎◌, ◌≤◌, true, ◌++◌, ◌≡◌, refl, none, some, List, [], ◌∷◌, codes, ok, ascii_lower,
  trim, is_space, lower_unit, includes, same,
}
use aimgr.Core.Labels.{normalize_label, normalize_agent_id, check_id, is_label_text}
use aimgr.Pool.Usage.{math_max}
use aimgr.Pool.Planner.Weights.{round_demand_weight}
use aimgr.Pool.Cycle.{distinct}
use aimgr.Pool.Select.{normalize_all}
use aimgr.Pool.Planner.Demands.{normalize_each}
use aimgr.Pool.Rank.Demands.{
  build_status_demand_by_agent, Assigned, assign, assign_label, assign_entry,
  build_assigned_demand_by_label,
}
use aimgr.Pool.Rank.{
  ReceiptLoad, RankedCandidate, receipt_targets, selection_weight, nothing_assigned,
  normalize_current, rank_pool_candidates,
}
use aimgr.Pool.Rank.Forward.{IsRanked}
use aimgr.Pool.Rank.Laws.{rank_pool-IsRanked}
use aimgr.Pool.Capacity.{Event, high, low, project_pool_capacity}
use aimgr.Pool.Capacity.Laws.{rank_of, project_capacity-IsMonotone}
use aimgr.Tests.Pool.{whole, locale, usage, pool}
use aimgr.Tests.Planner.{sums, agents, ledger}

abbrev loads : List (ReceiptLoad whole)
loads =
    record {
      label = some (codes "a");
      capacity_budget_weight = none;
      target_demand_weight = some 3;
      carried_demand_weight = some 1;
    }
    ∷ []

-- Agent x has the label b, and the other agent is not configured with any.
abbrev assigned : Assigned whole sums
assigned =
    assign whole sums (build_status_demand_by_agent whole sums agents ledger) (codes "x")
      (codes "b") (nothing_assigned whole sums locale)

rank_pool-IsRanked_example :
    (cs : List (RankedCandidate whole sums locale)) × (rank_pool_candidates whole sums locale
        ascii_lower pool usage
        (some (codes "b"))
        ((codes "x", some (codes "b")) ∷ [])
        agents
        ledger
        loads
        none
      ≡ ok cs)
    × IsRanked whole sums locale
        (selection_weight whole sums locale none
          (build_status_demand_by_agent whole sums agents ledger))
        (some (codes "b"))
        (distinct pool)
        cs
unfolding normalize_agent_id normalize_label normalize_each normalize_all normalize_current trim
    is_label_text is_space lower_unit includes same distinct check_id build_assigned_demand_by_label
    assign_entry assign_label receipt_targets round_demand_weight math_max
rank_pool-IsRanked_example =
    rank_pool-IsRanked whole sums locale ascii_lower pool usage (some (codes "b"))
      ((codes "x", some (codes "b")) ∷ []) agents ledger loads none pool (some (codes "b")) agents
      assigned ((codes "a", 3) ∷ []) refl refl refl refl refl

abbrev overflow : Event
overflow = record {
  observed_at_ms = some 5;
  kind = none;
  status = none;
  reason = some (codes "projected_demand_exceeds_eligible_supply");
  had_spare_eligible_capacity = none;
}

abbrev calm : List Event
calm = record overflow { reason = none } ∷ []

project_capacity-IsMonotone_example :
    (rank_of ((project_pool_capacity 10 14 (calm ++ calm)).risk)
      ≤ rank_of ((project_pool_capacity 10 14 (calm ++ (overflow ∷ []) ++ calm)).risk))
    × (((project_pool_capacity 10 14 calm).needs_more ≡ true)
        ↔ ((project_pool_capacity 10 14 calm).risk ≡ high))
    × (((project_pool_capacity 10 14 calm).risk ≡ low)
        ⊎ ((project_pool_capacity 10 14 calm).reasons ≢ []))
project_capacity-IsMonotone_example = project_capacity-IsMonotone 10 14 calm (overflow ∷ []) calm
