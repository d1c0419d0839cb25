-- ===== src/Pool/Planner/Candidates.antt =====
-- The candidates for one agent: `buildWeightedRebalanceSupply`, `buildWeightedRebalanceCandidate` and
-- `shouldKeepCurrentWeightedAssignment`, with the order that the planner sorts by.
use aimgr.Prelude.{
  ℕ, ◌≡◌, refl, Bool, true, false, ◌&&◌, Option, none, some, Text, Preorder, on, down, ◌then_by◌,
  ℕ_order, if◌then◌else◌,
}
use aimgr.Pool.Usage.{Numbers, Snapshot, math_max, build_label_capacity_info}
use aimgr.Pool.Planner.Weights.{Arithmetic, normalize_demand_weight, round_demand_weight}

-- A ratio, which is infinite (`none`) where nothing is budgeted.
abbrev pub le_ratio : (num : Numbers) → Option num.Number → Option num.Number → Bool
le_ratio num none none = true
le_ratio num none (some n) = false
le_ratio num (some m) none = true
le_ratio num (some m) (some n) = num.order.le m n

pub le_ratio_total :
    (num : Numbers) (a b : Option num.Number) → le_ratio num a b ≡ false → le_ratio num b a ≡ true
le_ratio_total num none none h = refl
le_ratio_total num none (some n) h = refl
le_ratio_total num (some m) none h = cc h
le_ratio_total num (some m) (some n) h = num.order.total m n h

pub le_ratio_trans :
    (num : Numbers) (a b c : Option num.Number)
    → le_ratio num a b ≡ true
    → le_ratio num b c ≡ true
    → le_ratio num a c ≡ true
le_ratio_trans num none none c h k = k
le_ratio_trans num none (some n) c h k = cc h
le_ratio_trans num (some m) b none h k = refl
le_ratio_trans num (some m) none (some p) h k = cc k
le_ratio_trans num (some m) (some n) (some p) h k = num.order.trans m n p h k

abbrev pub ratio_order : (num : Numbers) → Preorder (Option num.Number)
ratio_order num = record {
  le = le_ratio num;
  total = le_ratio_total num;
  trans = le_ratio_trans num;
}

module _ (num : Numbers) (ar : Arithmetic num) (locale : Preorder Text) where
  open num use {Number, order, of_ℕ, minus}
  open ar use {plus, times, divide, overflow_factor, ratio_threshold}

  -- What the planner knows of a label's account: its capacity, and its budget once it is known.
  pub record Supply : Type 0 where
    pub primary_remaining_pct : Number
    pub secondary_remaining_pct : Number
    pub target_units : Number
    pub capacity_budget_weight : Option Number

  -- `Math.max(0, capacity.remainingPct)`.
  unfoldable pub target_units_of : Option (Snapshot num) → Number
  target_units_of snapshot =
      math_max num (of_ℕ 0) ((build_label_capacity_info num snapshot).planning_remaining_pct)

  unfoldable pub build_weighted_rebalance_supply : Option (Snapshot num) → Supply
  unfolding target_units_of
  build_weighted_rebalance_supply snapshot =
      let capacity = build_label_capacity_info num snapshot in
      record {
        primary_remaining_pct = capacity.primary_remaining_pct;
        secondary_remaining_pct = capacity.secondary_remaining_pct;
        target_units = target_units_of snapshot;
        capacity_budget_weight = none;
      }

  pub record Candidate : Type 0 where
    pub label : Text
    pub assigned_count : ℕ
    pub current_assigned_demand_weight : Number
    pub target_demand_weight : Number
    pub projected_demand_weight : Number
    pub overflow_weight : Number
    pub projected_demand_ratio : Option Number
    pub remaining_budget_weight : Option Number
    pub primary_remaining_pct : Number
    pub secondary_remaining_pct : Number

  -- A weight over a target, infinite over no target, and zero for no weight.
  unfoldable pub demand_ratio : Number → Number → Option Number
  demand_ratio projected target =
      if order.le target (of_ℕ 0)
      then (if order.le projected (of_ℕ 0) then some (of_ℕ 0) else none)
      else some (divide projected target)

  unfoldable pub remaining_budget : Option Number → Number → Option Number
  remaining_budget none assigned = none
  remaining_budget (some budget) assigned =
      some (round_demand_weight num ar (math_max num (of_ℕ 0) (minus budget assigned)))

  -- `target_demand` is `supply.targetDemandWeight`; `assigned` is the label's assigned demand, and
  -- `count` its number of agents.
  unfoldable pub build_weighted_rebalance_candidate :
      Text → Supply → Number → Number → ℕ → Number → Candidate
  unfolding demand_ratio remaining_budget
  build_weighted_rebalance_candidate label supply target_demand assigned count agent_weight =
      let current = normalize_demand_weight num (some assigned) (of_ℕ 0) in
      let target = normalize_demand_weight num (some target_demand) (of_ℕ 0) in
      let projected = plus current agent_weight in
      record {
        label = label;
        assigned_count = count;
        current_assigned_demand_weight = round_demand_weight num ar current;
        target_demand_weight = round_demand_weight num ar target;
        projected_demand_weight = round_demand_weight num ar projected;
        overflow_weight =
            round_demand_weight num ar (math_max num (of_ℕ 0) (minus projected target));
        projected_demand_ratio = demand_ratio projected target;
        remaining_budget_weight = remaining_budget supply.capacity_budget_weight current;
        primary_remaining_pct = supply.primary_remaining_pct;
        secondary_remaining_pct = supply.secondary_remaining_pct;
      }

  -- The least overflow, then the least ratio, the most that remains, the fewest agents, the name.
  abbrev pub candidate_order : Preorder Candidate
  candidate_order =
      on order (λ c. c.overflow_weight)
      then_by on (ratio_order num) (λ c. c.projected_demand_ratio)
      then_by down (on order (λ c. c.secondary_remaining_pct))
      then_by down (on order (λ c. c.primary_remaining_pct))
      then_by on ℕ_order (λ c. c.assigned_count)
      then_by on locale (λ c. c.label)

  abbrev pub plus_ratio : Option Number → Number → Option Number
  plus_ratio none n = none
  plus_ratio (some r) n = some (plus r n)

  unfoldable pub should_keep_current_weighted_assignment : Candidate → Candidate → Number → Bool
  should_keep_current_weighted_assignment current best agent_weight =
      order.le current.overflow_weight
        (plus best.overflow_weight (times agent_weight overflow_factor))
      && (ratio_order num).le current.projected_demand_ratio
          (plus_ratio best.projected_demand_ratio ratio_threshold)
