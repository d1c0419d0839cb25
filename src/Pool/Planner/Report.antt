-- ===== src/Pool/Planner/Report.antt =====
-- What the planner returns: `buildWeightedPerAccountLoad`, the status and the early returns.
pub mod Loads
use aimgr.Prelude.{
  ℕ, Bool, true, false, not, ◌&&◌, Option, none, some, List, [], ◌∷◌, map, filter, all, length,
  Text, same, Preorder, on, sort_by, ◌==◌, if◌then◌else◌,
}
use aimgr.Pool.Usage.{Numbers}
use aimgr.Pool.Planner.Weights.{Arithmetic, round_demand_weight}
use aimgr.Pool.Planner.Candidates.{Supply}
use aimgr.Pool.Planner.Demands.{Demand}
use aimgr.Pool.Planner.Loop.{
  SkipReason, no_eligible_pool_account, projected_demand_exceeds_eligible_supply, Move, Stay, Skip,
  Progress, Setting,
}

pub data PlanStatus : Type 0 where
  applied noop blocked applied_with_warnings : PlanStatus

pub data AllocationMode : Type 0 where
  demand_weighted cold_start_equal_share : AllocationMode

module _ (num : Numbers) (ar : Arithmetic num) (locale : Preorder Text) where
  open num use {Number}

  pub record Load : Type 0 where
    pub label : Text
    pub assigned_agents : List Text
    pub carried_agent_count : ℕ
    pub carried_demand_weight : Number
    pub target_demand_weight : Number
    pub capacity_budget_weight : Option Number
    pub primary_remaining_pct : Number
    pub secondary_remaining_pct : Number

  -- `agentsByLabel[label]`.
  unfoldable pub agents_of : Text → List (Text × Text) → List Text
  agents_of label assignments = map (λ a. a.0) (filter (λ a. same label a.1) assignments)

  unfoldable pub load_of : Setting num ar locale → Progress num ar locale → Text → Load
  unfolding agents_of
  load_of g p label = record {
    label = label;
    assigned_agents = sort_by locale (agents_of label p.assignments);
    carried_agent_count = length (agents_of label p.assignments);
    carried_demand_weight = round_demand_weight num ar (p.demands label);
    target_demand_weight = round_demand_weight num ar (g.target label);
    capacity_budget_weight = elim ((g.supply label).capacity_budget_weight) [
      | none ↦ none
      | some budget ↦ some (round_demand_weight num ar budget)
    ];
    primary_remaining_pct = (g.supply label).primary_remaining_pct;
    secondary_remaining_pct = (g.supply label).secondary_remaining_pct;
  }

  unfoldable pub build_weighted_per_account_load :
      Setting num ar locale → Progress num ar locale → List Load
  unfolding load_of
  build_weighted_per_account_load g p =
      sort_by (on locale (λ (l : Load). l.label)) (map (load_of g p) g.labels)

  pub record Plan : Type 0 where
    pub assignments : List (Text × Text)
    pub moved : List (Move num ar locale)
    pub unchanged : List (Stay num ar locale)
    pub skipped : List (Skip num ar locale)
    pub blockers : List SkipReason
    pub status : PlanStatus
    pub allocation_mode : AllocationMode
    pub per_account_load : List Load

  abbrev pub is_exceeded : Skip num ar locale → Bool
  is_exceeded s = elim s.reason [
    | no_eligible_pool_account ↦ false
    | projected_demand_exceeds_eligible_supply ↦ true
  ]

  abbrev pub is_nil {ℓ} : {A : Type ℓ} → List A → Bool
  is_nil [] = true
  is_nil (x ∷ xs) = false

  -- The status, and the blocker that a plan without any assignment gets.
  unfoldable pub final_status :
      List Text
      → List (Skip num ar locale)
      → List (Move num ar locale)
      → PlanStatus × List SkipReason
  final_status subjects skipped moved =
      if is_nil subjects
      then (noop, [])
      else if not (is_nil skipped) && (length skipped == length subjects)
      then (
        blocked,
        (if all is_exceeded skipped
              then projected_demand_exceeds_eligible_supply
              else no_eligible_pool_account)
            ∷ [],
      )
      else if is_nil moved && is_nil skipped
      then (noop, [])
      else if not (is_nil skipped)
      then (applied_with_warnings, [])
      else (applied, [])

  -- The early returns: no agent is assigned, and all are skipped for one reason.
  unfoldable pub blocked_plan :
      SkipReason → AllocationMode → (Text → Option (Demand num ar)) → List Text → Plan
  blocked_plan reason mode demand subjects = record {
    assignments = [];
    moved = [];
    unchanged = [];
    skipped = map (λ s. record { subject = s; reason = reason; demand = demand s }) subjects;
    blockers = reason ∷ [];
    status = blocked;
    allocation_mode = mode;
    per_account_load = [];
  }

  unfoldable pub finish_plan :
      Setting num ar locale → AllocationMode → List Text → Progress num ar locale → Plan
  unfolding final_status build_weighted_per_account_load
  finish_plan g mode subjects p =
      let (status, blockers) = final_status subjects p.skipped p.moved in
      record {
        assignments = p.assignments;
        moved = p.moved;
        unchanged = p.unchanged;
        skipped = p.skipped;
        blockers = blockers;
        status = status;
        allocation_mode = mode;
        per_account_load = build_weighted_per_account_load g p;
      }
