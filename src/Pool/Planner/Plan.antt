-- ===== src/Pool/Planner/Plan.antt =====
-- `planWeightedPoolAssignments`: the plan for all agents.
pub mod Settled
pub mod Outcome
use aimgr.Prelude.{
  ℕ, Bool, true, false, not, ◌&&◌, Option, none, some, List, [], ◌∷◌, any, Text, codes, same,
  lookup_text, LowerCase, Result, ok, err, ◌>>=◌, map_err, Preorder, on, down, ◌then_by◌, ℕ_order,
  sort_by, is_some, if◌then◌else◌,
}
use aimgr.Coordination.Keys.{is_empty}
use aimgr.Core.Labels.{
  LabelError, IdError, normalize_label, normalize_agent_id, normalize_hermes_home_id,
}
use aimgr.Pool.Usage.{Numbers, Snapshot}
use aimgr.Pool.Cycle.{distinct}
use aimgr.Pool.Select.{normalize_all}
use aimgr.Pool.Planner.Weights.{Arithmetic, normalize_demand_weight, round_demand_weight}
use aimgr.Pool.Planner.Candidates.{Supply, build_weighted_rebalance_supply}
use aimgr.Pool.Planner.Demands.{normalize_each, LedgerEntry, Demand, demand_of_entry}
use aimgr.Pool.Planner.Loop.{
  no_eligible_pool_account, projected_demand_exceeds_eligible_supply, Setting, start, current_of,
  plan_loop,
}
use aimgr.Pool.Planner.Report.{
  AllocationMode, demand_weighted, cold_start_equal_share, Plan, blocked_plan, finish_plan,
}

-- An identifier or a label that its normalizer refuses.
pub data PlanError : Type 0 where
  invalid_subject : IdError → PlanError
  refused_label : LabelError → PlanError

module _ (num : Numbers) (ar : Arithmetic num) (locale : Preorder Text) where
  open num use {Number, order, of_ℕ}
  open ar use {plus, times, divide}

  -- The reduction of a list of texts to the sum of their numbers.
  unfoldable pub sum_from : Number → (Text → Number) → List Text → Number
  sum_from total f [] = total
  sum_from total f (x ∷ xs) = sum_from (plus total (f x)) f xs

  abbrev pub current_rank : Setting num ar locale → Text → ℕ
  current_rank g subject = if is_some (current_of num ar locale g subject) then 1 else 0

  -- The greatest demand first, then the subjects that have an eligible label, then by name.
  abbrev pub subject_order : Setting num ar locale → Preorder Text
  subject_order g =
      down (on order (λ s. (g.demand s).demand_weight))
      then_by down (on ℕ_order (current_rank g))
      then_by locale

  -- The supplies with their budgets, and the targets, for the labels and the demand to be spread.
  unfoldable pub target_of : (Text → Supply num ar locale) → Number → Number → Text → Number
  target_of supply units total label =
      if order.le total (of_ℕ 0)
      then of_ℕ 0
      else times
          (divide (normalize_demand_weight num (some ((supply label).target_units)) (of_ℕ 0)) units)
          total

  -- `sort` compares a subject with one of the same demand wherever there is one, since they are
  -- neighbours in the order, and the comparison normalizes the stored labels of both, empty or not.
  unfoldable pub is_tied : (Text → Demand num ar) → List Text → Text → Bool
  is_tied demand subjects s =
      any
        (λ t.
          not (same s t)
          && order.le ((demand s).demand_weight) ((demand t).demand_weight)
          && order.le ((demand t).demand_weight) ((demand s).demand_weight))
        subjects

  -- `normalizeLabel` of each stored label. An empty one counts as none to the loop, and is refused by
  -- the comparison of two subjects that are tied.
  unfoldable pub normalize_stored :
      LowerCase
      → (Text → Bool)
      → (Text → Option Text)
      → List Text
      → Result LabelError (List (Text × Text))
  normalize_stored low tied stored [] = ok []
  normalize_stored low tied stored (s ∷ ss) = do
    rest ← normalize_stored low tied stored ss
    elim (stored s) [
      | none ↦ ok rest
      | some t ↦
          if is_empty t && not (tied s)
          then ok rest
          else do label ← normalize_label low t; ok ((s, label) ∷ rest)
    ]

  -- What the loop reads, once the stored labels are normalized.
  unfoldable pub setting_of :
      (Text → Supply num ar locale)
      → (Text → Demand num ar)
      → Number
      → List Text
      → List Text
      → List (Text × Text)
      → Setting num ar locale
  unfolding sum_from target_of lookup_text
  setting_of supply demand units subjects labels currents =
      let total = sum_from (of_ℕ 0) (λ s. (demand s).demand_weight) subjects in
      let target = target_of supply units total in
      record {
        labels = labels;
        supply = λ l. record (supply l) {
          capacity_budget_weight = some (round_demand_weight num ar (target l));
        };
        target = target;
        demand = demand;
        stored = λ s. lookup_text s currents;
      }

  unfoldable pub plan_setting :
      Setting num ar locale → AllocationMode → List Text → Plan num ar locale
  unfolding plan_loop finish_plan
  plan_setting g mode subjects =
      finish_plan num ar locale g mode subjects
        (plan_loop num ar locale g (sort_by (subject_order g) subjects) (start num ar locale))

  unfoldable pub plan_supplied :
      LowerCase
      → (Text → Supply num ar locale)
      → (Text → Demand num ar)
      → AllocationMode
      → (Text → Option Text)
      → Number
      → List Text
      → List Text
      → Result PlanError (Plan num ar locale)
  unfolding setting_of plan_setting normalize_stored is_tied
  plan_supplied low supply demand mode stored units subjects labels = do
    currents ←
        map_err refused_label (normalize_stored low (is_tied demand subjects) stored subjects)
    ok (plan_setting (setting_of supply demand units subjects labels currents) mode subjects)

  unfoldable pub mode_of : Text → List (Text × LedgerEntry num ar) → AllocationMode
  mode_of observed ledger =
      if any (λ e. elim e.1.source [ none ↦ false | some t ↦ same t observed ]) ledger
      then demand_weighted
      else cold_start_equal_share

  -- After the labels and the subjects are normalized.
  unfoldable pub plan_labels :
      LowerCase
      → Text
      → List (Text × LedgerEntry num ar)
      → (Text → Option (Snapshot num))
      → (Text → Option Text)
      → List Text
      → List Text
      → Result PlanError (Plan num ar locale)
  unfolding mode_of blocked_plan plan_supplied
  plan_labels low observed ledger usage stored subjects [] = ok (
      blocked_plan num ar locale no_eligible_pool_account (mode_of observed ledger) (λ s. none)
        subjects)
  plan_labels low observed ledger usage stored subjects (l ∷ ls) =
      let mode = mode_of observed ledger in
      let demand = λ (s : Text). demand_of_entry num ar observed (lookup_text s ledger) in
      let supply = λ (l : Text). build_weighted_rebalance_supply num ar locale (usage l) in
      let units =
        sum_from (of_ℕ 0)
          (λ l. normalize_demand_weight num (some ((supply l).target_units)) (of_ℕ 0)) (l ∷ ls) in
      let supplied = plan_supplied low supply demand mode stored units subjects (l ∷ ls) in
      if order.le units (of_ℕ 0)
      then ok (
          blocked_plan num ar locale projected_demand_exceeds_eligible_supply mode
            (λ s. some (demand s)) subjects)
      else supplied

  -- `normalize_subject` is `normalizeAgentId` or `normalizeHermesHomeId`, and `observed` the source
  -- of the demand that was observed.
  unfoldable pub plan_weighted_pool_assignments :
      LowerCase
      → (Text → Result IdError Text)
      → Text
      → List Text
      → (Text → Option Text)
      → List Text
      → (Text → Option (Snapshot num))
      → List (Text × LedgerEntry num ar)
      → Result PlanError (Plan num ar locale)
  unfolding plan_labels normalize_each distinct normalize_all
  plan_weighted_pool_assignments low normalize_subject observed configured stored eligible usage
        ledger =
      do
        ids ← map_err invalid_subject (normalize_each normalize_subject configured)
        labels ← map_err refused_label (normalize_all low eligible)
        plan_labels low observed ledger usage stored (sort_by locale (distinct ids))
            (distinct labels)

  -- `planWeightedOpenclawRebalance` and `planWeightedHermesRebalance`, which name the subjects
  -- `agentId` and `homeId` in what they return.
  unfoldable pub plan_weighted_openclaw_rebalance :
      LowerCase
      → List Text
      → (Text → Option Text)
      → List Text
      → (Text → Option (Snapshot num))
      → List (Text × LedgerEntry num ar)
      → Result PlanError (Plan num ar locale)
  unfolding plan_weighted_pool_assignments normalize_agent_id
  plan_weighted_openclaw_rebalance low =
      plan_weighted_pool_assignments low (normalize_agent_id) (codes "openclaw-session-tokens")

  unfoldable pub plan_weighted_hermes_rebalance :
      LowerCase
      → List Text
      → (Text → Option Text)
      → List Text
      → (Text → Option (Snapshot num))
      → List (Text × LedgerEntry num ar)
      → Result PlanError (Plan num ar locale)
  unfolding plan_weighted_pool_assignments normalize_hermes_home_id
  plan_weighted_hermes_rebalance low =
      plan_weighted_pool_assignments low (normalize_hermes_home_id) (codes "hermes-session-tokens")
