-- ===== src/Pool/Rank.antt =====
-- `rankPoolCandidates` of src/pool/ranking.js: the labels in the order in which they are taken.
pub mod Demands
pub mod Splice
pub mod Forward
pub mod Laws
use aimgr.Prelude.{
  ℕ, Bool, true, false, Option, none, some, List, [], ◌∷◌, map, head?, Text, same, LowerCase,
  Result, ok, err, ◌>>=◌, map_err, Preorder, on, sort_by, lookup_text, if◌then◌else◌,
}
use aimgr.Core.Labels.{normalize_label, normalize_agent_id}
use aimgr.Pool.Usage.{Numbers, Snapshot, math_max, build_label_capacity_info}
use aimgr.Pool.Cycle.{distinct}
use aimgr.Pool.Select.{normalize_all}
use aimgr.Pool.Planner.Weights.{
  Arithmetic, normalize_demand_weight, round_demand_weight, min_agent_demand_weight,
}
use aimgr.Pool.Planner.Candidates.{
  Supply, build_weighted_rebalance_supply, Candidate, build_weighted_rebalance_candidate,
  candidate_order, should_keep_current_weighted_assignment,
}
use aimgr.Pool.Planner.Demands.{normalize_each, LedgerEntry, Demand}
use aimgr.Pool.Rank.Demands.{
  RankError, refused_agent, refused_name, sum_of, build_status_demand_by_agent,
  derive_demand_bucket_weights, Assigned, build_assigned_demand_by_label,
}

-- `receipt.perAccountLoad[i]`. A label is none where it is no text.
pub record ReceiptLoad (num : Numbers) : Type 0 where
  pub label : Option Text
  pub capacity_budget_weight : Option num.Number
  pub target_demand_weight : Option num.Number
  pub carried_demand_weight : Option num.Number

module _ (num : Numbers) (ar : Arithmetic num) (locale : Preorder Text) where
  open num use {Number, order, of_ℕ}
  open ar use {plus, times, divide}

  pub record RankedCandidate : Type 0 where
    pub candidate : Candidate num ar locale
    pub primary_used_pct : Number
    pub secondary_used_pct : Number
    pub kept_current : Bool

  abbrev pub label_of : RankedCandidate → Text
  label_of c = c.candidate.label

  abbrev pub rank_order : Preorder RankedCandidate
  rank_order = on (candidate_order num ar locale) (λ c. c.candidate)

  unfoldable pub receipt_weight : ReceiptLoad num → Number
  unfolding normalize_demand_weight
  receipt_weight entry = round_demand_weight num ar (
      math_max num (of_ℕ 0) (
        normalize_demand_weight num entry.capacity_budget_weight (
          normalize_demand_weight num entry.target_demand_weight
            (normalize_demand_weight num entry.carried_demand_weight (of_ℕ 0)))))

  -- The targets that the last receipt sets, the latest entry of a label first.
  unfoldable pub receipt_targets :
      LowerCase
      → List (ReceiptLoad num)
      → List (Text × Number)
      → Result RankError (List (Text × Number))
  unfolding receipt_weight normalize_label
  receipt_targets low [] targets = ok targets
  receipt_targets low (entry ∷ rest) targets = elim entry.label [
    | none ↦ receipt_targets low rest targets
    | some raw ↦ elim (normalize_label low raw) [
      | err e ↦ err (refused_name e)
      | ok label ↦ receipt_targets low rest ((label, receipt_weight entry) ∷ targets)
    ]
  ]

  unfoldable pub selection_weight : Option Number → List (Text × Demand num ar) → Number
  unfolding derive_demand_bucket_weights
  selection_weight asked demands = round_demand_weight num ar (
      math_max num (min_agent_demand_weight num) (
        normalize_demand_weight num asked
          ((derive_demand_bucket_weights num ar demands).medium_weight)))

  -- The share of a label in the demand of all agents, or in the one weight that is selected for.
  unfoldable pub share_of :
      (Text → Option (Snapshot num))
      → List Text
      → List (Text × Demand num ar)
      → Number
      → Text
      → Number
  share_of usage labels demands weight label =
      let units = λ (l : Text).
        normalize_demand_weight num
          (some ((build_weighted_rebalance_supply num ar locale (usage l)).target_units))
          (of_ℕ 0) in
      let all_units = sum_of num ar (of_ℕ 0) (map units labels) in
      let all_demand = math_max num weight (
        sum_of num ar (of_ℕ 0)
          (map (λ d. normalize_demand_weight num (some (d.1.demand_weight)) (of_ℕ 0)) demands)) in
      if order.le all_units (of_ℕ 0)
      then of_ℕ 0
      else times (divide (units label) all_units) all_demand

  abbrev pub receipt_or : Option Number → Number → Number
  receipt_or none share = round_demand_weight num ar share
  receipt_or (some target) share = target

  unfoldable pub rank_candidate :
      (Text → Option (Snapshot num))
      → (Text → Number)
      → List (Text × Number)
      → Assigned num ar
      → Number
      → Text
      → RankedCandidate
  unfolding lookup_text
  rank_candidate usage share receipts assigned weight label =
      let capacity = build_label_capacity_info num (usage label) in
      let target = receipt_or (lookup_text label receipts) (share label) in
      record {
        candidate =
            build_weighted_rebalance_candidate num ar locale label
              (record (build_weighted_rebalance_supply num ar locale (usage label)) {
                capacity_budget_weight = some target;
              })
              target (assigned.demands label) (assigned.counts label) weight;
        primary_used_pct = capacity.primary_used_pct;
        secondary_used_pct = capacity.secondary_used_pct;
        kept_current = false;
      }

  unfoldable pub find_label : Text → List RankedCandidate → Option RankedCandidate
  unfolding same
  find_label label [] = none
  find_label label (c ∷ cs) = if same (label_of c) label then some c else find_label label cs

  -- `candidates.splice(candidates.indexOf(candidate), 1)`.
  unfoldable pub splice : Text → List RankedCandidate → List RankedCandidate
  unfolding same
  splice label [] = []
  splice label (c ∷ cs) = if same (label_of c) label then cs else c ∷ splice label cs

  unfoldable pub forward :
      Number
      → List RankedCandidate
      → Option RankedCandidate
      → Option RankedCandidate
      → List RankedCandidate
  unfolding splice
  forward weight cs none found = cs
  forward weight cs (some best) none = cs
  forward weight cs (some best) (some current) =
      if should_keep_current_weighted_assignment num ar locale current.candidate best.candidate
        weight
      then record current { kept_current = true } ∷ splice (label_of current) cs
      else cs

  unfoldable pub bring_forward : Number → Option Text → List RankedCandidate → List RankedCandidate
  unfolding forward find_label
  bring_forward weight none cs = cs
  bring_forward weight (some current) cs = forward weight cs (head? cs) (find_label current cs)

  abbrev pub nothing_assigned : Assigned num ar
  nothing_assigned = record { demands = λ l. of_ℕ 0; counts = λ l. 0 }

  unfoldable pub normalize_current : LowerCase → Option Text → Result RankError (Option Text)
  unfolding normalize_label
  normalize_current low none = ok none
  normalize_current low (some raw) = do
    label ← map_err refused_name (normalize_label low raw)
    ok (some label)

  unfoldable pub rank_pool_candidates :
      LowerCase
      → List Text
      → (Text → Option (Snapshot num))
      → Option Text
      → List (Text × Option Text)
      → List Text
      → List (Text × LedgerEntry num ar)
      → List (ReceiptLoad num)
      → Option Number
      → Result RankError (List RankedCandidate)
  unfolding normalize_all normalize_current normalize_each build_assigned_demand_by_label
      receipt_targets bring_forward rank_candidate share_of selection_weight sort_by distinct
      build_status_demand_by_agent normalize_agent_id
  rank_pool_candidates low labels usage current_label assignments configured ledger loads asked = do
    names ← map_err refused_name (normalize_all low labels)
    current ← normalize_current low current_label
    ids ← map_err refused_agent (normalize_each normalize_agent_id configured)
    let demands = build_status_demand_by_agent num ar ids ledger in
        do
          assigned ←
              build_assigned_demand_by_label num ar low (distinct names) ids demands assignments
                nothing_assigned
          receipts ← receipt_targets low loads []
          let weight = selection_weight asked demands in
              ok (
                bring_forward weight current (
                  sort_by rank_order (
                    map
                      (rank_candidate usage (share_of usage (distinct names) demands weight)
                        receipts assigned weight)
                      (distinct names))))
