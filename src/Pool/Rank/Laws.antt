-- ===== src/Pool/Rank/Laws.antt =====
-- What `rankPoolCandidates` returns.
use aimgr.Prelude.{
  ◌≡◌, refl, ap, false, Option, List, [], ◌∷◌, map, Text, LowerCase, ok, All, Preorder, sort_by,
  sort_by-perm, sort_by-IsSorted, All-sort_by,
}
use mathlib.Core.List.Perm
use aimgr.Core.Labels.{normalize_agent_id}
use aimgr.Pool.Usage.{Numbers, Snapshot}
use aimgr.Pool.Cycle.{distinct}
use aimgr.Pool.Select.{normalize_all}
use aimgr.Pool.Planner.Weights.{Arithmetic}
use aimgr.Pool.Planner.Candidates.{build_weighted_rebalance_candidate}
use aimgr.Pool.Planner.Demands.{normalize_each, LedgerEntry}
use aimgr.Pool.Rank.Demands.{build_status_demand_by_agent, Assigned, build_assigned_demand_by_label}
use aimgr.Pool.Rank.{
  ReceiptLoad, RankedCandidate, label_of, rank_order, receipt_targets, selection_weight, share_of,
  rank_candidate, bring_forward, nothing_assigned, normalize_current, rank_pool_candidates,
}
use aimgr.Pool.Rank.Forward.{IsRanked, bring_forward-IsRanked}

module _ (num : Numbers) (ar : Arithmetic num) (locale : Preorder Text) where
  candidate_labels :
      (usage : Text → Option (Snapshot num)) (share : Text → num.Number)
      (receipts : List (Text × num.Number)) (assigned : Assigned num ar) (weight : num.Number)
      (names : List Text)
      → map
          (label_of num ar locale)
          (map (rank_candidate num ar locale usage share receipts assigned weight) names)
        ≡ names
  unfolding rank_candidate build_weighted_rebalance_candidate
  candidate_labels usage share receipts assigned weight [] = refl
  candidate_labels usage share receipts assigned weight (l ∷ ls) =
      ap (◌∷◌ l) (candidate_labels usage share receipts assigned weight ls)

  candidates_plain :
      (usage : Text → Option (Snapshot num)) (share : Text → num.Number)
      (receipts : List (Text × num.Number)) (assigned : Assigned num ar) (weight : num.Number)
      (names : List Text)
      → All
          (λ (c : RankedCandidate num ar locale). c.kept_current ≡ false)
          (map (rank_candidate num ar locale usage share receipts assigned weight) names)
  unfolding rank_candidate
  candidates_plain usage share receipts assigned weight [] = tt
  candidates_plain usage share receipts assigned weight (l ∷ ls) =
      (refl, candidates_plain usage share receipts assigned weight ls)

  -- The candidates of all labels, for what the ranking has worked out before.
  labels-IsRanked :
      (usage : Text → Option (Snapshot num)) (share : Text → num.Number)
      (receipts : List (Text × num.Number)) (assigned : Assigned num ar) (weight : num.Number)
      (current : Option Text) (names : List Text)
      → IsRanked num ar locale weight current names (
          bring_forward num ar locale weight current (
            sort_by
              (rank_order num ar locale)
              (map (rank_candidate num ar locale usage share receipts assigned weight) names)))
  unfolding rank_candidate
  labels-IsRanked usage share receipts assigned weight current names =
      let candidates =
        map (rank_candidate num ar locale usage share receipts assigned weight) names in
      bring_forward-IsRanked num ar locale weight current names
        (sort_by (rank_order num ar locale) candidates)
        (sort_by-IsSorted (rank_order num ar locale) candidates)
        (All-sort_by (rank_order num ar locale) _ candidates
          (candidates_plain usage share receipts assigned weight names))
        (Perm.trans
          (Perm.map (label_of num ar locale) (sort_by-perm (rank_order num ar locale) candidates))
          (rw (candidate_labels usage share receipts assigned weight names) (Perm.refl names)))
        current refl

  -- When no label and no agent is refused, the ranking holds every label once, in the planner's order
  -- but for the first place. The first is a candidate that no other comes before, or the current
  -- label, marked as kept, where it is within the hysteresis of such a candidate; no other candidate
  -- is marked.
  pub rank_pool-IsRanked :
      (low : LowerCase) (labels : List Text) (usage : Text → Option (Snapshot num))
      (current_label : Option Text) (assignments : List (Text × Option Text))
      (configured : List Text) (ledger : List (Text × LedgerEntry num ar))
      (loads : List (ReceiptLoad num)) (asked : Option num.Number) (names : List Text)
      (current : Option Text) (ids : List Text) (assigned : Assigned num ar)
      (receipts : List (Text × num.Number))
      → normalize_all low labels ≡ ok names
      → normalize_current num ar locale low current_label ≡ ok current
      → normalize_each normalize_agent_id configured ≡ ok ids
      → build_assigned_demand_by_label num ar low
          (distinct names)
          ids
          (build_status_demand_by_agent num ar ids ledger)
          assignments
          (nothing_assigned num ar locale)
        ≡ ok assigned
      → receipt_targets num ar locale low loads [] ≡ ok receipts
      → (cs : List (RankedCandidate num ar locale)) × (rank_pool_candidates num ar locale low labels
            usage current_label assignments configured ledger loads asked
          ≡ ok cs)
        × IsRanked num ar locale
            (selection_weight num ar locale asked (build_status_demand_by_agent num ar ids ledger))
            current
            (distinct names)
            cs
  unfolding rank_pool_candidates
  rank_pool-IsRanked low labels usage current_label assignments configured ledger loads asked names
        current ids assigned receipts h k i a r =
      let demands = build_status_demand_by_agent num ar ids ledger in
      let weight = selection_weight num ar locale asked demands in
      rw (h, k, i, a, r)
        (
          _,
          refl,
          labels-IsRanked usage (share_of num ar locale usage (distinct names) demands weight)
              receipts assigned weight current (distinct names),
        )
