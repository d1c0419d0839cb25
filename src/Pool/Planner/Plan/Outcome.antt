-- ===== src/Pool/Planner/Plan/Outcome.antt =====
-- What `planWeightedPoolAssignments` returns.
use aimgr.Prelude.{
  ◌≡◌, refl, ap, Bool, true, false, not, Option, some, List, [], ◌∷◌, map, Text, includes,
  lookup_text, LowerCase, Result, ok, Preorder, sort_by, arith, if◌then◌else◌, same_refl,
}
use aimgr.Core.Labels.{IdError}
use aimgr.Pool.Usage.{Numbers, Snapshot}
use aimgr.Pool.Cycle.{distinct}
use aimgr.Pool.Cycle.Laws.{IsDistinct, distinct-IsDistinct}
use aimgr.Pool.Select.{normalize_all}
use aimgr.Pool.Planner.Weights.{Arithmetic, normalize_demand_weight}
use aimgr.Pool.Planner.Candidates.{Supply, build_weighted_rebalance_supply}
use aimgr.Pool.Planner.Demands.{normalize_each, LedgerEntry, Demand, demand_of_entry}
use aimgr.Pool.Planner.Loop.{SkipReason, Skip}
use aimgr.Pool.Planner.Report.{Plan, blocked, blocked_plan, AllocationMode}
use aimgr.Pool.Planner.Plan.{
  PlanError, sum_from, is_tied, normalize_stored, setting_of, plan_setting, plan_supplied, mode_of,
  plan_labels, plan_weighted_pool_assignments,
}
use aimgr.Pool.Planner.Plan.Settled.{IsSettled, finish-IsSettled}

includes-head : (l : Text) (ls : List Text) → includes l (l ∷ ls) ≡ true
unfolding includes
includes-head l ls = ground (arith, same_refl l)

module _ (num : Numbers) (ar : Arithmetic num) (locale : Preorder Text) where
  open num use {order, of_ℕ}

  -- The labels have something left to target.
  abbrev pub has_supply : (Text → Option (Snapshot num)) → List Text → Bool
  has_supply usage labels = not (
      order.le
        (sum_from num ar locale (of_ℕ 0)
          (λ l.
            normalize_demand_weight num
              (some ((build_weighted_rebalance_supply num ar locale (usage l)).target_units))
              (of_ℕ 0))
          labels)
        (of_ℕ 0))

  -- Another agent has the same demand.
  abbrev pub shares_demand : Text → List (Text × LedgerEntry num ar) → List Text → Text → Bool
  shares_demand observed ledger subjects =
      is_tied num ar locale (λ s. demand_of_entry num ar observed (lookup_text s ledger)) subjects

  -- Nobody is assigned a label, and everyone is reported.
  pub record IsBlocked (subjects : List Text) (p : Plan num ar locale) : Type 0 where
    pub none_assigned : p.assignments ≡ []
    pub none_moved : p.moved ≡ []
    pub none_unchanged : p.unchanged ≡ []
    pub all_skipped : map (λ (s : Skip num ar locale). s.subject) p.skipped ≡ subjects
    pub one_blocker : (r : SkipReason) × (p.blockers ≡ r ∷ [])
    pub is_blocked : p.status ≡ blocked

  abbrev pub IsOutcome :
      Bool → List Text → List Text → List (Text × Text) → Plan num ar locale → Type 0
  IsOutcome true subjects labels currents p = IsSettled num ar locale subjects labels currents p
  IsOutcome false subjects labels currents p = IsBlocked subjects p

  map-skip :
      (reason : SkipReason) (demand : Text → Option _) (subjects : List Text)
      → map
          (λ (s : Skip num ar locale). s.subject)
          (map (λ s. record { subject = s; reason = reason; demand = demand s }) subjects)
        ≡ subjects
  map-skip reason demand [] = refl
  map-skip reason demand (s ∷ ss) = ap (◌∷◌ s) (map-skip reason demand ss)

  blocked_plan-IsBlocked :
      (reason : SkipReason) (mode : AllocationMode) (demand : Text → Option _)
      (subjects : List Text)
      → IsBlocked subjects (blocked_plan num ar locale reason mode demand subjects)
  unfolding blocked_plan
  blocked_plan-IsBlocked reason mode demand subjects = record {
    none_assigned = refl;
    none_moved = refl;
    none_unchanged = refl;
    all_skipped = map-skip reason demand subjects;
    one_blocker = (reason, refl);
    is_blocked = refl;
  }

  supplied-IsSettled :
      (low : LowerCase) (supply : Text → Supply num ar locale) (demand : Text → Demand num ar)
      (mode : AllocationMode) (stored : Text → Option Text) (units : num.Number)
      (subjects labels : List Text) (currents : List (Text × Text)) (l : Text)
      → normalize_stored num ar locale low (is_tied num ar locale demand subjects) stored subjects
        ≡ ok currents
      → includes l labels ≡ true
      → IsDistinct labels
      → (p : Plan num ar locale) × (plan_supplied num ar locale low supply demand mode stored units
            subjects labels
          ≡ ok p)
        × IsSettled num ar locale subjects labels currents p
  unfolding plan_supplied setting_of plan_setting
  supplied-IsSettled low supply demand mode stored units subjects labels currents l e m d =
      let g = setting_of num ar locale supply demand units subjects labels currents in
      (
        plan_setting num ar locale g mode subjects,
        rw e refl,
        finish-IsSettled num ar locale g currents mode subjects l refl m d,
      )

  -- The early return, or the plan.
  either-IsOutcome :
      (b : Bool) (early : Plan num ar locale) (late : Result PlanError (Plan num ar locale))
      (subjects labels : List Text) (currents : List (Text × Text))
      → IsBlocked subjects early
      → (p : Plan num ar locale) × (late ≡ ok p)
        × IsSettled num ar locale subjects labels currents p
      → (p : Plan num ar locale) × ((if b then ok early else late) ≡ ok p)
        × IsOutcome (not b) subjects labels currents p
  either-IsOutcome true early late subjects labels currents h k = (early, refl, h)
  either-IsOutcome false early late subjects labels currents h k = k

  no_labels : (usage : Text → Option (Snapshot num)) → has_supply usage [] ≡ false
  unfolding sum_from
  no_labels usage = rw (num.of_ℕ-le 0 0)

  labels-IsOutcome :
      (low : LowerCase) (observed : Text) (ledger : List (Text × LedgerEntry num ar))
      (usage : Text → Option (Snapshot num)) (stored : Text → Option Text)
      (subjects labels : List Text) (currents : List (Text × Text))
      → normalize_stored num ar locale low (shares_demand observed ledger subjects) stored subjects
        ≡ ok currents
      → IsDistinct labels
      → (p : Plan num ar locale) × (plan_labels num ar locale low observed ledger usage stored
            subjects labels
          ≡ ok p)
        × IsOutcome (has_supply usage labels) subjects labels currents p
  unfolding plan_labels
  labels-IsOutcome low observed ledger usage stored subjects [] currents e d =
      (_, refl, rw (no_labels usage) (blocked_plan-IsBlocked _ _ _ subjects))
  labels-IsOutcome low observed ledger usage stored subjects (l ∷ ls) currents e d =
      either-IsOutcome _ _ _ subjects (l ∷ ls) currents (blocked_plan-IsBlocked _ _ _ subjects) (
        supplied-IsSettled low (λ t. build_weighted_rebalance_supply num ar locale (usage t))
          (λ s. demand_of_entry num ar observed (lookup_text s ledger))
          (mode_of num ar locale observed ledger) stored
          (sum_from num ar locale (of_ℕ 0)
            (λ t.
              normalize_demand_weight num
                (some ((build_weighted_rebalance_supply num ar locale (usage t)).target_units))
                (of_ℕ 0))
            (l ∷ ls))
          subjects (l ∷ ls) currents l e (includes-head l ls) d)

  -- When no identifier and no label is refused, where an empty stored label is refused only if another
  -- agent has the same demand, a plan is returned. Where the eligible labels have
  -- nothing left to target, nobody is assigned, everyone is reported as skipped, and the plan is
  -- blocked. Otherwise every agent is assigned one label, an eligible one, none is skipped and there
  -- is no blocker; those whose label changes are in `moved` and the others in `unchanged`, the loads
  -- count each agent once, and the status is `noop` where nobody is moved and else `applied`.
  pub plan-IsOutcome :
      (low : LowerCase) (normalize_subject : Text → Result IdError Text) (observed : Text)
      (configured : List Text) (stored : Text → Option Text) (eligible : List Text)
      (usage : Text → Option (Snapshot num)) (ledger : List (Text × LedgerEntry num ar))
      (ids names : List Text) (currents : List (Text × Text))
      → normalize_each normalize_subject configured ≡ ok ids
      → normalize_all low eligible ≡ ok names
      → normalize_stored num ar locale low
          (shares_demand observed ledger (sort_by locale (distinct ids)))
          stored
          (sort_by locale (distinct ids))
        ≡ ok currents
      → (p : Plan num ar locale) × (plan_weighted_pool_assignments num ar locale low
            normalize_subject observed configured stored eligible usage ledger
          ≡ ok p)
        × IsOutcome
            (has_supply usage (distinct names))
            (sort_by locale (distinct ids))
            (distinct names)
            currents
            p
  unfolding plan_weighted_pool_assignments
  plan-IsOutcome low normalize_subject observed configured stored eligible usage ledger ids names
        currents h k e =
      rw (h, k)
        (labels-IsOutcome low observed ledger usage stored (sort_by locale (distinct ids))
          (distinct names) currents e (distinct-IsDistinct names))
