-- ===== src/Pool/Rank/Demands.antt =====
-- The demands that the ranking weighs: `buildStatusDemandByAgent`, `deriveDemandBucketWeights` and
-- `buildAssignedDemandByLabel` of src/status/metrics.js.
use aimgr.Prelude.{
  ◌*◌, ℕ, suc, ◌/◌, Bool, not, ◌||◌, Option, none, some, List, [], ◌∷◌, map, filter, length, Text,
  codes, same, includes, lookup_text, LowerCase, Result, ok, err, ◌>>=◌, sort_by, if◌then◌else◌,
}
use aimgr.Core.Labels.{IdError, LabelError, normalize_label, normalize_agent_id}
use aimgr.Pool.Cycle.{distinct}
use aimgr.Pool.Usage.{Numbers, math_max}
use aimgr.Pool.Planner.Weights.{
  Arithmetic, normalize_demand_weight, round_demand_weight, min_agent_demand_weight,
}
use aimgr.Pool.Planner.Demands.{cold_start_source, LedgerEntry, Demand}
use aimgr.Pool.Planner.Loop.{update}

-- What the normalizers refuse.
pub data RankError : Type 0 where
  refused_agent : IdError → RankError
  refused_name : LabelError → RankError

module _ (num : Numbers) (ar : Arithmetic num) where
  open num use {Number, order, of_ℕ}
  open ar use {plus, divide}

  unfoldable pub ledger_weight : Option (LedgerEntry num ar) → Number → Number
  unfolding normalize_demand_weight
  ledger_weight none fallback = fallback
  ledger_weight (some e) fallback = normalize_demand_weight num e.demand_weight fallback

  abbrev pub is_positive_weight : Number → Bool
  is_positive_weight w = not (order.le w (of_ℕ 0))

  abbrev pub sum_of : Number → List Number → Number
  sum_of total [] = total
  sum_of total (w ∷ ws) = sum_of (plus total w) ws

  abbrev pub mean_or_min : List Number → Number
  mean_or_min [] = min_agent_demand_weight num
  mean_or_min (w ∷ ws) = divide (sum_of (of_ℕ 0) (w ∷ ws)) (of_ℕ (length (w ∷ ws)))

  -- The mean of the observed weights, at least the minimum.
  unfoldable pub fallback_demand_weight : List Text → List (Text × LedgerEntry num ar) → Number
  unfolding ledger_weight lookup_text
  fallback_demand_weight ids ledger = math_max num (min_agent_demand_weight num) (
      mean_or_min (
        filter is_positive_weight (map (λ id. ledger_weight (lookup_text id ledger) (of_ℕ 0)) ids)))

  unfoldable pub status_source : Option (LedgerEntry num ar) → Text
  unfolding same
  status_source none = cold_start_source
  status_source (some e) = elim e.source [
    | none ↦ cold_start_source
    | some t ↦
        if same t (codes "openclaw-session-tokens") || same t cold_start_source
        then t
        else cold_start_source
  ]

  -- The entries of the object, for the identifiers already normalized.
  unfoldable pub build_status_demand_by_agent :
      List Text → List (Text × LedgerEntry num ar) → List (Text × Demand num ar)
  unfolding fallback_demand_weight ledger_weight status_source distinct lookup_text
  build_status_demand_by_agent ids ledger =
      let fallback = fallback_demand_weight ids ledger in
      map
        (λ id. (
          id,
          record {
            source = status_source (lookup_text id ledger);
            demand_weight = round_demand_weight num ar (
                math_max num (min_agent_demand_weight num)
                  (ledger_weight (lookup_text id ledger) fallback));
          },
        ))
        (distinct ids)

  -- `weights[index]`, and the last one behind the end.
  abbrev pub nth_or : Number → ℕ → List Number → Number
  nth_or last i [] = last
  nth_or last Prim.Native.Nat.zero (w ∷ ws) = w
  nth_or last (Prim.Native.Nat.suc i) (w ∷ ws) = nth_or last i ws

  pub record BucketWeights : Type 0 where
    pub light_weight : Number
    pub medium_weight : Number
    pub heavy_weight : Number

  -- Of the sorted weights, those at a quarter, at the half and at three quarters, in this order at
  -- least the minimum and the one before.
  unfoldable pub weights_of : List Number → BucketWeights
  unfolding round_demand_weight
  weights_of [] = record { light_weight = of_ℕ 1; medium_weight = of_ℕ 2; heavy_weight = of_ℕ 4 }
  weights_of (w ∷ ws) =
      let last = length ws in
      let light =
        round_demand_weight num ar
          (math_max num (min_agent_demand_weight num) (nth_or w (last / 4) (w ∷ ws))) in
      let medium = round_demand_weight num ar (math_max num light (nth_or w (last / 2) (w ∷ ws))) in
      record {
        light_weight = light;
        medium_weight = medium;
        heavy_weight =
            round_demand_weight num ar (math_max num medium (nth_or w (3 * last / 4) (w ∷ ws)));
      }

  unfoldable pub derive_demand_bucket_weights : List (Text × Demand num ar) → BucketWeights
  unfolding weights_of sort_by
  derive_demand_bucket_weights demands = weights_of (
      sort_by order (
        filter is_positive_weight
          (map (λ d. normalize_demand_weight num (some (d.1.demand_weight)) (of_ℕ 0)) demands)))

  -- The weight and the number of the agents that each label has.
  pub record Assigned : Type 0 where
    pub demands : Text → Number
    pub counts : Text → ℕ

  unfoldable pub assign : List (Text × Demand num ar) → Text → Text → Assigned → Assigned
  unfolding lookup_text update normalize_demand_weight
  assign demands agent label a = record {
    counts = update label (suc (a.counts label)) a.counts;
    demands =
        update label
          (round_demand_weight num ar (
            plus (normalize_demand_weight num (some (a.demands label)) (of_ℕ 0))
              (elim (lookup_text agent demands) [
                | none ↦ min_agent_demand_weight num
                | some d ↦
                    normalize_demand_weight num (some d.demand_weight) (min_agent_demand_weight num)
              ])))
          a.demands;
  }

  -- The label of an agent that is configured; a value that is no text is passed over.
  unfoldable pub assign_label :
      LowerCase
      → List Text
      → List (Text × Demand num ar)
      → Text
      → Option Text
      → Assigned
      → Result RankError Assigned
  unfolding assign includes normalize_label
  assign_label low labels demands agent none a = ok a
  assign_label low labels demands agent (some raw) a = elim (normalize_label low raw) [
    | err e ↦ err (refused_name e)
    | ok label ↦ ok (if includes label labels then assign demands agent label a else a)
  ]

  unfoldable pub assign_entry :
      LowerCase
      → List Text
      → List Text
      → List (Text × Demand num ar)
      → Text
      → Option Text
      → Assigned
      → Result RankError Assigned
  unfolding assign_label includes normalize_agent_id
  assign_entry low labels ids demands raw label a = elim (normalize_agent_id raw) [
    | err e ↦ err (refused_agent e)
    | ok agent ↦ if includes agent ids then assign_label low labels demands agent label a else ok a
  ]

  unfoldable pub build_assigned_demand_by_label :
      LowerCase
      → List Text
      → List Text
      → List (Text × Demand num ar)
      → List (Text × Option Text)
      → Assigned
      → Result RankError Assigned
  unfolding assign_entry
  build_assigned_demand_by_label low labels ids demands [] a = ok a
  build_assigned_demand_by_label low labels ids demands ((raw, label) ∷ rest) a = do
    b ← assign_entry low labels ids demands raw label a
    build_assigned_demand_by_label low labels ids demands rest b
