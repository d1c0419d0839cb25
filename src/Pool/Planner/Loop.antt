-- ===== src/Pool/Planner/Loop.antt =====
-- The loop of `planWeightedPoolAssignments` over the agents.
pub mod Steps
pub mod Books
use aimgr.Prelude.{
  ℕ, suc, Bool, true, false, Option, none, some, List, [], ◌∷◌, ◌++◌, map, head?, Text, same,
  includes, Preorder, sort_by, if◌then◌else◌,
}
use aimgr.Pool.Usage.{Numbers}
use aimgr.Pool.Planner.Weights.{Arithmetic, normalize_demand_weight, round_demand_weight}
use aimgr.Pool.Planner.Candidates.{
  Supply, Candidate, build_weighted_rebalance_candidate, candidate_order,
  should_keep_current_weighted_assignment,
}
use aimgr.Pool.Planner.Demands.{Demand}

-- `object[key] = value` on the numbers of all labels.
unfoldable pub update {ℓ} : {A : Type ℓ} → Text → A → (Text → A) → Text → A
update k a f j = if same k j then a else f j

pub data SkipReason : Type 0 where
  no_eligible_pool_account projected_demand_exceeds_eligible_supply : SkipReason

pub data FitReason : Type 0 where
  kept_current_hysteresis weighted_best_fit : FitReason

-- `label === currentLabel`.
unfoldable pub is_current : Option Text → Text → Bool
is_current none label = false
is_current (some c) label = same c label

-- The stored label, where it is eligible.
unfoldable pub eligible_label : List Text → Option Text → Option Text
eligible_label labels none = none
eligible_label labels (some l) = if includes l labels then some l else none

module _ (num : Numbers) (ar : Arithmetic num) (locale : Preorder Text) where
  open num use {Number, of_ℕ}
  open ar use {plus}

  pub record Move : Type 0 where
    pub subject : Text
    pub from : Option Text
    pub to : Text
    pub reason : FitReason
    pub demand : Demand num ar
    pub target_demand_weight : Number
    pub projected_demand_weight : Number

  pub record Stay : Type 0 where
    pub subject : Text
    pub label : Text
    pub reason : FitReason
    pub demand : Demand num ar
    pub target_demand_weight : Number
    pub projected_demand_weight : Number

  pub record Skip : Type 0 where
    pub subject : Text
    pub reason : SkipReason
    pub demand : Option (Demand num ar)

  -- The variables that the loop changes.
  pub record Progress : Type 0 where
    pub assignments : List (Text × Text)
    pub counts : Text → ℕ
    pub demands : Text → Number
    pub moved : List Move
    pub unchanged : List Stay
    pub skipped : List Skip

  abbrev pub start : Progress
  start = record {
    assignments = [];
    counts = λ l. 0;
    demands = λ l. of_ℕ 0;
    moved = [];
    unchanged = [];
    skipped = [];
  }

  -- What the loop reads: the labels with their supplies and targets, the demands, and the current
  -- label of each subject as it is stored.
  pub record Setting : Type 0 where
    pub labels : List Text
    pub supply : Text → Supply num ar locale
    pub target : Text → Number
    pub demand : Text → Demand num ar
    pub stored : Text → Option Text

  -- `currentLabel`.
  unfoldable pub current_of : Setting → Text → Option Text
  unfolding eligible_label
  current_of g subject = eligible_label g.labels (g.stored subject)

  unfoldable pub candidates_for : Setting → Number → Progress → List (Candidate num ar locale)
  candidates_for g weight p = sort_by (candidate_order num ar locale) (
      map
        (λ l.
          build_weighted_rebalance_candidate num ar locale l (g.supply l) (g.target l) (p.demands l)
            (p.counts l) weight)
        g.labels)

  unfoldable pub find_candidate :
      Option Text → List (Candidate num ar locale) → Option (Candidate num ar locale)
  unfolding is_current
  find_candidate current [] = none
  find_candidate current (c ∷ cs) =
      if is_current current c.label then some c else find_candidate current cs

  -- The selection, and whether the current label is kept for it.
  unfoldable pub select_candidate :
      Option (Candidate num ar locale)
      → Option (Candidate num ar locale)
      → Number
      → Option (Candidate num ar locale × Bool)
  select_candidate none none weight = none
  select_candidate none (some best) weight = some (best, false)
  select_candidate (some current) none weight = none
  select_candidate (some current) (some best) weight =
      if should_keep_current_weighted_assignment num ar locale current best weight
      then some (current, true)
      else some (best, false)

  abbrev pub fit_reason : Bool → FitReason
  fit_reason true = kept_current_hysteresis
  fit_reason false = weighted_best_fit

  -- The bookkeeping after a selection.
  unfoldable pub settle :
      Setting → Text → Option (Candidate num ar locale × Bool) → Progress → Progress
  unfolding update current_of is_current
  settle g subject none p = record p {
    skipped =
        p.skipped
        ++ (record {
          subject = subject;
          reason = projected_demand_exceeds_eligible_supply;
          demand = some (g.demand subject);
        }
            ∷ []);
  }
  settle g subject (some (c, kept)) p =
      let stays = is_current (current_of g subject) c.label in
      let weight = (g.demand subject).demand_weight in
      record p {
        assignments = p.assignments ++ ((subject, c.label) ∷ []);
        counts = update c.label (suc (p.counts c.label)) p.counts;
        demands =
            update c.label
              (round_demand_weight num ar
                (plus (normalize_demand_weight num (some (p.demands c.label)) (of_ℕ 0)) weight))
              p.demands;
        unchanged =
            if stays
            then p.unchanged
              ++ (record {
                subject = subject;
                label = c.label;
                reason = fit_reason kept;
                demand = g.demand subject;
                target_demand_weight = c.target_demand_weight;
                projected_demand_weight = c.projected_demand_weight;
              }
                  ∷ [])
            else p.unchanged;
        moved =
            if stays
            then p.moved
            else p.moved
              ++ (record {
                subject = subject;
                from = g.stored subject;
                to = c.label;
                reason = fit_reason kept;
                demand = g.demand subject;
                target_demand_weight = c.target_demand_weight;
                projected_demand_weight = c.projected_demand_weight;
              }
                  ∷ []);
      }

  unfoldable pub selection_for : Setting → Text → Progress → Option (Candidate num ar locale × Bool)
  unfolding candidates_for find_candidate select_candidate current_of
  selection_for g subject p =
      let weight = (g.demand subject).demand_weight in
      let cs = candidates_for g weight p in
      select_candidate (find_candidate (current_of g subject) cs) (head? cs) weight

  unfoldable pub plan_loop : Setting → List Text → Progress → Progress
  unfolding settle selection_for
  plan_loop g [] p = p
  plan_loop g (s ∷ ss) p = plan_loop g ss (settle g s (selection_for g s p) p)
