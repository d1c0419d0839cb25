-- ===== src/Tests/Planner.antt =====
-- The planner on two agents and two accounts, with whole numbers.
use aimgr.Prelude.{
  ◌+◌, ◌*◌, ◌/◌, ◌≡◌, refl, Bool, Option, none, some, List, [], ◌∷◌, Text, codes, same, ok, err,
  ascii_lower, if◌then◌else◌, sort_by, includes, trim, lookup_text, is_space, lower_unit,
}
use aimgr.Core.Labels.{missing_label, normalize_agent_id, normalize_label, is_label_text, check_id}
use aimgr.Pool.Select.{normalize_all}
use aimgr.Pool.Cycle.{distinct}
use aimgr.Pool.Planner.Weights.{Arithmetic, round_demand_weight}
use aimgr.Pool.Usage.{math_max}
use aimgr.Pool.Planner.Candidates.{Candidate, build_weighted_rebalance_supply}
use aimgr.Pool.Planner.Demands.{demand_of_entry, normalize_each, LedgerEntry, Demand}
use aimgr.Pool.Planner.Loop.{Setting, start, selection_for}
use aimgr.Pool.Planner.Loop.Steps.{IsFit, selection-IsFit}
use aimgr.Pool.Planner.Report.{Plan}
use aimgr.Pool.Planner.Plan.{is_tied, normalize_stored, plan_weighted_pool_assignments}
use aimgr.Pool.Planner.Plan.Outcome.{IsOutcome, has_supply, shares_demand, plan-IsOutcome}
use aimgr.Tests.Pool.{whole, locale, usage, pool}

abbrev pub sums : Arithmetic whole
sums = record {
  plus = λ m n. m + n;
  times = λ m n. m * n;
  divide = λ m n. m / n;
  to_cents = λ n. n;
  overflow_factor = 1;
  ratio_threshold = 0;
}

abbrev pub agents : List Text
agents = codes "x" ∷ codes "yy" ∷ []

abbrev stored : Text → Option Text
stored agent = if same agent (codes "x") then some (codes "b") else none

abbrev pub ledger : List (Text × LedgerEntry whole sums)
ledger =
    (codes "x", record { source = some (codes "openclaw-session-tokens"); demand_weight = some 4 })
    ∷ []

plan-IsOutcome_example :
    (p : Plan whole sums locale) × (plan_weighted_pool_assignments whole sums locale ascii_lower
        normalize_agent_id
        (codes "openclaw-session-tokens")
        agents
        stored
        pool
        usage
        ledger
      ≡ ok p)
    × IsOutcome whole sums locale
        (has_supply whole sums locale usage (distinct pool))
        (sort_by locale (distinct agents))
        (distinct pool)
        ((codes "x", codes "b") ∷ [])
        p
unfolding normalize_agent_id normalize_label normalize_each normalize_all normalize_stored trim
    is_label_text is_space lower_unit is_tied includes same distinct sort_by check_id
plan-IsOutcome_example =
    plan-IsOutcome whole sums locale ascii_lower normalize_agent_id
      (codes "openclaw-session-tokens") agents stored pool usage ledger agents pool
      ((codes "x", codes "b") ∷ []) refl refl refl

-- An empty stored label is refused where both agents have the same demand, and else counts as none.
abbrev emptied : Text → Option Text
emptied agent = if same agent (codes "x") then some [] else none

tied_refused :
    normalize_stored whole sums locale ascii_lower
      (shares_demand whole sums locale (codes "openclaw-session-tokens") [] agents)
      emptied
      agents
    ≡ err missing_label
unfolding normalize_stored normalize_label trim is_tied same demand_of_entry lookup_text
    round_demand_weight math_max
tied_refused = refl

untied_ignored :
    normalize_stored whole sums locale ascii_lower
      (shares_demand whole sums locale (codes "openclaw-session-tokens") ledger agents)
      emptied
      agents
    ≡ ok []
unfolding normalize_stored normalize_label trim is_tied same demand_of_entry lookup_text
    round_demand_weight math_max
untied_ignored = refl

abbrev demands : Demand whole sums
demands = record { source = codes "openclaw-session-tokens"; demand_weight = 4 }

abbrev setting : Setting whole sums locale
setting = record {
  labels = pool;
  supply = λ l. build_weighted_rebalance_supply whole sums locale (usage l);
  target = λ l. 3;
  demand = λ s. demands;
  stored = stored;
}

selection-IsFit_example :
    (s : Candidate whole sums locale × Bool) × (selection_for whole sums locale setting
        (codes "x")
        (start whole sums locale)
      ≡ some s)
    × IsFit whole sums locale setting (codes "x") (start whole sums locale) s
unfolding includes same
selection-IsFit_example =
    selection-IsFit whole sums locale setting (codes "x") (start whole sums locale) (codes "a") refl
