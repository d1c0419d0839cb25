-- ===== src/Pool/Planner/Weights.antt =====
-- The weights of src/state/demand.js.
use aimgr.Prelude.{Option, none, some, if◌then◌else◌}
use aimgr.Pool.Usage.{Numbers}

-- The arithmetic of the planner on finite numbers. `to_cents` is `Math.round(n * 100) / 100`, and
-- `overflow_factor` and `ratio_threshold` are the constants KEEP_CURRENT_OVERFLOW_WEIGHT_FACTOR (a
-- quarter) and KEEP_CURRENT_DEMAND_RATIO_THRESHOLD (0.15).
pub record Arithmetic (num : Numbers) : Type 0 where
  pub plus : num.Number → num.Number → num.Number
  pub times : num.Number → num.Number → num.Number
  pub divide : num.Number → num.Number → num.Number
  pub to_cents : num.Number → num.Number
  pub overflow_factor : num.Number
  pub ratio_threshold : num.Number

module _ (num : Numbers) where
  open num use {Number, order, of_ℕ}

  -- `none` is a value that is no finite number.
  unfoldable pub normalize_demand_weight : Option Number → Number → Number
  normalize_demand_weight none fallback = fallback
  normalize_demand_weight (some n) fallback = if order.le (of_ℕ 0) n then n else fallback

  unfoldable pub round_demand_weight : Arithmetic num → Number → Number
  unfolding normalize_demand_weight
  round_demand_weight ar n = ar.to_cents (normalize_demand_weight (some n) (of_ℕ 0))

  -- MIN_AGENT_DEMAND_WEIGHT.
  abbrev pub min_agent_demand_weight : Number
  min_agent_demand_weight = of_ℕ 1
