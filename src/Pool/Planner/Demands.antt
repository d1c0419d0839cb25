-- ===== src/Pool/Planner/Demands.antt =====
-- The demand of each agent: its entry of the ledger, or an equal share.
use aimgr.Prelude.{
  Option, none, some, List, [], ◌∷◌, Text, codes, same, Result, ok, ◌>>=◌, if◌then◌else◌,
}
use aimgr.Pool.Usage.{Numbers, math_max}
use aimgr.Pool.Planner.Weights.{
  Arithmetic, normalize_demand_weight, round_demand_weight, min_agent_demand_weight,
}

-- COLD_START_EQUAL_SHARE_DEMAND_SOURCE.
abbrev pub cold_start_source : Text
cold_start_source = codes "cold-start-equal-share"

-- `ids.map(normalize)`, which throws at the first identifier that is refused.
unfoldable pub normalize_each {ℓ} :
    {E : Type ℓ} → (Text → Result E Text) → List Text → Result E (List Text)
normalize_each normalize [] = ok []
normalize_each normalize (x ∷ xs) = do
  id ← normalize x
  ids ← normalize_each normalize xs
  ok (id ∷ ids)

module _ (num : Numbers) (ar : Arithmetic num) where
  open num use {Number}

  pub record LedgerEntry : Type 0 where
    pub source : Option Text
    pub demand_weight : Option Number

  pub record Demand : Type 0 where
    pub source : Text
    pub demand_weight : Number

  -- An observed or an equal share; any other source counts as the latter.
  unfoldable pub source_of : Text → Option Text → Text
  source_of observed none = cold_start_source
  source_of observed (some t) = if same t observed then t else cold_start_source

  unfoldable pub demand_of_entry : Text → Option LedgerEntry → Demand
  unfolding source_of
  demand_of_entry observed none = record {
    source = cold_start_source;
    demand_weight =
        round_demand_weight num ar
          (math_max num (min_agent_demand_weight num) (min_agent_demand_weight num));
  }
  demand_of_entry observed (some e) = record {
    source = source_of observed e.source;
    demand_weight = round_demand_weight num ar (
        math_max num (min_agent_demand_weight num)
          (normalize_demand_weight num e.demand_weight (min_agent_demand_weight num)));
  }
