-- ===== src/Pool/NextBest.antt =====
-- `pickNextBestLocalCliPoolLabel` (src/pool/ranking.js): the choice among ranked candidates that
-- keeps a reserve.
pub mod Laws
use aimgr.Prelude.{
  Bool, true, false, not, Option, none, some, List, [], ◌∷◌, Text, same, LowerCase, Result, ok, err,
  ◌>>=◌, filter, head?, Preorder, on, ◌then_by◌, sort_by, if◌then◌else◌,
}
use aimgr.Core.Labels.{LabelError, normalize_label}
use aimgr.Pool.Usage.{Numbers, clamp_percent}
use aimgr.Pool.Select.{normalize_avoided, SelectionReason, lowest_weekly_used}

module _ (num : Numbers) (locale : Preorder Text) where
  open num use {Number, order, of_ℕ}

  -- `none` is a remaining percentage that is no finite number.
  pub record Ranked : Type 0 where
    pub label : Text
    pub primary_used_pct : Number
    pub primary_remaining_pct : Option Number

  pub record NextBest : Type 0 where
    pub candidate : Ranked
    pub kept_current : Bool
    pub reasons : List SelectionReason

  -- The candidates whose normalized label is not the avoided one. No label is normalized where none
  -- is avoided.
  unfoldable pub keep_others :
      LowerCase → Option Text → List Ranked → Result LabelError (List Ranked)
  keep_others low none cs = ok cs
  keep_others low (some avoided) [] = ok []
  keep_others low (some avoided) (c ∷ cs) = do
    label ← normalize_label low c.label
    rest ← keep_others low (some avoided) cs
    ok (if same label avoided then rest else c ∷ rest)

  -- A finite percentage over five.
  abbrev pub has_reserve : Ranked → Bool
  has_reserve c = elim c.primary_remaining_pct [ none ↦ false | some n ↦ not (order.le n (of_ℕ 5)) ]

  abbrev pub reaches_floor : Number → Ranked → Bool
  reaches_floor floor c = elim c.primary_remaining_pct [ none ↦ false | some n ↦ order.le floor n ]

  abbrev pub ranked_order : Preorder Ranked
  ranked_order = on order (λ c. c.primary_used_pct) then_by on locale (λ c. c.label)

  -- `gatedCandidates.length > 0 ? gatedCandidates : selectableCandidates`.
  abbrev pub or_if_empty : List Ranked → List Ranked → List Ranked
  or_if_empty [] cs = cs
  or_if_empty (g ∷ gs) cs = g ∷ gs

  unfoldable pub selection_pool : Number → List Ranked → List Ranked
  selection_pool floor selectable = or_if_empty (filter (reaches_floor floor) selectable) selectable

  unfoldable pub next_of : Option Ranked → Option NextBest
  next_of none = none
  next_of (some c) =
      some (record { candidate = c; kept_current = false; reasons = lowest_weekly_used ∷ [] })

  -- The default of the minimum is LOCAL_CLI_MIN_PRIMARY_REMAINING_PCT, 80.
  unfoldable pub pick_next_best_local_cli_pool_label :
      LowerCase → List Ranked → Option Number → Option Text → Result LabelError (Option NextBest)
  unfolding keep_others selection_pool next_of normalize_avoided clamp_percent
  pick_next_best_local_cli_pool_label low ranked minimum avoid_label = do
    avoided ← normalize_avoided low avoid_label
    candidates ← keep_others low avoided ranked
    ok (
        next_of (
          head? (
            sort_by ranked_order
              (selection_pool (clamp_percent num minimum) (filter has_reserve candidates)))))
