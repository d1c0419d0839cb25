-- ===== src/Pool/Select.antt =====
-- `pickLeastUsedCodexPoolLabel` (src/pool/ranking.js): the account for the next launch.
pub mod Sorted
pub mod Candidates
pub mod Laws
pub mod Rotation
use aimgr.Prelude.{
  ℕ, Bool, true, false, not, ◌&&◌, Option, none, some, List, [], ◌∷◌, map, Text, same, includes,
  trim, LowerCase, Result, ok, err, ◌>>=◌, filter, head?, Preorder, on, ◌then_by◌, sort_by,
  if◌then◌else◌,
}
use aimgr.Coordination.Keys.{is_empty}
use aimgr.Coordination.Records.Cas.{or_else}
use aimgr.Core.Labels.{LabelError, normalize_label}
use aimgr.Pool.Usage.{Numbers, Snapshot, build_label_capacity_info, is_usage_snapshot_exhausted}
use aimgr.Pool.Cycle.{distinct, cycle_avoid}

-- `labels.map((label) => normalizeLabel(label))`, which throws at the first label that is refused.
unfoldable pub normalize_all : LowerCase → List Text → Result LabelError (List Text)
normalize_all low [] = ok []
normalize_all low (x ∷ xs) = do
  label ← normalize_label low x
  labels ← normalize_all low xs
  ok (label ∷ labels)

-- `avoidLabel`; one that is absent or blank avoids nothing.
unfoldable pub normalize_avoided : LowerCase → Option Text → Result LabelError (Option Text)
normalize_avoided low none = ok none
normalize_avoided low (some t) =
    if is_empty (trim t) then ok none else do label ← normalize_label low t; ok (some label)

-- `label === avoided`.
unfoldable pub is_avoided : Option Text → Text → Bool
is_avoided none label = false
is_avoided (some t) label = same t label

pub data SelectionReason : Type 0 where
  lowest_weekly_used : SelectionReason

pub record Selection : Type 0 where
  pub label : Text
  pub kept_current : Bool
  pub reasons : List SelectionReason

-- The numbers and the order of `localeCompare` are parameters.
module _ (num : Numbers) (locale : Preorder Text) where
  open num use {Number, order}

  pub record Candidate : Type 0 where
    pub label : Text
    pub primary_used_pct : Number

  abbrev pub Usage : Type 0
  Usage = Text → Option (Snapshot num)

  -- `snapshot?.ok === true && !isUsageSnapshotExhausted(snapshot)`.
  unfoldable pub is_usable : Option (Snapshot num) → Bool
  is_usable none = false
  is_usable (some s) = s.is_ok && not (is_usage_snapshot_exhausted num (some s))

  unfoldable pub is_selectable : Usage → Option Text → Text → Bool
  unfolding is_avoided is_usable
  is_selectable usage avoided label = not (is_avoided avoided label) && is_usable (usage label)

  unfoldable pub candidate_of : Usage → Text → Candidate
  candidate_of usage label = record {
    label = label;
    primary_used_pct = (build_label_capacity_info num (usage label)).primary_used_pct;
  }

  abbrev pub candidate_order : Preorder Candidate
  candidate_order = on order (λ c. c.primary_used_pct) then_by on locale (λ c. c.label)

  -- The distinct labels that can be selected, the least used first. A clamped percentage is finite,
  -- so the filter on `Number.isFinite` keeps them all.
  unfoldable pub candidates_of : Usage → Option Text → List Text → List Candidate
  unfolding distinct is_selectable candidate_of
  candidates_of usage avoided labels =
      sort_by candidate_order
        (map (candidate_of usage) (filter (is_selectable usage avoided) (distinct labels)))

  abbrev pub label_of : Candidate → Text
  label_of c = c.label

  unfoldable pub recent_cycle : Option Text → List Text → List Candidate → List Text
  unfolding cycle_avoid is_avoided
  recent_cycle avoided recent candidates =
      cycle_avoid (map label_of (filter (λ c. not (is_avoided avoided c.label)) candidates)) recent

  unfoldable pub selection_of : Option Candidate → Option Selection
  selection_of none = none
  selection_of (some best) =
      some (record { label = best.label; kept_current = false; reasons = lowest_weekly_used ∷ [] })

  -- `preferred[0] ?? candidates[0] ?? null`.
  unfoldable pub choose : List Text → List Candidate → Option Selection
  unfolding selection_of
  choose cycle candidates =
      selection_of
        (or_else (head? (filter (λ c. not (includes c.label cycle)) candidates)) (head? candidates))

  unfoldable pub pick_least_used_codex_pool_label :
      LowerCase → List Text → Usage → Option Text → List Text → Result LabelError (Option Selection)
  unfolding choose recent_cycle candidates_of normalize_all normalize_avoided
  pick_least_used_codex_pool_label low labels usage avoid_label recent = do
    avoided ← normalize_avoided low avoid_label
    names ← normalize_all low labels
    let candidates = candidates_of usage avoided names
    ok (choose (recent_cycle avoided recent candidates) candidates)
