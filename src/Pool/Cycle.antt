-- ===== src/Pool/Cycle.antt =====
-- The labels that a selection avoids because they were selected lately: the loop of
-- `pickLeastUsedCodexPoolLabel` (src/pool/ranking.js) and
-- `buildRecentSelectionCycleAvoidLabels` (src/pool/history.js).
pub mod Laws
pub mod Avoided
pub mod Fresh
pub mod Rebuilt
use aimgr.Prelude.{
  ℕ, ◌-◌, Bool, true, false, not, List, [], ◌∷◌, ◌++◌, reverse, Text, same, includes, ltb, length,
  filter, if◌then◌else◌,
}

-- `set.add(text)`.
unfoldable pub add_text : Text → List Text → List Text
add_text x xs = if includes x xs then xs else xs ++ (x ∷ [])

unfoldable pub add_all : List Text → List Text → List Text
unfolding add_text
add_all set [] = set
add_all set (x ∷ xs) = add_all (add_text x set) xs

-- `[...new Set(list)]`.
unfoldable pub distinct : List Text → List Text
unfolding add_all
distinct xs = add_all [] xs

unfoldable pub add_if : Bool → Text → List Text → List Text
unfolding add_text
add_if true x xs = add_text x xs
add_if false x xs = xs

-- The loop from the newest recent label back, while the set is smaller than `limit`.
unfoldable pub avoid_loop : List Text → ℕ → List Text → List Text → List Text
unfolding add_if
avoid_loop alternatives limit [] avoided = avoided
avoid_loop alternatives limit (x ∷ older) avoided =
    let rest = avoid_loop alternatives limit older (add_if (includes x alternatives) x avoided) in
    if ltb (length avoided) limit then rest else avoided

-- `Math.max(0, alternatives - 1)` is subtraction that stops at 0. The newest recent label is last.
unfoldable pub cycle_avoid : List Text → List Text → List Text
unfolding avoid_loop
cycle_avoid alternatives recent =
    avoid_loop alternatives (length alternatives - 1) (reverse recent) []

unfoldable pub build_recent_selection_cycle_avoid_labels : List Text → Text → List Text → List Text
unfolding cycle_avoid distinct
build_recent_selection_cycle_avoid_labels selectable source recent =
    cycle_avoid (distinct (filter (λ label. not (same label source)) selectable)) recent
