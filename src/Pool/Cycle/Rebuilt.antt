-- ===== src/Pool/Cycle/Rebuilt.antt =====
-- What `buildRecentSelectionCycleAvoidLabels` (src/pool/history.js) returns.
use aimgr.Prelude.{
  ℕ, ◌-◌, ◌≤◌, ◌≡◌, refl, inl, inr, true, false, not, ◌&&◌, List, [], ◌∷◌, reverse, Text, same,
  includes, ltb, length, filter, All, arith, Bool-cases,
}
use aimgr.Pool.Cycle.{
  add_if, avoid_loop, cycle_avoid, distinct, build_recent_selection_cycle_avoid_labels,
}
use aimgr.Pool.Cycle.Laws.{includes-add_text, includes-same, includes-distinct, All-of_includes}
use aimgr.Pool.Cycle.Avoided.{length-cycle_avoid}
use aimgr.Pool.Select.Sorted.{includes-filter}

included_if :
    (alternatives : List Text) (x t : Text) (avoided : List Text)
    → includes t (add_if (includes x alternatives) x avoided) ≡ true
    → includes t avoided ≡ false
    → includes t alternatives ≡ true
unfolding add_if
included_if alternatives x t avoided h n = elim (Bool-cases (includes x alternatives)) [
  | inl e ↦
      let k = rw e at h in
      ground (arith, includes-add_text t x avoided, includes-same x t alternatives)
  | inr e ↦ let k = rw e at h in ground arith
]

-- The loop adds only alternatives.
avoid_loop_from :
    (alternatives : List Text) (limit : ℕ) (recent avoided : List Text) (t : Text)
    → includes t (avoid_loop alternatives limit recent avoided) ≡ true
    → includes t avoided ≡ false
    → includes t alternatives ≡ true
unfolding avoid_loop
avoid_loop_from alternatives limit [] avoided t h n = ground arith
avoid_loop_from alternatives limit (x ∷ older) avoided t h n =
    elim (Bool-cases (ltb (length avoided) limit)) [
      | inl e ↦
          let k = rw e at h in
          let next = add_if (includes x alternatives) x avoided in
          elim (Bool-cases (includes t next)) [
            | inl m ↦ included_if alternatives x t avoided m n
            | inr m ↦ avoid_loop_from alternatives limit older next t k m
          ]
      | inr e ↦ let k : includes t avoided ≡ true = rw e at h in ground arith
    ]

cycle_avoid_from :
    (alternatives recent : List Text) (t : Text)
    → includes t (cycle_avoid alternatives recent) ≡ true
    → includes t alternatives ≡ true
unfolding cycle_avoid includes
cycle_avoid_from alternatives recent t h =
    avoid_loop_from alternatives _ (reverse recent) [] t h refl

-- The avoided labels are selectable and different from the source, and fewer than the distinct
-- labels that are, so that where there is such a label one is left.
pub build_recent-All :
    (selectable : List Text) (source : Text) (recent : List Text)
    → All
        (λ t. (includes t selectable && not (same t source)) ≡ true)
        (build_recent_selection_cycle_avoid_labels selectable source recent)
      × (length (build_recent_selection_cycle_avoid_labels selectable source recent)
          ≤ length (distinct (filter (λ t. not (same t source)) selectable)) - 1)
unfolding build_recent_selection_cycle_avoid_labels
build_recent-All selectable source recent = (
  All-of_includes _ _ (λ t h.
      let m = cycle_avoid_from _ recent t h in
      ground (
        arith,
        includes-distinct t (filter (λ u. not (same u source)) selectable),
        includes-filter (λ u. not (same u source)) t selectable,
      )),
  length-cycle_avoid _ recent,
)
