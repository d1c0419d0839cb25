-- ===== src/Pool/Select/Candidates.antt =====
-- Which labels are candidates, and the order they stand in.
use aimgr.Prelude.{
  subst, ◌≡◌, refl, sym, ap, ◌∙◌, ◌&&◌, Option, List, [], ◌∷◌, map, Text, includes, Preorder, All,
  All-sort_by,
}
use aimgr.Pool.Usage.{Numbers}
use aimgr.Pool.Cycle.{distinct}
use aimgr.Pool.Cycle.Laws.{IsDistinct, includes-distinct, distinct-IsDistinct}
use aimgr.Pool.Select.{
  Candidate, Usage, is_selectable, candidate_of, candidate_order, candidates_of, label_of,
}
use aimgr.Pool.Select.Sorted.{
  includes-sort_by, sort_by-IsDistinct, includes-filter, filter-IsDistinct,
}

module _ (num : Numbers) (locale : Preorder Text) (usage : Usage num locale) where
  labels-map_candidates :
      (xs : List Text) → map (label_of num locale) (map (candidate_of num locale usage) xs) ≡ xs
  unfolding candidate_of
  labels-map_candidates [] = refl
  labels-map_candidates (x ∷ xs) = ap (◌∷◌ x) (labels-map_candidates xs)

  -- The candidates are the given labels that can be selected.
  pub includes-candidates :
      (avoided : Option Text) (labels : List Text) (t : Text)
      → includes t (map (label_of num locale) (candidates_of num locale usage avoided labels))
        ≡ (includes t labels && is_selectable num locale usage avoided t)
  unfolding candidates_of
  includes-candidates avoided labels t =
      includes-sort_by (candidate_order num locale) (label_of num locale) t _
      ∙ ap (includes t) (labels-map_candidates _)
      ∙ includes-filter (is_selectable num locale usage avoided) t (distinct labels)
      ∙ ap (λ b. b && is_selectable num locale usage avoided t) (includes-distinct t labels)

  pub candidates-IsDistinct :
      (avoided : Option Text) (labels : List Text)
      → IsDistinct (map (label_of num locale) (candidates_of num locale usage avoided labels))
  unfolding candidates_of
  candidates-IsDistinct avoided labels =
      sort_by-IsDistinct (candidate_order num locale) (label_of num locale) _ (
        subst IsDistinct (sym (labels-map_candidates _))
          (filter-IsDistinct _ _ (distinct-IsDistinct labels)))

  -- What a candidate records is the usage of its label.
  abbrev IsOfLabel : Candidate num locale → Type 0
  IsOfLabel c = c ≡ candidate_of num locale usage c.label

  map_candidates-IsOfLabel :
      (xs : List Text) → All IsOfLabel (map (candidate_of num locale usage) xs)
  unfolding candidate_of
  map_candidates-IsOfLabel [] = tt
  map_candidates-IsOfLabel (x ∷ xs) = (refl, map_candidates-IsOfLabel xs)

  pub candidates-IsOfLabel :
      (avoided : Option Text) (labels : List Text)
      → All IsOfLabel (candidates_of num locale usage avoided labels)
  unfolding candidates_of
  candidates-IsOfLabel avoided labels =
      All-sort_by (candidate_order num locale) IsOfLabel _ (map_candidates-IsOfLabel _)
