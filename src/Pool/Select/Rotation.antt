-- ===== src/Pool/Select/Rotation.antt =====
-- Repeated launches walk the pool: `pickLeastUsedCodexPoolLabel` does not return to the account of
-- the last launch while there is another.
use aimgr.Prelude.{
  ◌≤◌, ◌≡◌, refl, ap, ◌∙◌, true, false, Option, none, some, List, [], ◌∷◌, ◌++◌, map, Text, same,
  same_iff, includes, Preorder, LowerCase, ok, arith, length,
}
use aimgr.Pool.Usage.{Numbers}
use aimgr.Pool.Cycle.Laws.{All-includes, includes-same}
use aimgr.Pool.Cycle.Avoided.{cycle_avoid_newest}
use aimgr.Pool.Cycle.Fresh.{length-le_of_subset}
use aimgr.Pool.Select.{
  normalize_all, normalize_avoided, Selection, Usage, is_selectable, label_of, recent_cycle,
  candidates_of, pick_least_used_codex_pool_label,
}
use aimgr.Pool.Select.Candidates.{includes-candidates}
use aimgr.Pool.Select.Laws.{IsAnswer, cycle_labels, pick_least_used-IsAnswer}

-- Two different members make two elements.
two_members :
    (s t : Text) (xs : List Text)
    → includes s xs ≡ true
    → includes t xs ≡ true
    → same t s ≡ false
    → 2 ≤ length xs
unfolding includes
two_members s t xs m n d =
    length-le_of_subset (s ∷ t ∷ []) xs (ground arith, (refl, tt))
      (λ z h.
        ground (arith, same_iff s z, same_iff t z, includes-same s z xs, includes-same t z xs))

module _ (num : Numbers) (locale : Preorder Text) (usage : Usage num locale) where
  module _ (avoided : Option Text) (names older : List Text) (last other : Text) where
    last_in_cycle :
        includes last names ≡ true
        → is_selectable num locale usage avoided last ≡ true
        → includes other names ≡ true
        → is_selectable num locale usage avoided other ≡ true
        → same other last ≡ false
        → includes last (
            recent_cycle num locale avoided
              (older ++ (last ∷ []))
              (candidates_of num locale usage avoided names))
          ≡ true
    last_in_cycle m s n t d =
        let labels = map (label_of num locale) (candidates_of num locale usage avoided names) in
        let is_last : includes last labels ≡ true =
          ground (arith, includes-candidates num locale usage avoided names last) in
        let is_other : includes other labels ≡ true =
          ground (arith, includes-candidates num locale usage avoided names other) in
        ap (includes last) (cycle_labels num locale usage avoided names (older ++ (last ∷ [])))
        ∙ cycle_avoid_newest labels older last is_last
            (two_members last other labels is_last is_other d)

    not_last :
        (a : Option Selection)
        → IsAnswer num locale usage avoided names (older ++ (last ∷ [])) a
        → includes last names ≡ true
        → is_selectable num locale usage avoided last ≡ true
        → includes last (
            recent_cycle num locale avoided
              (older ++ (last ∷ []))
              (candidates_of num locale usage avoided names))
          ≡ true
        → (s : Selection) × (a ≡ some s) × (same s.label last ≡ false)
    not_last none h m s c = let none_at = All-includes _ names last h m in ground arith
    not_last (some x) h m s c =
        (x, refl, ground (arith, h.preferred, same_iff x.label last, includes-same x.label last))

  -- When no label is refused and the label of the last launch and another given label can both be
  -- selected, a label is selected, and it is not that of the last launch.
  pub pick_least_used_rotates :
      (low : LowerCase) (labels : List Text) (avoid_label avoided : Option Text)
      (names older : List Text) (last other : Text)
      → normalize_avoided low avoid_label ≡ ok avoided
      → normalize_all low labels ≡ ok names
      → includes last names ≡ true
      → is_selectable num locale usage avoided last ≡ true
      → includes other names ≡ true
      → is_selectable num locale usage avoided other ≡ true
      → same other last ≡ false
      → (s : Selection) × (pick_least_used_codex_pool_label num locale low labels usage avoid_label
            (older ++ (last ∷ []))
          ≡ ok (some s))
        × (same s.label last ≡ false)
  pick_least_used_rotates low labels avoid_label avoided names older last other h k m s n t d =
      let (a, e, is_answer) =
        pick_least_used-IsAnswer num locale usage low labels avoid_label avoided names
          (older ++ (last ∷ [])) h k in
      let (x, p, q) =
        not_last avoided names older last other a is_answer m s
          (last_in_cycle avoided names older last other m s n t d) in
      (x, e ∙ ap ok p, q)
