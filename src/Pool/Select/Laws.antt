-- ===== src/Pool/Select/Laws.antt =====
-- What `pickLeastUsedCodexPoolLabel` chooses.
use aimgr.Prelude.{
  ◌-◌, ◌≤◌, ◌≡◌, refl, sym, ap, ◌∙◌, subst, inl, inr, Bool, true, false, not, ◌&&◌, Option, none,
  some, List, [], ◌∷◌, map, Text, same, same_iff, includes, Preorder, LowerCase, ok, filter, arith,
  Bool-cases, Option-cases, All, length, head?, head-All, head-IsLeast, filter-IsSorted,
  sort_by-IsSorted, IsSorted, All-of_map, All-filter, All-and, nil_of_head, length-head, filter_id,
  filter-map, length-map,
}
use aimgr.Coordination.Records.Cas.{or_else}
use aimgr.Pool.Usage.{Numbers}
use aimgr.Pool.Cycle.{cycle_avoid}
use aimgr.Pool.Cycle.Laws.{All-of_includes}
use aimgr.Pool.Cycle.Avoided.{length-cycle_avoid}
use aimgr.Pool.Cycle.Fresh.{fresh}
use aimgr.Pool.Select.{
  normalize_all, normalize_avoided, is_avoided, Selection, Candidate, Usage, is_selectable,
  candidate_of, candidate_order, candidates_of, label_of, recent_cycle, choose, selection_of,
  pick_least_used_codex_pool_label,
}
use aimgr.Pool.Select.Sorted.{includes-filter}
use aimgr.Pool.Select.Candidates.{includes-candidates, candidates-IsDistinct, candidates-IsOfLabel}

-- An element with a given label among elements that all have a property.
All-at {κ} :
    {A : Type 0} (P : A → Type κ) (f : A → Text) (xs : List A) (t : Text)
    → All P xs
    → includes t (map f xs) ≡ true
    → (x : A) × (f x ≡ t) × P x
unfolding includes
All-at P f [] t h m = ground arith
All-at P f (x ∷ xs) t h m = elim (Bool-cases (same (f x) t)) [
  | inl e ↦ (x, (same_iff (f x) t).0 e, h.0)
  | inr e ↦ All-at P f xs t h.1 (ground arith)
]

module _ (num : Numbers) (locale : Preorder Text) (usage : Usage num locale) where
  module _ (avoided : Option Text) (names recent : List Text) where
    abbrev candidates : List (Candidate num locale)
    candidates = candidates_of num locale usage avoided names

    abbrev cycle : List Text
    cycle = recent_cycle num locale avoided recent candidates

    -- The labels that can be selected and were not selected lately.
    abbrev is_preferred : Text → Bool
    is_preferred label = is_selectable num locale usage avoided label && not (includes label cycle)

    -- A given, selectable label outside the recent cycle that no other such label precedes.
    pub record IsBest (best : Text) : Type 0 where
      pub given : includes best names ≡ true
      pub preferred : is_preferred best ≡ true
      pub least :
          All
            (λ m.
              (candidate_order num locale).le
                (candidate_of num locale usage best)
                (candidate_of num locale usage m)
              ≡ true)
            (filter is_preferred names)

    abbrev pub IsAnswer : Option Selection → Type 0
    IsAnswer none = All (λ m. is_selectable num locale usage avoided m ≡ false) names
    IsAnswer (some s) = IsBest s.label

    not_avoided :
        (t : Text)
        → is_selectable num locale usage avoided t ≡ true
        → not (is_avoided avoided t) ≡ true
    unfolding is_selectable
    not_avoided t h = ground arith

    -- All candidates are alternatives: the loop runs over their labels.
    pub cycle_labels : cycle ≡ cycle_avoid (map (label_of num locale) candidates) recent
    unfolding recent_cycle
    cycle_labels =
        ap (λ cs. cycle_avoid (map (label_of num locale) cs) recent)
          (filter_id _ candidates (
            All-of_map (label_of num locale) (λ t. not (is_avoided avoided t) ≡ true) candidates
              (All-of_includes _ _ (λ t h.
                not_avoided t
                  (ground (arith, includes-candidates num locale usage avoided names t))))))

    abbrev preferred : List (Candidate num locale)
    preferred = filter (λ c. not (includes c.label cycle)) candidates

    includes-preferred :
        (t : Text)
        → includes t (map (label_of num locale) preferred) ≡ (includes t names && is_preferred t)
    includes-preferred t =
        ap (includes t)
          (sym (filter-map (label_of num locale) (λ u. not (includes u cycle)) candidates))
        ∙ includes-filter (λ u. not (includes u cycle)) t _
        ∙ ground (arith, includes-candidates num locale usage avoided names t)

    preferred-IsOfLabel : All (λ c. c ≡ candidate_of num locale usage c.label) preferred
    preferred-IsOfLabel =
        All-filter _ _ candidates (candidates-IsOfLabel num locale usage avoided names)

    preferred-IsSorted : IsSorted (candidate_order num locale) preferred
    unfolding candidates_of
    preferred-IsSorted =
        filter-IsSorted (candidate_order num locale) _ candidates
          (sort_by-IsSorted (candidate_order num locale) _)

    head-IsBest : (b : Candidate num locale) → head? preferred ≡ some b → IsBest b.label
    head-IsBest b e =
        let members =
          All-of_map (label_of num locale)
            (λ t. includes t (map (label_of num locale) preferred) ≡ true) preferred
            (All-of_includes _ _ (λ t h. h)) in
        let member = head-All _ preferred b members e in
        let of_label = head-All _ preferred b preferred-IsOfLabel e in
        let least = head-IsLeast (candidate_order num locale) preferred b preferred-IsSorted e in
        record {
          given = ground (arith, includes-preferred b.label);
          preferred = ground (arith, includes-preferred b.label);
          least = All-of_includes _ _ (λ m h.
              let (c, is_m, facts) =
                All-at _ (label_of num locale) preferred m
                  (All-and _ _ preferred least preferred-IsOfLabel)
                  (ground (arith, includes-preferred m, includes-filter is_preferred m names)) in
              subst
                (λ x. (candidate_order num locale).le x (candidate_of num locale usage m) ≡ true)
                of_label
                (subst (λ y. (candidate_order num locale).le b y ≡ true)
                  (facts.1 ∙ ap (candidate_of num locale usage) is_m) facts.0));
        }

    length-cycle : length cycle ≤ length candidates - 1
    length-cycle = rw cycle_labels (
        ground (
          arith,
          length-cycle_avoid (map (label_of num locale) candidates) recent,
          length-map candidates (label_of num locale),
        ))

    -- Where there is a candidate, one is left outside the cycle.
    preferred_exists :
        (c : Candidate num locale) → head? candidates ≡ some c → head? preferred ≡ none → ⊥
    unfolding includes
    preferred_exists c e n =
        let some_left = length-head candidates c e in
        let (t, in_labels, outside) =
          fresh (map (label_of num locale) candidates) cycle
            (candidates-IsDistinct num locale usage avoided names)
            (ground (arith, length-cycle, length-map candidates (label_of num locale))) in
        let empty =
          ap (λ cs. includes t (map (label_of num locale) cs)) (nil_of_head preferred n) in
        ground (arith, includes-preferred t, includes-candidates num locale usage avoided names t)

    nothing_selectable :
        head? candidates ≡ none → All (λ m. is_selectable num locale usage avoided m ≡ false) names
    unfolding includes
    nothing_selectable n =
        let empty = ap (λ cs. map (label_of num locale) cs) (nil_of_head candidates n) in
        All-of_includes _ names (λ m h.
          let none_here = ap (includes m) empty in
          ground (arith, includes-candidates num locale usage avoided names m))

    choose-IsAnswer : IsAnswer (choose num locale cycle candidates)
    unfolding choose or_else selection_of
    choose-IsAnswer = elim (Option-cases (head? preferred)) [
      | inl n ↦ elim (Option-cases (head? candidates)) [
        | inl m ↦ rw (n, m) (nothing_selectable m)
        | inr w ↦ absurd (preferred_exists w.0 w.1 n)
      ]
      | inr w ↦ rw w.1 (head-IsBest w.0 w.1)
    ]

  -- When no label is refused, a selection is returned exactly as follows. Nothing is selected where
  -- no given label is usable and different from the avoided one. Otherwise the selected label is
  -- one of these and outside the recent cycle, and no other such label precedes it in the order of
  -- weekly usage and then of names.
  pub pick_least_used-IsAnswer :
      (low : LowerCase) (labels : List Text) (avoid_label avoided : Option Text)
      (names recent : List Text)
      → normalize_avoided low avoid_label ≡ ok avoided
      → normalize_all low labels ≡ ok names
      → (a : Option Selection) × (pick_least_used_codex_pool_label num locale low labels usage
            avoid_label recent
          ≡ ok a)
        × IsAnswer avoided names recent a
  unfolding pick_least_used_codex_pool_label
  pick_least_used-IsAnswer low labels avoid_label avoided names recent h k =
      (_, rw (h, k) refl, choose-IsAnswer avoided names recent)
