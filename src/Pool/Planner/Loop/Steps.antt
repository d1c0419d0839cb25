-- ===== src/Pool/Planner/Loop/Steps.antt =====
-- One turn of the planner's loop: there is always a selection, and it fits.
use aimgr.Prelude.{
  ◌≡◌, refl, inl, inr, Bool, true, false, Option, none, some, List, [], ◌∷◌, map, head?, Text,
  includes, Preorder, All, All-of_map, All-map, subst, All-sort_by, All-of_sort_by, head-All,
  head-IsLeast, sort_by-IsSorted, nil_of_head, Option-cases, Bool-cases,
}
use aimgr.Pool.Usage.{Numbers}
use aimgr.Pool.Cycle.Laws.{All-of_includes, All-includes}
use aimgr.Pool.Planner.Weights.{Arithmetic}
use aimgr.Pool.Planner.Candidates.{
  Candidate, build_weighted_rebalance_candidate, candidate_order,
  should_keep_current_weighted_assignment,
}
use aimgr.Pool.Planner.Loop.{
  Setting, Progress, is_current, current_of, candidates_for, find_candidate, select_candidate,
  selection_for,
}

module _ (num : Numbers) (ar : Arithmetic num) (locale : Preorder Text) where
  -- What `find` returns passes its test.
  find_candidate-All {κ} :
      (P : Candidate num ar locale → Type κ) (current : Option Text)
      (cs : List (Candidate num ar locale)) (c : Candidate num ar locale)
      → All P cs
      → find_candidate num ar locale current cs ≡ some c
      → P c × (is_current current c.label ≡ true)
  unfolding find_candidate
  find_candidate-All P current [] c h e = cc e
  find_candidate-All P current (x ∷ cs) c h e = elim (Bool-cases (is_current current x.label)) [
    | inl k ↦
        let q : x ≡ c = cc (rw k at e) in
        (subst P q h.0, subst (λ d. is_current current d.label ≡ true) q k)
    | inr k ↦ find_candidate-All P current cs c h.1 (rw k at e)
  ]

  module _ (g : Setting num ar locale) (subject : Text) (p : Progress num ar locale) where
    abbrev weight : num.Number
    weight = (g.demand subject).demand_weight

    -- The candidate of a label at this turn.
    abbrev pub candidate_at : Text → Candidate num ar locale
    candidate_at l =
        build_weighted_rebalance_candidate num ar locale l (g.supply l) (g.target l) (p.demands l)
          (p.counts l) weight

    abbrev cs : List (Candidate num ar locale)
    cs = candidates_for num ar locale g weight p

    abbrev IsOffered : Candidate num ar locale → Type 0
    IsOffered c = (includes c.label g.labels ≡ true) × (c ≡ candidate_at c.label)

    map-IsOffered : All IsOffered (map candidate_at g.labels)
    unfolding build_weighted_rebalance_candidate
    map-IsOffered =
        All-map candidate_at IsOffered g.labels (All-of_includes _ g.labels (λ t h. (h, refl)))

    cs-IsOffered : All IsOffered cs
    unfolding candidates_for
    cs-IsOffered = All-sort_by (candidate_order num ar locale) _ _ map-IsOffered

    -- No other label's candidate comes before it.
    abbrev pub IsBest : Candidate num ar locale → Type 0
    IsBest c = All (λ l. (candidate_order num ar locale).le c (candidate_at l) ≡ true) g.labels

    head-IsBest : (c : Candidate num ar locale) → head? cs ≡ some c → IsBest c
    unfolding candidates_for
    head-IsBest c e = All-of_map candidate_at _ g.labels (
        All-of_sort_by (candidate_order num ar locale) _ _ (
          head-IsLeast (candidate_order num ar locale) cs c
            (sort_by-IsSorted (candidate_order num ar locale) _) e))

    -- The best candidate, or the current label's while it is within the hysteresis of the best.
    abbrev Fits : Bool → Candidate num ar locale → Type 0
    Fits false c = IsBest c
    Fits true c =
        (is_current (current_of num ar locale g subject) c.label ≡ true)
        × ((best : Candidate num ar locale) × IsBest best
            × (should_keep_current_weighted_assignment num ar locale c best weight ≡ true))

    pub record IsFit (s : Candidate num ar locale × Bool) : Type 0 where
      pub given : includes (s.0).label g.labels ≡ true
      pub is_offered : s.0 ≡ candidate_at (s.0).label
      pub fits : Fits s.1 s.0

    best-IsFit : (b : Candidate num ar locale) → head? cs ≡ some b → IsFit (b, false)
    best-IsFit b e =
        let (m, o) = head-All _ cs b cs-IsOffered e in
        record { given = m; is_offered = o; fits = head-IsBest b e }

    select-IsFit :
        (current best : Option (Candidate num ar locale))
        → find_candidate num ar locale (current_of num ar locale g subject) cs ≡ current
        → head? cs ≡ best
        → (b : Candidate num ar locale) → best ≡ some b
        → (s : Candidate num ar locale × Bool) × (select_candidate num ar locale current best weight
            ≡ some s)
          × IsFit s
    unfolding select_candidate
    select-IsFit none none f h b e = cc e
    select-IsFit (some c) none f h b e = cc e
    select-IsFit none (some x) f h b e = ((x, false), refl, best-IsFit x h)
    select-IsFit (some c) (some x) f h b e =
        elim (Bool-cases (should_keep_current_weighted_assignment num ar locale c x weight)) [
          | inl k ↦
              let (o, m) = find_candidate-All IsOffered _ cs c cs-IsOffered f in
              (
                (c, true),
                rw k refl,
                record { given = o.0; is_offered = o.1; fits = (m, (x, head-IsBest x h, k)) },
              )
          | inr k ↦ ((x, false), rw k refl, best-IsFit x h)
        ]

    some_candidate : (l : Text) → includes l g.labels ≡ true → head? cs ≡ none → ⊥
    unfolding candidates_for
    some_candidate l m n =
        let none_left : All (λ c. ⊥) (map candidate_at g.labels) =
          All-of_sort_by (candidate_order num ar locale) _ _ (rw (nil_of_head _ n) tt) in
        All-includes (λ t. ⊥) g.labels l (All-of_map candidate_at _ g.labels none_left) m

    -- Where there is a label, each turn makes a selection. It is an eligible label's candidate, with
    -- the demand and the count that the label has by then. Either no other comes before it in the
    -- planner's order, or it is the agent's current label, within the hysteresis of the best one.
    pub selection-IsFit :
        (l : Text)
        → includes l g.labels ≡ true
        → (s : Candidate num ar locale × Bool) × (selection_for num ar locale g subject p ≡ some s)
          × IsFit s
    unfolding selection_for
    selection-IsFit l m = elim (Option-cases (head? cs)) [
      | inl n ↦ absurd (some_candidate l m n)
      | inr w ↦ select-IsFit _ (head? cs) refl refl w.0 w.1
    ]
