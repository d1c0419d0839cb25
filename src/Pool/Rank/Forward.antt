-- ===== src/Pool/Rank/Forward.antt =====
-- What bringing the current label forward keeps of the sorted candidates.
use aimgr.Prelude.{
  ◌≡◌, refl, sym, subst, ◌⊎◌, inl, inr, true, false, Option, none, some, List, [], ◌∷◌, map, head?,
  Text, includes, All, Bool-cases, Preorder, IsLeast, IsSorted, head-IsLeast, le_refl,
}
use mathlib.Core.List.{Perm}
use mathlib.Core.List.Perm
use aimgr.Pool.Usage.{Numbers}
use aimgr.Pool.Planner.Weights.{Arithmetic}
use aimgr.Pool.Planner.Candidates.{should_keep_current_weighted_assignment}
use aimgr.Pool.Rank.{
  RankedCandidate, label_of, rank_order, find_label, splice, forward, bring_forward,
}
use aimgr.Pool.Rank.Splice.{
  found-same, found-All, kept_included, splice-perm, All-splice, splice-IsSorted,
}

-- All but the first.
abbrev pub others {ℓ} : {A : Type ℓ} → List A → List A
others [] = []
others (x ∷ xs) = xs

module _ (num : Numbers) (ar : Arithmetic num) (locale : Preorder Text) where
  -- The first candidate: no other comes before it, or it is the current label, within the
  -- hysteresis of one that no other comes before.
  abbrev pub IsFirst :
      num.Number
      → Option Text
      → List (RankedCandidate num ar locale)
      → RankedCandidate num ar locale
      → Type 0
  IsFirst weight current cs c =
      ((c.kept_current ≡ false) × IsLeast (rank_order num ar locale) c cs)
      ⊎ ((c.kept_current ≡ true)
          × (current ≡ some (label_of num ar locale c))
          × ((b : RankedCandidate num ar locale) × (includes (label_of num ar locale b)
                  (map (label_of num ar locale) cs)
                ≡ true)
              × IsLeast (rank_order num ar locale) b cs
              × (should_keep_current_weighted_assignment num ar locale c.candidate b.candidate
                    weight
                  ≡ true)))

  abbrev pub IsFirstOf : num.Number → Option Text → List (RankedCandidate num ar locale) → Type 0
  IsFirstOf weight current [] = Unit
  IsFirstOf weight current (c ∷ cs) = IsFirst weight current (c ∷ cs) c

  pub record IsRanked (weight : num.Number) (current : Option Text) (names : List Text)
      (cs : List (RankedCandidate num ar locale)) : Type 0 where
    pub labels : Perm (map (label_of num ar locale) cs) names
    pub first : IsFirstOf weight current cs
    pub others_sorted : IsSorted (rank_order num ar locale) (others cs)
    pub others_plain : All (λ c. c.kept_current ≡ false) (others cs)

  module _ (weight : num.Number) (current : Option Text) (names : List Text)
      (cs : List (RankedCandidate num ar locale)) (sorted : IsSorted (rank_order num ar locale) cs)
      (plain : All (λ c. c.kept_current ≡ false) cs)
      (labels : Perm (map (label_of num ar locale) cs) names) where
    others_lem :
        (xs : List (RankedCandidate num ar locale))
        → IsSorted (rank_order num ar locale) xs
        → All (λ c. c.kept_current ≡ false) xs
        → IsFirstOf weight current xs
          × IsSorted (rank_order num ar locale) (others xs)
          × All (λ c. c.kept_current ≡ false) (others xs)
    others_lem [] h k = (tt, tt, tt)
    others_lem (x ∷ xs) h k = (inl (k.0, (le_refl (rank_order num ar locale) x, h.0)), h.1, k.1)

    -- Where nothing is brought forward.
    same-IsRanked : IsRanked weight current names cs
    same-IsRanked =
        let (f, s, k) = others_lem cs sorted plain in
        record { labels = labels; first = f; others_sorted = s; others_plain = k }

    moved-IsRanked :
        (b c : RankedCandidate num ar locale)
        → head? cs ≡ some b
        → find_label num ar locale (label_of num ar locale c) cs ≡ some c
        → current ≡ some (label_of num ar locale c)
        → should_keep_current_weighted_assignment num ar locale c.candidate b.candidate weight
          ≡ true
        → IsRanked weight current names
            (record c { kept_current = true } ∷ splice num ar locale (label_of num ar locale c) cs)
    moved-IsRanked b c e f m k =
        let moved = splice-perm num ar locale (label_of num ar locale c) cs c f in
        let least = head-IsLeast (rank_order num ar locale) cs b sorted e in
        record {
          labels = Perm.trans (Perm.map (label_of num ar locale) moved) labels;
          first = inr (
            refl,
            m,
            (
              b,
              kept_included num ar locale b c cs e f,
              (
                found-All num ar locale _ (label_of num ar locale c) cs c least f,
                All-splice num ar locale _ (label_of num ar locale c) cs least,
              ),
              k,
            ),
          );
          others_sorted = splice-IsSorted num ar locale (label_of num ar locale c) cs sorted;
          others_plain = All-splice num ar locale _ (label_of num ar locale c) cs plain;
        }

    forward-IsRanked :
        (best found : Option (RankedCandidate num ar locale)) (l : Text)
        → current ≡ some l
        → head? cs ≡ best
        → find_label num ar locale l cs ≡ found
        → IsRanked weight current names (forward num ar locale weight cs best found)
    unfolding forward
    forward-IsRanked none found l m e f = same-IsRanked
    forward-IsRanked (some b) none l m e f = same-IsRanked
    forward-IsRanked (some b) (some c) l m e f =
        let q = found-same num ar locale l cs c f in
        elim (Bool-cases
          (should_keep_current_weighted_assignment num ar locale c.candidate b.candidate weight)) [
            | inl k ↦ rw k (
                moved-IsRanked b c e (subst (λ t. find_label num ar locale t cs ≡ some c) (sym q) f)
                  (subst (λ t. current ≡ some t) (sym q) m) k)
            | inr k ↦ rw k same-IsRanked
          ]

    pub bring_forward-IsRanked :
        (l : Option Text)
        → current ≡ l
        → IsRanked weight current names (bring_forward num ar locale weight l cs)
    unfolding bring_forward
    bring_forward-IsRanked none m = same-IsRanked
    bring_forward-IsRanked (some l) m = forward-IsRanked _ _ l m refl refl
