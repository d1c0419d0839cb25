-- ===== src/Pool/Rank/Splice.antt =====
-- What finding a candidate and taking it out of the list keeps.
use aimgr.Prelude.{
  ◌≡◌, refl, sym, subst, ◌||◌, ap, ◌∙◌, inl, inr, true, some, List, [], ◌∷◌, map, head?, Text, same,
  same_iff, same_refl, includes, All, Bool-cases, Preorder, IsSorted, arith,
}
use mathlib.Core.List.{Perm}
use mathlib.Core.List.Perm
use aimgr.Pool.Usage.{Numbers}
use aimgr.Pool.Planner.Weights.{Arithmetic}
use aimgr.Pool.Rank.{RankedCandidate, label_of, rank_order, find_label, splice}

module _ (num : Numbers) (ar : Arithmetic num) (locale : Preorder Text) where
  pub found-same :
      (l : Text) (cs : List (RankedCandidate num ar locale)) (c : RankedCandidate num ar locale)
      → find_label num ar locale l cs ≡ some c
      → label_of num ar locale c ≡ l
  unfolding find_label
  found-same l [] c e = cc e
  found-same l (x ∷ xs) c e = elim (Bool-cases (same (label_of num ar locale x) l)) [
    | inl k ↦
        let q : x ≡ c = cc (rw k at e) in ap (label_of num ar locale) (sym q) ∙ (same_iff _ l).0 k
    | inr k ↦ found-same l xs c (rw k at e)
  ]

  pub found-All {κ} :
      (P : RankedCandidate num ar locale → Type κ) (l : Text)
      (cs : List (RankedCandidate num ar locale)) (c : RankedCandidate num ar locale)
      → All P cs
      → find_label num ar locale l cs ≡ some c
      → P c
  unfolding find_label
  found-All P l [] c h e = cc e
  found-All P l (x ∷ xs) c h e = elim (Bool-cases (same (label_of num ar locale x) l)) [
    | inl k ↦ let q : x ≡ c = cc (rw k at e) in subst P q h.0
    | inr k ↦ found-All P l xs c h.1 (rw k at e)
  ]

  -- The labels of what is found and of what is left are those there were.
  pub includes-splice :
      (t l : Text) (cs : List (RankedCandidate num ar locale)) (c : RankedCandidate num ar locale)
      → find_label num ar locale l cs ≡ some c
      → includes t (map (label_of num ar locale) cs) ≡ (
          same (label_of num ar locale c) t
          || includes t (map (label_of num ar locale) (splice num ar locale l cs)))
  unfolding find_label splice includes
  includes-splice t l [] c e = cc e
  includes-splice t l (x ∷ xs) c e = elim (Bool-cases (same (label_of num ar locale x) l)) [
    | inl k ↦ let q : x ≡ c = cc (rw k at e) in rw (k, q) refl
    | inr k ↦ rw k (ground (arith, includes-splice t l xs c (rw k at e)))
  ]

  pub includes-best :
      (cs : List (RankedCandidate num ar locale)) (b : RankedCandidate num ar locale)
      → head? cs ≡ some b
      → includes (label_of num ar locale b) (map (label_of num ar locale) cs) ≡ true
  unfolding includes
  includes-best [] b e = cc e
  includes-best (x ∷ xs) b e =
      let q : x ≡ b = cc e in rw q (ground (arith, same_refl (label_of num ar locale b)))

  pub kept_included :
      (b c : RankedCandidate num ar locale) (cs : List (RankedCandidate num ar locale))
      → head? cs ≡ some b
      → find_label num ar locale (label_of num ar locale c) cs ≡ some c
      → includes (label_of num ar locale b) (
          map
            (label_of num ar locale)
            (record c { kept_current = true } ∷ splice num ar locale (label_of num ar locale c) cs))
        ≡ true
  unfolding includes
  kept_included b c cs e f =
      sym (includes-splice (label_of num ar locale b) (label_of num ar locale c) cs c f)
      ∙ includes-best cs b e

  pub splice-perm :
      (l : Text) (cs : List (RankedCandidate num ar locale)) (c : RankedCandidate num ar locale)
      → find_label num ar locale l cs ≡ some c
      → Perm (c ∷ splice num ar locale l cs) cs
  unfolding find_label splice
  splice-perm l [] c e = cc e
  splice-perm l (x ∷ xs) c e = elim (Bool-cases (same (label_of num ar locale x) l)) [
    | inl k ↦ let q : x ≡ c = cc (rw k at e) in rw (k, q) (Perm.refl (c ∷ xs))
    | inr k ↦ rw k (
        Perm.trans (Perm.swap x c (splice num ar locale l xs))
          (Perm.cons x (splice-perm l xs c (rw k at e))))
  ]

  pub All-splice {κ} :
      (P : RankedCandidate num ar locale → Type κ) (l : Text)
      (cs : List (RankedCandidate num ar locale))
      → All P cs
      → All P (splice num ar locale l cs)
  unfolding splice
  All-splice P l [] h = tt
  All-splice P l (c ∷ cs) h = elim (Bool-cases (same (label_of num ar locale c) l)) [
    | inl k ↦ rw k h.1
    | inr k ↦ rw k (h.0, All-splice P l cs h.1)
  ]

  pub splice-IsSorted :
      (l : Text) (cs : List (RankedCandidate num ar locale))
      → IsSorted (rank_order num ar locale) cs
      → IsSorted (rank_order num ar locale) (splice num ar locale l cs)
  unfolding splice
  splice-IsSorted l [] h = tt
  splice-IsSorted l (c ∷ cs) h = elim (Bool-cases (same (label_of num ar locale c) l)) [
    | inl k ↦ rw k h.1
    | inr k ↦ rw k (All-splice _ l cs h.0, splice-IsSorted l cs h.1)
  ]
