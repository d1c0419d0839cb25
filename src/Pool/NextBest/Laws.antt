-- ===== src/Pool/NextBest/Laws.antt =====
-- What `pickNextBestLocalCliPoolLabel` chooses.
use aimgr.Prelude.{
  ◌≡◌, refl, sym, ap, subst, ◌⊎◌, All-of_sort_by, inl, inr, Bool, true, false, not, ◌||◌, Option,
  none, some, List, [], ◌∷◌, Text, LowerCase, ok, filter, any, head?, Preorder, sort_by, All,
  All-imp, All-filter, All-sort_by, All-and, head-All, filter_passes, sort_by-IsSorted,
  head-IsLeast, nil_of_head, Option-cases, Bool-cases, arith,
}
use mathlib.Core.Option.{none-ne-some}
use mathlib.Core.List.{Mem, mem-cons_self, mem-cons_of_mem}
use aimgr.Pool.Usage.{Numbers, clamp_percent}
use aimgr.Pool.Select.{normalize_avoided}
use aimgr.Pool.NextBest.{
  Ranked, NextBest, keep_others, has_reserve, reaches_floor, ranked_order, or_if_empty,
  selection_pool, next_of, pick_next_best_local_cli_pool_label,
}

All-Mem : {A : Type 0} (xs : List A) → All (λ x. Mem x xs) xs
All-Mem [] = tt
All-Mem (x ∷ xs) = (mem-cons_self, All-imp _ _ xs (λ y m. mem-cons_of_mem x m) (All-Mem xs))

or_if_empty_cases :
    {num : Numbers} {locale : Preorder Text} (gs cs : List (Ranked num locale))
    → (or_if_empty num locale gs cs ≡ gs) ⊎ ((or_if_empty num locale gs cs ≡ cs) × (gs ≡ []))
or_if_empty_cases [] cs = inr (refl, refl)
or_if_empty_cases (g ∷ gs) cs = inl refl

or_if_empty_none :
    {num : Numbers} {locale : Preorder Text} (gs cs : List (Ranked num locale))
    → All (λ c. ⊥) (or_if_empty num locale gs cs)
    → All (λ c. ⊥) cs
or_if_empty_none [] cs h = h
or_if_empty_none (g ∷ gs) cs h = absurd h.0

module _ {A : Type 0} (p : A → Bool) where
  any-of_filter : (cs : List A) → filter p cs ≡ [] → any p cs ≡ false
  any-of_filter [] e = refl
  any-of_filter (c ∷ cs) e = elim (Bool-cases (p c)) [
    | inl k ↦ let e' = rw k at e in absurd (none-ne-some _ (sym (ap head? e')))
    | inr k ↦ rw k (any-of_filter cs (rw k at e))
  ]

  All-of_any : (cs : List A) → any p cs ≡ false → All (λ c. p c ≡ false) cs
  All-of_any [] e = tt
  All-of_any (c ∷ cs) e = (ground arith, All-of_any cs (ground arith))

  none_pass : (cs : List A) → All (λ c. ⊥) (filter p cs) → All (λ c. p c ≡ false) cs
  none_pass [] h = tt
  none_pass (c ∷ cs) h = elim (Bool-cases (p c)) [
    | inl e ↦ let k = rw e at h in absurd k.0
    | inr e ↦ (e, none_pass cs (rw e at h))
  ]

module _ (num : Numbers) (locale : Preorder Text) where
  open num use {Number}

  -- The chosen candidate is one of the candidates and has a reserve, reaches the floor where one
  -- with a reserve does, and none that could have been chosen precedes it.
  pub record IsNext (floor : Number) (cs : List (Ranked num locale)) (b : Ranked num locale)
      : Type 0 where
    pub given : Mem b cs
    pub reserve : has_reserve num locale b ≡ true
    pub floor_kept :
        (reaches_floor num locale floor b
          || not (any (reaches_floor num locale floor) (filter (has_reserve num locale) cs)))
        ≡ true
    pub least :
        All
          (λ c. (ranked_order num locale).le b c ≡ true)
          (filter
            (λ c. not (reaches_floor num locale floor b) || reaches_floor num locale floor c)
            (filter (has_reserve num locale) cs))

  abbrev pub IsChoice : Number → List (Ranked num locale) → Option (NextBest num locale) → Type 0
  IsChoice floor cs none = All (λ c. has_reserve num locale c ≡ false) cs
  IsChoice floor cs (some s) = IsNext floor cs s.candidate

  module _ (floor : Number) (cs : List (Ranked num locale)) where
    abbrev with_reserve : List (Ranked num locale)
    with_reserve = filter (has_reserve num locale) cs

    abbrev gated : List (Ranked num locale)
    gated = filter (reaches_floor num locale floor) with_reserve

    abbrev pool : List (Ranked num locale)
    pool = selection_pool num locale floor with_reserve

    -- The pool is either those that reach the floor, or all where none does.
    pool_cases : (pool ≡ gated) ⊎ ((pool ≡ with_reserve) × (gated ≡ []))
    unfolding selection_pool
    pool_cases = or_if_empty_cases gated with_reserve

    members : All (λ c. Mem c cs × (has_reserve num locale c ≡ true)) with_reserve
    members = All-and _ _ with_reserve (All-filter _ _ cs (All-Mem cs)) (filter_passes _ cs)

    gated-IsNext :
        (b : Ranked num locale)
        → head? (sort_by (ranked_order num locale) gated) ≡ some b
        → IsNext floor cs b
    gated-IsNext b e =
        let sorted = sort_by (ranked_order num locale) gated in
        let (m, r) =
          head-All _ sorted b
            (All-sort_by (ranked_order num locale) _ gated (All-filter _ _ with_reserve members))
            e in
        let reached =
          head-All _ sorted b
            (All-sort_by (ranked_order num locale) _ gated
              (filter_passes (reaches_floor num locale floor) with_reserve))
            e in
        let least = All-of_sort_by (ranked_order num locale) _ gated (
          head-IsLeast (ranked_order num locale) sorted b
            (sort_by-IsSorted (ranked_order num locale) gated) e) in
        record { given = m; reserve = r; floor_kept = rw reached refl; least = rw reached least }

    open-IsNext :
        (b : Ranked num locale)
        → gated ≡ []
        → head? (sort_by (ranked_order num locale) with_reserve) ≡ some b
        → IsNext floor cs b
    open-IsNext b n e =
        let sorted = sort_by (ranked_order num locale) with_reserve in
        let below = any-of_filter (reaches_floor num locale floor) with_reserve n in
        let (m, r) =
          head-All _ sorted b (All-sort_by (ranked_order num locale) _ with_reserve members) e in
        let unreached =
          head-All _ sorted b
            (All-sort_by (ranked_order num locale) _ with_reserve
              (All-of_any (reaches_floor num locale floor) with_reserve below))
            e in
        let least = All-of_sort_by (ranked_order num locale) _ with_reserve (
          head-IsLeast (ranked_order num locale) sorted b
            (sort_by-IsSorted (ranked_order num locale) with_reserve) e) in
        record {
          given = m;
          reserve = r;
          floor_kept = rw (unreached, below) refl;
          least = rw unreached (All-filter _ (λ c. true) with_reserve least);
        }

    nothing_left :
        head? (sort_by (ranked_order num locale) pool) ≡ none
        → All (λ c. has_reserve num locale c ≡ false) cs
    unfolding selection_pool
    nothing_left n =
        let none_sorted : All (λ c. ⊥) (sort_by (ranked_order num locale) pool) =
          rw (nil_of_head _ n) tt in
        none_pass (has_reserve num locale) cs (
          or_if_empty_none gated with_reserve
            (All-of_sort_by (ranked_order num locale) _ pool none_sorted))

    next-IsChoice :
        IsChoice floor cs (next_of num locale (head? (sort_by (ranked_order num locale) pool)))
    unfolding next_of
    next-IsChoice = elim (Option-cases (head? (sort_by (ranked_order num locale) pool))) [
      | inl n ↦ rw n (nothing_left n)
      | inr w ↦ rw w.1 (elim pool_cases [
        | inl p ↦
            gated-IsNext w.0
              (subst (λ xs. head? (sort_by (ranked_order num locale) xs) ≡ some w.0) p w.1)
        | inr p ↦
            open-IsNext w.0 p.1
              (subst (λ xs. head? (sort_by (ranked_order num locale) xs) ≡ some w.0) p.0 w.1)
      ])
    ]

  -- When no label is refused, the choice among the candidates other than the avoided one is as
  -- follows. Nothing is chosen where none of them has more than five percent left. Otherwise the
  -- chosen candidate is one of them with more than five percent left; it reaches the floor where any
  -- of these does, and no other candidate that could be chosen then is used less.
  pub pick_next_best-IsChoice :
      (low : LowerCase) (ranked candidates : List (Ranked num locale)) (minimum : Option Number)
      (avoid_label avoided : Option Text)
      → normalize_avoided low avoid_label ≡ ok avoided
      → keep_others num locale low avoided ranked ≡ ok candidates
      → (a : Option (NextBest num locale)) × (pick_next_best_local_cli_pool_label num locale low
            ranked minimum avoid_label
          ≡ ok a)
        × IsChoice (clamp_percent num minimum) candidates a
  unfolding pick_next_best_local_cli_pool_label
  pick_next_best-IsChoice low ranked candidates minimum avoid_label avoided h k =
      (_, rw (h, k) refl, next-IsChoice (clamp_percent num minimum) candidates)
