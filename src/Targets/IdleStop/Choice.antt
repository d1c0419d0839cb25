-- ===== src/Targets/IdleStop/Choice.antt =====
-- Which account `chooseClaudeAccountToFree` frees.
use aimgr.Prelude.{
  ◌≡◌, refl, sym, ap, ◌∙◌, inl, inr, Bool, true, false, not, Option, none, some, Bool-cases, List,
  [], ◌∷◌, map, filter, filter-map, all, head?, head-All, head-IsLeast, nil_of_head, Text, same,
  includes, All, All-of_map, All-imp, All-of_all, All-filter, All-and, All-map, All-sort_by,
  All-of_sort_by, sort_by-IsSorted, filter_passes, Preorder, sort_by, arith,
}
use mathlib.Core.List.{map-map}
use aimgr.Pool.Cycle.Laws.{includes-distinct, includes-same, All-includes, All-of_includes}
use aimgr.Targets.IdleStop.{
  Session, Target, is_busy, target_of, target_order, choose_claude_account_to_free,
}
use aimgr.Targets.IdleStop.Groups.{sessions_of, eligible_of, labels_of, group_sessions_lem}

-- Among the eligible sessions, those of an eligible label are all there are.
sessions_of-eligible :
    (eligible : List Text) (l : Text) (sessions : List Session)
    → includes l eligible ≡ true
    → sessions_of l (eligible_of eligible sessions) ≡ sessions_of l sessions
sessions_of-eligible eligible l [] h = refl
sessions_of-eligible eligible l (s ∷ ss) h = elim (Bool-cases (includes s.label eligible)) [
  | inl e ↦ elim (Bool-cases (same l s.label)) [
    | inl k ↦ rw (e, k) (ap (◌∷◌ s) (sessions_of-eligible eligible l ss h))
    | inr k ↦ rw (e, k) (sessions_of-eligible eligible l ss h)
  ]
  | inr e ↦
      let k : same l s.label ≡ false = ground (arith, includes-same l s.label eligible) in
      rw (e, k) (sessions_of-eligible eligible l ss h)
]

-- The label of each session is among the labels of the sessions.
own_labels :
    (ss : List Session) → All (λ s. includes s.label (map (λ (s : Session). s.label) ss) ≡ true) ss
own_labels ss =
    All-of_map (λ (s : Session). s.label) _ ss
      (All-of_includes _ (map (λ (s : Session). s.label) ss) (λ t h. h))

filter_none :
    (p : Text → Bool) (xs : List Text) → All (λ x. ⊥) (filter p xs) → All (λ x. p x ≡ false) xs
filter_none p [] h = tt
filter_none p (x ∷ xs) h = elim (Bool-cases (p x)) [
  | inl e ↦ let k : ⊥ × All (λ x. ⊥) (filter p xs) = rw e at h in absurd (k.0)
  | inr e ↦ (e, filter_none p xs (rw e at h))
]

module _ (locale : Preorder Text) (sessions : List Session) (eligible : List Text) where
  -- An account with all its sessions.
  abbrev pub account_of : Text → Target
  account_of label = target_of (label, sessions_of label (eligible_of eligible sessions))

  abbrev pub is_idle : Text → Bool
  is_idle label = all (λ s. not (is_busy s)) (sessions_of label (eligible_of eligible sessions))

  -- The accounts that the choice is among, by their labels.
  abbrev pub idle_accounts : List Target
  idle_accounts = map account_of (filter is_idle (labels_of eligible sessions))

  choose_lem :
      choose_claude_account_to_free locale sessions eligible
      ≡ head? (sort_by (target_order locale) idle_accounts)
  unfolding choose_claude_account_to_free
  choose_lem =
      rw (choose_claude_account_to_free, group_sessions_lem eligible sessions)
        (ap (λ ts. head? (sort_by (target_order locale) ts))
          (ap (map target_of) (
              filter-map (λ l. (l, sessions_of l (eligible_of eligible sessions)))
                (λ g. all (λ s. not (is_busy s)) g.1) (labels_of eligible sessions))
            ∙ map-map target_of (λ l. (l, sessions_of l (eligible_of eligible sessions)))
                (filter is_idle (labels_of eligible sessions))))

  -- The account of an eligible label, with all the sessions that hold it, none of them busy.
  pub record IsIdle (t : Target) : Type 0 where
    pub is_account : t ≡ account_of t.label
    pub is_eligible : includes t.label eligible ≡ true
    pub is_held : includes t.label (map (λ (s : Session). s.label) sessions) ≡ true
    pub all_sessions : t.sessions ≡ sessions_of t.label sessions
    pub none_busy : All (λ s. is_busy s ≡ false) t.sessions

  -- Nothing is chosen only where every eligible account that is held has a busy session. Otherwise
  -- the account is idle, and no idle one comes before it.
  abbrev pub IsFreed : Option Target → Type 0
  IsFreed none = All (λ s. is_idle s.label ≡ false) (eligible_of eligible sessions)
  IsFreed (some t) = IsIdle t × All (λ u. (target_order locale).le t u ≡ true) idle_accounts

  abbrev IsHeld : Text → Type 0
  IsHeld l =
      (includes l eligible ≡ true) × (includes l (map (λ (s : Session). s.label) sessions) ≡ true)

  labels_eligible : All IsHeld (labels_of eligible sessions)
  labels_eligible = All-of_includes _ (labels_of eligible sessions) (λ l h.
      All-includes IsHeld (map (λ (s : Session). s.label) (eligible_of eligible sessions)) l
        (All-map (λ (s : Session). s.label) IsHeld (eligible_of eligible sessions)
          (All-and _ _ (eligible_of eligible sessions)
            (filter_passes (λ s. includes s.label eligible) sessions)
            (All-filter _ (λ s. includes s.label eligible) sessions (own_labels sessions))))
        (sym (includes-distinct l _) ∙ h))

  idle_accounts-IsIdle : All IsIdle idle_accounts
  idle_accounts-IsIdle = All-map account_of IsIdle (filter is_idle (labels_of eligible sessions)) (
      All-imp _ _ (filter is_idle (labels_of eligible sessions))
        (λ l h. record {
          is_account = refl;
          is_eligible = h.1.0;
          is_held = h.1.1;
          all_sessions = sessions_of-eligible eligible l sessions h.1.0;
          none_busy = All-imp _ _ _ (λ s k. ground (arith, k)) (All-of_all _ _ h.0);
        })
        (All-and _ _ (filter is_idle (labels_of eligible sessions))
          (filter_passes is_idle (labels_of eligible sessions))
          (All-filter _ is_idle (labels_of eligible sessions) labels_eligible)))

  no_idle :
      head? (sort_by (target_order locale) idle_accounts) ≡ none
      → All (λ s. is_idle s.label ≡ false) (eligible_of eligible sessions)
  no_idle e =
      let es = eligible_of eligible sessions in
      let none_left : All (λ t. ⊥) idle_accounts =
        All-of_sort_by (target_order locale) _ idle_accounts (rw (nil_of_head _ e) tt) in
      let busy =
        filter_none is_idle (labels_of eligible sessions) (All-of_map account_of _ _ none_left) in
      All-imp _ _ es
        (λ s m.
          All-includes _ (labels_of eligible sessions) s.label busy
            (includes-distinct s.label _ ∙ m))
        (own_labels es)

  freed :
      (found : Option Target)
      → head? (sort_by (target_order locale) idle_accounts) ≡ found
      → IsFreed found
  freed none e = no_idle e
  freed (some t) e = (
    head-All IsIdle _ t
        (All-sort_by (target_order locale) IsIdle idle_accounts idle_accounts-IsIdle) e,
    All-of_sort_by (target_order locale) _ idle_accounts (
        head-IsLeast (target_order locale) _ t
          (sort_by-IsSorted (target_order locale) idle_accounts) e),
  )

  -- An account is chosen wherever an eligible account that is held has no busy session. The choice is
  -- such an account with all of its sessions, and none of these accounts has been inactive for
  -- longer, the names deciding between those that are equal.
  pub choose_account-IsFreed : IsFreed (choose_claude_account_to_free locale sessions eligible)
  choose_account-IsFreed = rw choose_lem (freed _ refl)
