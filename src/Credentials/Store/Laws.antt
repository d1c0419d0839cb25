-- ===== src/Credentials/Store/Laws.antt =====
-- Entries by key, and credentials of different labels that are logins of different accounts
-- (src/credentials/claude-native.js).
use aimgr.Prelude.{
  ◌≡◌, refl, sym, ap, subst, ◌⊎◌, inl, inr, Bool, true, false, ◌&&◌, Option, none, some, List, [],
  ◌∷◌, Text, same, same_iff, same_refl, LowerCase, Result, ok, All, Bool-cases, arith, lookup_text,
  if◌then◌else◌,
}
use aimgr.Core.Labels.{LabelError, normalize_label}
use aimgr.Credentials.Bundle.{Dates, Source}
use aimgr.Credentials.Derive.{has_complete_claude_native_bundle}
use aimgr.Credentials.Replacement.{do_claude_native_bundle_identities_match}
use aimgr.Credentials.Replacement.Laws.{match_iff}
use aimgr.Credentials.Store.{set_entry, is_excluded, found_here, find_in_entries}

module _ {ℓ} {A : Type ℓ} where
  pub lookup-set_entry :
      (k : Text) (v : A) (es : List (Text × A)) → lookup_text k (set_entry k v es) ≡ some v
  unfolding lookup_text set_entry
  lookup-set_entry k v [] = rw (same_refl k) refl
  lookup-set_entry k v ((j, a) ∷ es) = elim (Bool-cases (same j k)) [
    | inl e ↦ rw (e, e) refl
    | inr e ↦ rw (e, e) (lookup-set_entry k v es)
  ]

  pub lookup-set_other :
      (k l : Text) (v : A) (es : List (Text × A))
      → same k l ≡ false
      → lookup_text l (set_entry k v es) ≡ lookup_text l es
  unfolding lookup_text set_entry
  lookup-set_other k l v [] h = rw h refl
  lookup-set_other k l v ((j, a) ∷ es) h = elim (Bool-cases (same j k)) [
    | inl e ↦ let q : same j l ≡ false = rw ((same_iff j k).0 e) h in rw (e, q) refl
    | inr e ↦ rw e (ap (λ r. if same j l then some a else r) (lookup-set_other k l v es h))
  ]

  pub All-set_entry {κ} :
      (P : Text × A → Type κ) (k : Text) (v : A) (es : List (Text × A))
      → P (k, v)
      → All P es
      → All P (set_entry k v es)
  unfolding set_entry
  All-set_entry P k v [] p h = (p, tt)
  All-set_entry P k v ((j, a) ∷ es) p h = elim (Bool-cases (same j k)) [
    | inl e ↦ rw e (subst (λ i. P (i, v)) (sym ((same_iff j k).0 e)) p, h.1)
    | inr e ↦ rw e (h.0, All-set_entry P k v es p h.1)
  ]

  pub lookup-All {κ} :
      (P : Text × A → Type κ) (k : Text) (v : A) (es : List (Text × A))
      → All P es
      → lookup_text k es ≡ some v
      → P (k, v)
  unfolding lookup_text
  lookup-All P k v [] h e = cc
  lookup-All P k v ((j, a) ∷ es) h e = elim (Bool-cases (same j k)) [
    | inl s ↦
        let x : a ≡ v = cc (rw s at e) in
        subst (λ i. P (i, v)) ((same_iff j k).0 s) (subst (λ b. P (j, b)) x h.0)
    | inr s ↦ lookup-All P k v es h.1 (rw s at e)
  ]

module _ (low : LowerCase) (dates : Dates) where
  -- Two complete credentials of the same account and organization.
  unfoldable pub clash : Source → Source → Bool
  clash c d =
      has_complete_claude_native_bundle low dates c
      && has_complete_claude_native_bundle low dates d
      && do_claude_native_bundle_identities_match low dates c d

  clash_of :
      (c d : Source)
      → (has_complete_claude_native_bundle low dates c
          && do_claude_native_bundle_identities_match low dates c d)
        ≡ false
      → clash c d ≡ false
  unfolding clash
  clash_of c d h = ground arith

  clash-clash : (c d : Source) → clash c d ≡ true → clash d c ≡ true
  unfolding clash
  clash-clash c d h =
      let (i, p, q) = (match_iff low dates c d).0 (ground arith) in
      let m = (match_iff low dates d c).1 (i, q, p) in ground arith

  clash_sym : (c d : Source) → clash c d ≡ false → clash d c ≡ false
  clash_sym c d h = elim (Bool-cases (clash d c)) [ inl e ↦ cc (h, clash-clash d c e) | inr e ↦ e ]

  -- The two entries have one label, or they are not two complete logins of one account.
  abbrev pub IsApart : Text × Source → Text × Source → Type 0
  IsApart (k, c) (j, d) = (k ≡ j) ⊎ (clash c d ≡ false)

  -- No two labels hold the same login.
  abbrev pub IsExclusive : List (Text × Source) → Type 0
  IsExclusive [] = Unit
  IsExclusive (e ∷ es) = All (IsApart e) es × IsExclusive es

  IsApart-sym : (k j : Text) (c d : Source) → IsApart (k, c) (j, d) → IsApart (j, d) (k, c)
  IsApart-sym k j c d (inl p) = inl (sym p)
  IsApart-sym k j c d (inr q) = inr (clash_sym c d q)

  pub set_entry-IsExclusive :
      (k : Text) (v : Source) (es : List (Text × Source))
      → All (IsApart (k, v)) es
      → IsExclusive es
      → IsExclusive (set_entry k v es)
  unfolding set_entry
  set_entry-IsExclusive k v [] h x = (tt, tt)
  set_entry-IsExclusive k v ((j, a) ∷ es) h x = elim (Bool-cases (same j k)) [
    | inl e ↦ rw e (subst (λ i. All (IsApart (i, v)) es) (sym ((same_iff j k).0 e)) h.1, x.1)
    | inr e ↦ rw e (
      All-set_entry (IsApart (j, a)) k v es (IsApart-sym k j v a h.0) x.0,
      set_entry-IsExclusive k v es h.1 x.1,
    )
  ]

  -- The keys are labels in the form that the program compares.
  abbrev pub IsKeyed : List (Text × Source) → Type 0
  IsKeyed = All (λ e. normalize_label low e.0 ≡ ok e.0)

  found_none :
      (b : Source) (j : Text) (d : Source) (rest : Result LabelError (Option Text))
      → normalize_label low j ≡ ok j
      → found_here low dates b j d rest ≡ ok none
      → (clash b d ≡ false) × (rest ≡ ok none)
  unfolding found_here
  found_none b j d rest n h =
      let t = do_claude_native_bundle_identities_match low dates d b in
      elim (Bool-cases (has_complete_claude_native_bundle low dates d && t)) [
        | inl e ↦ cc (rw (e, n) at h)
        | inr e ↦ (clash_sym d b (clash_of d b e), rw e at h)
      ]

  skip_keyed :
      (l j : Text) (skip : Bool)
      → normalize_label low j ≡ ok j
      → same j l ≡ skip
      → is_excluded low dates (some l) j ≡ ok skip
  unfolding is_excluded
  skip_keyed l j skip n e = rw (n, e) refl

  -- A search that finds nothing leaves only entries of the excluded label and other logins.
  pub find-IsApart :
      (l : Text) (b : Source) (es : List (Text × Source))
      → IsKeyed es
      → find_in_entries low dates (some l) b es ≡ ok none
      → All (IsApart (l, b)) es
  unfolding find_in_entries
  find-IsApart l b [] k h = tt
  find-IsApart l b ((j, d) ∷ es) k h = elim (Bool-cases (same j l)) [
    | inl e ↦ (
      inl (sym ((same_iff j l).0 e)),
      find-IsApart l b es k.1 (rw (skip_keyed l j true k.0 e) at h),
    )
    | inr e ↦
        let r = find_in_entries low dates (some l) b es in
        let q = found_none b j d r k.0 (rw (skip_keyed l j false k.0 e) at h) in
        (inr q.0, find-IsApart l b es k.1 q.1)
  ]
