-- ===== src/Credentials/Store/Safe.antt =====
-- What storing native bundles keeps: every login stands on one label, and no login is taken back
-- (src/credentials/claude-native.js).
use aimgr.Prelude.{
  ℕ, ◌≡◌, ◌≢◌, refl, sym, ◌∙◌, subst, inl, inr, Bool, Option, none, some, List, Text, LowerCase, ok,
  All, All-imp, lookup_text,
}
use aimgr.Core.Labels.{normalize_label}
use aimgr.Core.Labels.Laws.{normalize_label_idem}
use aimgr.Credentials.Bundle.{
  Dates, Parts, Source, Bundle, whole, bundle_source, get_claude_native_bundle,
  build_claude_native_bundle, build_claude_credential_summary_from_bundle,
}
use aimgr.Credentials.Derive.{has_complete_claude_native_bundle}
use aimgr.Credentials.Replacement.{
  StrictIdentity, Replacement, get_claude_native_bundle_identity,
  get_strict_claude_native_bundle_identity, do_claude_native_bundle_identities_match,
}
use aimgr.Credentials.Replacement.Decide.{build_current}
use aimgr.Credentials.Replacement.Forward.{IsForward, IsLogin, IsRefused, plan_cases}
use aimgr.Credentials.Store.{
  Store, check_replacement, find_in_entries, plan_for_label,
  find_anthropic_label_by_native_claude_bundle,
}
use aimgr.Credentials.Store.Write.{persist_anthropic_native_bundle_for_label}
use aimgr.Credentials.Store.Laws.{
  All-set_entry, clash, IsApart, IsExclusive, IsKeyed, set_entry-IsExclusive, find-IsApart,
}
use aimgr.Credentials.Store.Persist.{IsValid, IsPersisted, persist-IsPersisted}

module _ (low : LowerCase) (dates : Dates) where
  module _ (a b : Source) (e : get_claude_native_bundle a ≡ get_claude_native_bundle b) where
    complete_congr :
        has_complete_claude_native_bundle low dates a
        ≡ has_complete_claude_native_bundle low dates b
    unfolding has_complete_claude_native_bundle build_claude_credential_summary_from_bundle
    complete_congr =
        rw (has_complete_claude_native_bundle, build_claude_credential_summary_from_bundle, e) refl

    strict_congr :
        get_strict_claude_native_bundle_identity low dates a
        ≡ get_strict_claude_native_bundle_identity low dates b
    unfolding get_strict_claude_native_bundle_identity get_claude_native_bundle_identity
        build_claude_credential_summary_from_bundle
    strict_congr = rw (build_claude_credential_summary_from_bundle, e) refl

    clash_congr : (d : Source) → clash low dates a d ≡ clash low dates b d
    unfolding clash do_claude_native_bundle_identities_match
    clash_congr d = rw (complete_congr, strict_congr) refl

  -- A store whose keys are normalized labels and where no two labels hold the same login.
  pub record IsSafe (s : Store) : Type 0 where
    pub keyed : IsKeyed low dates (s.credentials)
    pub exclusive : IsExclusive low dates (s.credentials)

  IsApart-congr :
      (l : Text) (a b : Source) (es : List (Text × Source))
      → get_claude_native_bundle a ≡ get_claude_native_bundle b
      → All (IsApart low dates (l, a)) es
      → All (IsApart low dates (l, b)) es
  IsApart-congr l a b es g h =
      All-imp _ _ es
        (λ (j, d) x. elim x [ inl p ↦ inl p | inr q ↦ inr (sym (clash_congr a b g d) ∙ q) ]) h

  searched :
      (s : Store) (l : Text) (source : Source)
      → normalize_label low l ≡ ok l
      → find_anthropic_label_by_native_claude_bundle low dates s (some l) source ≡ ok none
      → find_in_entries low dates (some l) source (s.credentials) ≡ ok none
  unfolding find_anthropic_label_by_native_claude_bundle
  searched s l source n h = rw n at h

  whole_source : (b : Bundle) → get_claude_native_bundle (bundle_source b) ≡ some (whole b)
  unfolding get_claude_native_bundle
  whole_source b = refl

  module _ (s : Store) (label : Text) (native : Option Parts) (allow_expired : Bool) (now : ℕ)
      (s' : Store) (action : Replacement) where
    persisted-IsSafe :
        IsPersisted low dates s label native allow_expired now s' action → IsSafe s → IsSafe s'
    persisted-IsSafe p safe =
        let l = p.key in
        let b = p.bundle in
        let n = normalize_label_idem low label l (p.key_of) in
        let apart =
          IsApart-congr l (bundle_source b) (p.credential) (s.credentials)
            (whole_source b ∙ sym (p.holds))
            (find-IsApart low dates l (bundle_source b) (s.credentials) (safe.keyed)
              (searched s l (bundle_source b) n (p.valid.found))) in
        record {
          keyed = subst (IsKeyed low dates) (sym (p.stored)) (
              All-set_entry (λ e. normalize_label low e.0 ≡ ok e.0) l (p.credential) (s.credentials)
                n (safe.keyed));
          exclusive = subst (IsExclusive low dates) (sym (p.stored)) (
              set_entry-IsExclusive low dates l (p.credential) (s.credentials) apart
                (safe.exclusive));
        }

    -- Storing a bundle for a label succeeds only so that no two labels hold the same complete login
    -- afterwards, if none did before, and the labels stay normalized.
    pub persist-IsSafe :
        IsSafe s
        → persist_anthropic_native_bundle_for_label low dates s label native allow_expired now
          ≡ ok (s', action)
        → IsSafe s'
    persist-IsSafe safe h =
        persisted-IsSafe
          (persist-IsPersisted low dates s label native allow_expired now s' action h) safe

  refused_not_checked : (r a : Replacement) → IsRefused low dates r → check_replacement r ≢ ok a
  unfolding check_replacement
  refused_not_checked r a (reason, e) h = cc (rw e at h)

  -- A label whose credential is the login `i` that expires at `ms`.
  pub record IsHeld (s : Store) (l : Text) (i : StrictIdentity) (ms : ℕ) : Type 0 where
    pub credential : Source
    pub entry : lookup_text l (s.credentials) ≡ some credential
    pub bundle : Bundle
    pub built : build_claude_native_bundle dates (get_claude_native_bundle credential) ≡ some bundle
    pub login : IsLogin low dates bundle i ms

  pub valid-IsForward :
      (s : Store) (l : Text) (allow_expired : Bool) (now : ℕ) (b : Bundle) (action : Replacement)
      (i : StrictIdentity) (ms : ℕ)
      → build_claude_native_bundle dates (some (whole b)) ≡ some b
      → IsValid low dates s l allow_expired now b action
      → (k : IsHeld s l i ms) → IsForward low dates (k.bundle) b
  unfolding plan_for_label build_current get_claude_native_bundle
  valid-IsForward s l allow_expired now b action i ms again v k =
      elim (plan_cases low dates _ (lookup_text l (s.credentials)) (bundle_source b) (k.bundle) b
        (rw (k.entry) (k.built)) again) [
          | inl x ↦ absurd (refused_not_checked _ action x (v.planned))
          | inr f ↦ f
        ]
