-- ===== src/Credentials/Replacement/Plan.antt =====
-- Exactly when a native bundle replaces another one: `planClaudeNativeBundleReplacement`
-- (src/credentials/claude-native.js).
use aimgr.Prelude.{
  ℕ, ◌<◌, ◌≡◌, subst, ◌↔◌, refl, inl, inr, true, false, Option, none, some, LowerCase, Bool-cases,
  arith,
}
use aimgr.Credentials.Bundle.{
  Dates, Source, Bundle, bundle_source, get_claude_native_bundle, build_claude_native_bundle,
}
use aimgr.Credentials.Derive.{has_complete_claude_native_bundle}
use aimgr.Credentials.Replacement.{
  StrictIdentity, PlanOptions, update, is_too_old, compare_expiry,
  get_strict_claude_native_bundle_identity, do_claude_native_bundle_identities_match,
  native_token_set, has_same_native_token_set, bundle_expiry,
}
use aimgr.Credentials.Replacement.Decide.{
  compare_bundles, plan_fresh, plan_matched, plan_current, expects_other, build_current,
  plan_candidate, plan_built, plan_claude_native_bundle_replacement,
}
use aimgr.Credentials.Replacement.Laws.{
  match_iff, compare_newer, compare_later, fresh_some, different_expiry,
}

module _ (low : LowerCase) (dates : Dates) where
  -- The second bundle belongs to the same account and organization and expires strictly later.
  pub record IsNewer (old new : Bundle) : Type 0 where
    pub identity : StrictIdentity
    pub old_identity :
        get_strict_claude_native_bundle_identity low dates (bundle_source old) ≡ some identity
    pub new_identity :
        get_strict_claude_native_bundle_identity low dates (bundle_source new) ≡ some identity
    pub old_ms : ℕ
    pub new_ms : ℕ
    pub old_expiry : bundle_expiry low dates old ≡ some old_ms
    pub new_expiry : bundle_expiry low dates new ≡ some new_ms
    pub later : old_ms < new_ms

  abbrev pub IsComplete : Bundle → Type 0
  IsComplete b = has_complete_claude_native_bundle low dates (bundle_source b) ≡ true

  abbrev pub IsFresh : PlanOptions → Bundle → Type 0
  IsFresh o b = is_too_old o (bundle_expiry low dates b) ≡ false

  fresh_update :
      (o : PlanOptions) (old new : Bundle)
      → plan_fresh low dates o (some old) new ≡ update
      → IsFresh o new
        × ((j k : ℕ) × (bundle_expiry low dates old ≡ some j)
            × (bundle_expiry low dates new ≡ some k)
            × (j < k))
  unfolding plan_fresh compare_bundles
  fresh_update o old new h = elim (Bool-cases (is_too_old o (bundle_expiry low dates new))) [
    | inl e ↦ cc (rw e at h)
    | inr e ↦
        let (k, q) = fresh_some o _ e in
        let u : compare_expiry (bundle_expiry low dates old) (bundle_expiry low dates new)
            ≡ update =
          rw e at h in
        let (j, p, l) = compare_newer _ k (rw q at u) in (e, (j, k, p, q, l))
  ]

  pub matched_update :
      (o : PlanOptions) (old new : Bundle)
      → plan_matched low dates o old new ≡ update
      → IsComplete old × IsNewer old new × IsFresh o new
  unfolding plan_matched
  matched_update o old new h =
      let a = bundle_source old in
      let b = bundle_source new in
      elim (Bool-cases (has_complete_claude_native_bundle low dates a)) [
        | inr e ↦ cc (rw e at h)
        | inl e ↦ elim (Bool-cases (do_claude_native_bundle_identities_match low dates a b)) [
          | inr m ↦ cc (rw (e, m) at h)
          | inl m ↦ elim (Bool-cases (has_same_native_token_set low dates a b)) [
            | inl t ↦ cc (rw (e, m, t) at h)
            | inr t ↦
                let (i, p, q) = (match_iff low dates a b).0 m in
                let (f, (j, k, x, y, l)) = fresh_update o old new (rw (e, m, t) at h) in
                (
                  e,
                  record {
                    identity = i;
                    old_identity = p;
                    new_identity = q;
                    old_ms = j;
                    new_ms = k;
                    old_expiry = x;
                    new_expiry = y;
                    later = l;
                  },
                  f,
                )
          ]
        ]
      ]

  later_differs :
      (old new : Bundle)
      → IsNewer old new
      → has_same_native_token_set low dates (bundle_source old) (bundle_source new) ≡ false
  unfolding has_same_native_token_set bundle_expiry
  later_differs old new n =
      different_expiry (native_token_set low dates (bundle_source old))
        (native_token_set low dates (bundle_source new)) (n.old_ms) (n.new_ms) (n.later)
        (n.old_expiry) (n.new_expiry)

  newer_update :
      (o : PlanOptions) (old new : Bundle)
      → IsNewer old new
      → IsFresh o new
      → plan_fresh low dates o (some old) new ≡ update
  unfolding plan_fresh compare_bundles
  newer_update o old new n f =
      rw (f, n.old_expiry, n.new_expiry) (compare_later (n.old_ms) (n.new_ms) (n.later))

  update_of_matched :
      (o : PlanOptions) (old new : Bundle)
      → IsComplete old
      → IsNewer old new
      → IsFresh o new
      → plan_matched low dates o old new ≡ update
  unfolding plan_matched
  update_of_matched o old new c n f =
      let m =
        (match_iff low dates (bundle_source old) (bundle_source new)).1
          (n.identity, n.old_identity, n.new_identity) in
      rw (c, m, later_differs old new n) (newer_update o old new n f)

  -- What an update needs: two complete bundles, the candidate strictly newer, from the expected
  -- account, and fresh where that is asked for.
  pub record IsUpdate (o : PlanOptions) (current : Option Source) (candidate : Source)
      : Type 0 where
    pub old : Bundle
    pub new : Bundle
    pub old_built : build_current low dates current ≡ some old
    pub new_built : build_claude_native_bundle dates (get_claude_native_bundle candidate) ≡ some new
    pub old_complete : IsComplete old
    pub new_complete : IsComplete new
    pub newer : IsNewer old new
    pub fresh : IsFresh o new
    pub expected : expects_other low dates o (newer.identity) ≡ false

  current_update :
      (o : PlanOptions) (source : Option Source) (q : Option Bundle) (new : Bundle)
      → plan_current low dates o source q new ≡ update
      → (old : Bundle) × (q ≡ some old) × (plan_matched low dates o old new ≡ update)
  unfolding plan_current plan_fresh compare_bundles
  current_update o source (some old) new h = (old, refl, h)
  current_update o source none new h = ground arith

  candidate_update :
      (o : PlanOptions) (current : Option Source) (new : Bundle) (q : Option StrictIdentity)
      → plan_candidate low dates o current new q ≡ update
      → (i : StrictIdentity) × (q ≡ some i)
        × IsComplete new
        × (expects_other low dates o i ≡ false)
        × (plan_current low dates o current (build_current low dates current) new ≡ update)
  unfolding plan_candidate
  candidate_update o current new none h = cc
  candidate_update o current new (some i) h = (i, refl, ground arith, ground arith, ground arith)

  built_update :
      (o : PlanOptions) (current : Option Source) (q : Option Bundle)
      → plan_built low dates o current q ≡ update
      → (new : Bundle) × (q ≡ some new)
        × (plan_candidate low dates o current new
              (get_strict_claude_native_bundle_identity low dates (bundle_source new))
            ≡ update)
  unfolding plan_built
  built_update o current none h = cc
  built_update o current (some new) h = (new, refl, h)

  update-IsUpdate :
      (o : PlanOptions) (current : Option Source) (candidate : Source)
      → plan_claude_native_bundle_replacement low dates o current candidate ≡ update
      → IsUpdate o current candidate
  unfolding plan_claude_native_bundle_replacement
  update-IsUpdate o current candidate h =
      let (new, p, c) = built_update o current _ h in
      let (i, q, complete, expected, k) = candidate_update o current new _ c in
      let (old, r, m) = current_update o current _ new k in
      let (old_complete, n, f) = matched_update o old new m in
      let e : i ≡ n.identity = cc (q, n.new_identity) in
      record {
        old = old;
        new = new;
        old_built = r;
        new_built = p;
        old_complete = old_complete;
        new_complete = complete;
        newer = n;
        fresh = f;
        expected = subst (λ x. expects_other low dates o x ≡ false) e expected;
      }

  IsUpdate-update :
      (o : PlanOptions) (current : Option Source) (candidate : Source)
      → IsUpdate o current candidate
      → plan_claude_native_bundle_replacement low dates o current candidate ≡ update
  unfolding plan_claude_native_bundle_replacement plan_built plan_candidate plan_current
  IsUpdate-update o current candidate u =
      rw
        (
          u.new_built,
          u.newer.new_identity,
          u.new_complete,
          u.expected,
          u.old_built,
          update_of_matched o (u.old) (u.new) (u.old_complete) (u.newer) (u.fresh),
        )
        refl

  -- A plan replaces the current bundle exactly where both bundles are complete, have the same account
  -- and organization, the candidate expires strictly later, it is of the expected address, and it is
  -- fresh enough unless expired candidates are allowed.
  pub plan_update_iff :
      (o : PlanOptions) (current : Option Source) (candidate : Source)
      → (plan_claude_native_bundle_replacement low dates o current candidate ≡ update)
        ↔ IsUpdate o current candidate
  plan_update_iff o current candidate =
      (update-IsUpdate o current candidate, IsUpdate-update o current candidate)
