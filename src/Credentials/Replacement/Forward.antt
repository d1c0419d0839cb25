-- ===== src/Credentials/Replacement/Forward.antt =====
-- A plan that is not refused never takes a bundle back: the candidate is a login of the same account
-- that does not expire earlier (src/credentials/claude-native.js).
use aimgr.Prelude.{
  ℕ, ◌≤◌, ◌≡◌, ◌≢◌, ◌⊎◌, refl, sym, ap, ◌∙◌, inl, inr, true, Option, none, some, LowerCase,
  Bool-cases, arith,
}
use aimgr.Credentials.Bundle.{
  Dates, Source, Bundle, bundle_source, get_claude_native_bundle, build_claude_native_bundle,
}
use aimgr.Credentials.Derive.{has_complete_claude_native_bundle}
use aimgr.Credentials.Replacement.{
  StrictIdentity, TokenSet, Refusal, candidate_incomplete, identity_mismatch, PlanOptions,
  Replacement, blocked, noop, create, update, same_number, same_tokens, token_expiry,
  compare_expiry, get_strict_claude_native_bundle_identity,
  do_claude_native_bundle_identities_match, native_token_set, has_same_native_token_set,
  bundle_expiry,
}
use aimgr.Credentials.Replacement.Decide.{
  expects_other, compare_bundles, plan_fresh, plan_matched, plan_current, build_current,
  plan_candidate, plan_built, plan_claude_native_bundle_replacement,
}
use aimgr.Credentials.Replacement.Laws.{match_iff}
use aimgr.Credentials.Replacement.Plan.{matched_update}

-- `replacement.ok`, for a plan with a current bundle.
abbrev pub IsTaken : Replacement → Type 0
IsTaken r = (r ≡ noop) ⊎ (r ≡ update)

same_number_eq : (a b : Option ℕ) → same_number a b ≡ true → (j : ℕ) × (a ≡ some j) × (b ≡ some j)
unfolding same_number
same_number_eq none b h = cc
same_number_eq (some j) none h = cc
same_number_eq (some j) (some k) h = let e : k ≡ j = ground arith in (j, refl, ap some e)

same_tokens_expiry :
    (a b : Option TokenSet)
    → same_tokens a b ≡ true
    → (j : ℕ) × (token_expiry a ≡ some j) × (token_expiry b ≡ some j)
unfolding same_tokens token_expiry
same_tokens_expiry none b h = cc
same_tokens_expiry (some s) none h = cc
same_tokens_expiry (some s) (some t) h =
    same_number_eq (s.expires_at_ms) (t.expires_at_ms) (ground arith)

compare-ne-noop : (c n : Option ℕ) → compare_expiry c n ≢ noop
unfolding compare_expiry
compare-ne-noop none n h = cc
compare-ne-noop (some j) none h = cc
compare-ne-noop (some j) (some k) h = ground arith

compare-ne-create : (c n : Option ℕ) → compare_expiry c n ≢ create
unfolding compare_expiry
compare-ne-create none n h = cc
compare-ne-create (some j) none h = cc
compare-ne-create (some j) (some k) h = ground arith

module _ (low : LowerCase) (dates : Dates) where
  -- The identity and the expiry time of a bundle.
  pub record IsLogin (b : Bundle) (i : StrictIdentity) (ms : ℕ) : Type 0 where
    pub identity : get_strict_claude_native_bundle_identity low dates (bundle_source b) ≡ some i
    pub expiry : bundle_expiry low dates b ≡ some ms

  abbrev pub IsForward : Bundle → Bundle → Type 0
  IsForward old new = (i : StrictIdentity) × (j k : ℕ) × IsLogin old i j × IsLogin new i k × (j ≤ k)

  fresh-ne-noop :
      (o : PlanOptions) (c : Option Bundle) (b : Bundle) → plan_fresh low dates o c b ≢ noop
  unfolding plan_fresh compare_bundles
  fresh-ne-noop o none b h = ground arith
  fresh-ne-noop o (some a) b h =
      let n = compare-ne-noop (bundle_expiry low dates a) (bundle_expiry low dates b) in
      ground arith

  matched_noop :
      (o : PlanOptions) (old new : Bundle)
      → plan_matched low dates o old new ≡ noop
      → (do_claude_native_bundle_identities_match low dates (bundle_source old) (bundle_source new)
          ≡ true)
        × (has_same_native_token_set low dates (bundle_source old) (bundle_source new) ≡ true)
  unfolding plan_matched
  matched_noop o old new h = let f = fresh-ne-noop o (some old) new in (ground arith, ground arith)

  noop-IsForward :
      (o : PlanOptions) (old new : Bundle)
      → plan_matched low dates o old new ≡ noop
      → IsForward old new
  unfolding has_same_native_token_set bundle_expiry
  noop-IsForward o old new h =
      let (m, t) = matched_noop o old new h in
      let (i, p, q) = (match_iff low dates (bundle_source old) (bundle_source new)).0 m in
      let (j, x, y) =
        same_tokens_expiry (native_token_set low dates (bundle_source old))
          (native_token_set low dates (bundle_source new)) t in
      (
        i,
        j,
        j,
        record { identity = p; expiry = x },
        record { identity = q; expiry = y },
        omega arith,
      )

  update-IsForward :
      (o : PlanOptions) (old new : Bundle)
      → plan_matched low dates o old new ≡ update
      → IsForward old new
  update-IsForward o old new h =
      let n = (matched_update low dates o old new h).1 in
      let l = n.later in
      (
        n.identity,
        n.old_ms,
        n.new_ms,
        record { identity = n.old_identity; expiry = n.old_expiry },
        record { identity = n.new_identity; expiry = n.new_expiry },
        omega (arith, l),
      )

  fresh-ne-create : (o : PlanOptions) (a b : Bundle) → plan_fresh low dates o (some a) b ≢ create
  unfolding plan_fresh compare_bundles
  fresh-ne-create o a b h =
      let n = compare-ne-create (bundle_expiry low dates a) (bundle_expiry low dates b) in
      ground arith

  matched-ne-create : (o : PlanOptions) (a b : Bundle) → plan_matched low dates o a b ≢ create
  unfolding plan_matched
  matched-ne-create o a b h = let n = fresh-ne-create o a b in ground arith

  abbrev pub IsRefused : Replacement → Type 0
  IsRefused r = (reason : Refusal) × (r ≡ blocked reason)

  matched_cases :
      (o : PlanOptions) (old new : Bundle) (r : Replacement)
      → plan_matched low dates o old new ≡ r
      → IsRefused r ⊎ IsForward old new
  matched_cases o old new (blocked reason) h = inl (reason, refl)
  matched_cases o old new noop h = inr (noop-IsForward o old new h)
  matched_cases o old new create h = absurd (matched-ne-create o old new h)
  matched_cases o old new update h = inr (update-IsForward o old new h)

  candidate_cases :
      (o : PlanOptions) (current : Option Source) (new : Bundle) (q : Option StrictIdentity)
      → IsRefused (plan_candidate low dates o current new q)
        ⊎ (plan_candidate low dates o current new q
            ≡ plan_current low dates o current (build_current low dates current) new)
  unfolding plan_candidate
  candidate_cases o current new none = inl (candidate_incomplete, refl)
  candidate_cases o current new (some i) =
      elim (Bool-cases (has_complete_claude_native_bundle low dates (bundle_source new))) [
        | inr e ↦ rw e (inl (candidate_incomplete, refl))
        | inl e ↦ elim (Bool-cases (expects_other low dates o i)) [
          | inl x ↦ rw (e, x) (inl (identity_mismatch, refl))
          | inr x ↦ rw (e, x) (inr refl)
        ]
      ]

  -- With a current bundle, a plan is a refusal or goes forward.
  pub plan_cases :
      (o : PlanOptions) (current : Option Source) (candidate : Source) (old new : Bundle)
      → build_current low dates current ≡ some old
      → build_claude_native_bundle dates (get_claude_native_bundle candidate) ≡ some new
      → IsRefused (plan_claude_native_bundle_replacement low dates o current candidate)
        ⊎ IsForward old new
  unfolding plan_claude_native_bundle_replacement plan_built plan_current
  plan_cases o current candidate old new p q =
      let i = get_strict_claude_native_bundle_identity low dates (bundle_source new) in
      elim (candidate_cases o current new i) [
        | inl x ↦ rw q (inl x)
        | inr e ↦ rw (q, e, p) (matched_cases o old new (plan_matched low dates o old new) refl)
      ]

  -- With a current bundle there is nothing to create.
  pub plan-ne-create :
      (o : PlanOptions) (current : Option Source) (candidate : Source) (old new : Bundle)
      → build_current low dates current ≡ some old
      → build_claude_native_bundle dates (get_claude_native_bundle candidate) ≡ some new
      → plan_claude_native_bundle_replacement low dates o current candidate ≢ create
  unfolding plan_claude_native_bundle_replacement plan_built plan_current
  plan-ne-create o current candidate old new p q h =
      let i = get_strict_claude_native_bundle_identity low dates (bundle_source new) in
      let h2 : plan_candidate low dates o current new i ≡ create = rw q at h in
      elim (candidate_cases o current new i) [
        | inl (reason, e) ↦ cc (e, h2)
        | inr e ↦ matched-ne-create o old new (rw p at (sym e ∙ h2))
      ]
