-- ===== src/Credentials/Replacement/Decide.antt =====
-- The decision of `planClaudeNativeBundleReplacement`, check by check
-- (src/credentials/claude-native.js).
use aimgr.Prelude.{Bool, not, ◌&&◌, Option, none, some, same, trim, LowerCase, if◌then◌else◌}
use aimgr.Credentials.Bundle.{
  Dates, Source, Bundle, truthy, bundle_source, get_claude_native_bundle,
  build_claude_native_bundle,
}
use aimgr.Credentials.Derive.{has_complete_claude_native_bundle}
use aimgr.Credentials.Replacement.{
  StrictIdentity, Replacement, blocked, PlanOptions, is_too_old, compare_expiry, has_keys,
  get_strict_claude_native_bundle_identity, do_claude_native_bundle_identities_match,
  has_same_native_token_set, bundle_expiry, candidate_incomplete, identity_mismatch,
  current_incomplete, identity_conflict, candidate_expired, noop, create,
}

module _ (low : LowerCase) (dates : Dates) where
  unfoldable pub compare_bundles : Option Bundle → Bundle → Replacement
  unfolding compare_expiry bundle_expiry
  compare_bundles none candidate = create
  compare_bundles (some current) candidate =
      compare_expiry (bundle_expiry low dates current) (bundle_expiry low dates candidate)

  -- The freshness test and the comparison after it.
  unfoldable pub plan_fresh : PlanOptions → Option Bundle → Bundle → Replacement
  unfolding is_too_old compare_bundles
  plan_fresh o current candidate =
      if is_too_old o (bundle_expiry low dates candidate)
      then blocked candidate_expired
      else compare_bundles current candidate

  -- There is a current bundle.
  unfoldable pub plan_matched : PlanOptions → Bundle → Bundle → Replacement
  unfolding plan_fresh
  plan_matched o current candidate =
      let old = bundle_source current in
      let new = bundle_source candidate in
      if not (has_complete_claude_native_bundle low dates old)
      then blocked current_incomplete
      else if not (do_claude_native_bundle_identities_match low dates old new)
      then blocked identity_conflict
      else if has_same_native_token_set low dates old new
      then noop
      else plan_fresh o (some current) candidate

  unfoldable pub plan_current : PlanOptions → Option Source → Option Bundle → Bundle → Replacement
  unfolding plan_matched plan_fresh has_keys
  plan_current o source none candidate =
      if has_keys source then blocked current_incomplete else plan_fresh o none candidate
  plan_current o source (some current) candidate = plan_matched o current candidate

  unfoldable pub expects_other : PlanOptions → StrictIdentity → Bool
  expects_other o i =
      let email = low.lower (trim (o.expected_email)) in
      truthy email && not (same (i.email_address) email)

  unfoldable pub build_current : Option Source → Option Bundle
  build_current none = none
  build_current (some s) = build_claude_native_bundle dates (get_claude_native_bundle s)

  unfoldable pub plan_candidate :
      PlanOptions → Option Source → Bundle → Option StrictIdentity → Replacement
  unfolding plan_current expects_other build_current
  plan_candidate o current candidate none = blocked candidate_incomplete
  plan_candidate o current candidate (some i) =
      if not (has_complete_claude_native_bundle low dates (bundle_source candidate))
      then blocked candidate_incomplete
      else if expects_other o i
      then blocked identity_mismatch
      else plan_current o current (build_current current) candidate

  unfoldable pub plan_built : PlanOptions → Option Source → Option Bundle → Replacement
  unfolding plan_candidate
  plan_built o current none = blocked candidate_incomplete
  plan_built o current (some b) =
      plan_candidate o current b
        (get_strict_claude_native_bundle_identity low dates (bundle_source b))

  -- `planClaudeNativeBundleReplacement`.
  unfoldable pub plan_claude_native_bundle_replacement :
      PlanOptions → Option Source → Source → Replacement
  unfolding plan_built
  plan_claude_native_bundle_replacement o current candidate =
      plan_built o current (build_claude_native_bundle dates (get_claude_native_bundle candidate))
