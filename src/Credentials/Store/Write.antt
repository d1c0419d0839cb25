-- ===== src/Credentials/Store/Write.antt =====
-- `validateAnthropicNativeBundleForLabel` and `persistAnthropicNativeBundleForLabel`
-- (src/credentials/claude-native.js).
use aimgr.Prelude.{
  ℕ, Bool, not, ◌&&◌, Option, none, some, Text, same, LowerCase, Result, ok, err, ◌>>=◌, ◌>>◌,
  map_err, ensure, lookup_text,
}
use aimgr.Core.Labels.{normalize_label}
use aimgr.Credentials.Bundle.{
  Dates, Parts, Source, Bundle, trimmed, truthy, whole, bundle_source, summary_of_bundle,
  build_claude_native_bundle,
}
use aimgr.Credentials.Derive.{
  View, has_complete_claude_native_bundle, derive_anthropic_credential_from_claude_bundle,
  derive_anthropic_credential_view,
}
use aimgr.Credentials.Replacement.{Replacement, get_strict_claude_native_bundle_identity}
use aimgr.Credentials.Store.{
  Account, Store, StoreError, bad_label, bad_bundle, unexpected_email, email_text,
  check_replacement, no_duplicate, has_identity, view_source, configured, store_credential,
  find_anthropic_label_by_native_claude_bundle, check_provider, plan_for_label, incomplete,
}

module _ (low : LowerCase) (dates : Dates) where
  unfoldable pub check_complete : Bundle → Result StoreError (Unit {0})
  unfolding has_identity
  check_complete b =
      ensure incomplete (has_complete_claude_native_bundle low dates (bundle_source b))
      >> has_identity (get_strict_claude_native_bundle_identity low dates (bundle_source b))

  unfoldable pub check_account : Option Account → Bundle → Result StoreError (Unit {0})
  unfolding check_provider trimmed email_text
  check_account account b =
      let expected = low.lower (trimmed (email_text account)) in
      check_provider low dates account
      >> ensure unexpected_email (
          not
            (truthy expected && not (same (summary_of_bundle low dates b).email_address expected)))

  unfoldable pub check_duplicate : Store → Text → Bundle → Result StoreError (Unit {0})
  unfolding no_duplicate
  check_duplicate s label b =
      map_err bad_label
        (find_anthropic_label_by_native_claude_bundle low dates s (some label) (bundle_source b))
      >>= no_duplicate

  -- The checks of a built bundle, in the code's order.
  unfoldable pub check_bundle : Store → Text → Bundle → Result StoreError (Unit {0})
  unfolding check_complete check_account check_duplicate
  check_bundle s label b =
      check_complete b
      >> check_account (lookup_text label (s.accounts)) b
      >> check_duplicate s label b

  unfoldable pub plan_action : Store → Text → Bool → ℕ → Bundle → Result StoreError Replacement
  unfolding plan_for_label check_replacement
  plan_action s label allow_expired now b =
      check_replacement (plan_for_label low dates s label allow_expired now b)

  unfoldable pub validate_built :
      Store → Text → Bool → ℕ → Option Bundle → Result StoreError (Bundle × Replacement)
  unfolding check_bundle plan_action
  validate_built s label allow_expired now none = err incomplete
  validate_built s label allow_expired now (some b) =
      check_bundle s label b
      >> (plan_action s label allow_expired now b >>= (λ action. ok (b, action)))

  -- `validateAnthropicNativeBundleForLabel`.
  unfoldable pub validate_anthropic_native_bundle_for_label :
      Store → Text → Option Parts → Bool → ℕ → Result StoreError (Bundle × Replacement)
  unfolding validate_built build_claude_native_bundle
  validate_anthropic_native_bundle_for_label s label native allow_expired now =
      map_err bad_label (normalize_label low label)
      >>= (λ l. validate_built s l allow_expired now (build_claude_native_bundle dates native))

  -- `ensureAnthropicLabelConfigured`.
  unfoldable pub ensure_anthropic_label_configured : Store → Text → Result StoreError Store
  unfolding check_provider configured
  ensure_anthropic_label_configured s label =
      check_provider low dates (lookup_text label (s.accounts)) >> ok (configured s label)

  -- `getAnthropicCredential` (src/browser/seed.js).
  unfoldable pub get_anthropic_credential : Store → Text → Option View
  unfolding derive_anthropic_credential_view
  get_anthropic_credential s label = elim (lookup_text label (s.credentials)) [
    | none ↦ none
    | some c ↦ derive_anthropic_credential_view low dates c
  ]

  unfoldable pub derive_for_label : Store → Text → Bundle → Result StoreError Source
  unfolding view_source
  derive_for_label t label b = map_err bad_bundle (
      derive_anthropic_credential_from_claude_bundle low dates
        (view_source (get_anthropic_credential t label)) (some (whole b)))

  -- The steps after the validation.
  unfoldable pub write_bundle :
      Store → Text → Bundle × Replacement → Result StoreError (Store × Replacement)
  unfolding store_credential ensure_anthropic_label_configured derive_for_label
  write_bundle s label (b, action) =
      ensure_anthropic_label_configured s label
      >>= (λ t. derive_for_label t label b >>= (λ c. ok (store_credential t label c, action)))

  -- `persistAnthropicNativeBundleForLabel`.
  unfoldable pub persist_anthropic_native_bundle_for_label :
      Store → Text → Option Parts → Bool → ℕ → Result StoreError (Store × Replacement)
  unfolding write_bundle validate_anthropic_native_bundle_for_label
  persist_anthropic_native_bundle_for_label s label native allow_expired now =
      map_err bad_label (normalize_label low label) >>= (λ l.
        validate_anthropic_native_bundle_for_label s l native allow_expired now
        >>= write_bundle s l)
