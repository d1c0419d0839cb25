-- ===== src/Credentials/Store.antt =====
-- Native bundles in the state of one host: finding a label by its bundle, validating a bundle for a
-- label and storing it (src/credentials/claude-native.js). The credentials and the accounts are kept
-- as the lists of their entries. Of an account the model has the provider, the expected address and
-- whether logins go through the native client.
pub mod Laws
pub mod Write
pub mod Persist
pub mod Safe
pub mod Reach
use aimgr.Prelude.{
  ℕ, Bool, true, false, not, ◌&&◌, Option, none, some, List, [], ◌∷◌, Text, codes, same, trim,
  LowerCase, Result, ok, err, ◌>>=◌, ◌>>◌, map_err, ensure, lookup_text, is_some, is_none,
  if◌then◌else◌,
}
use aimgr.Core.Labels.{LabelError, normalize_label}
use aimgr.Core.Providers.{normalize_provider_id}
use aimgr.Credentials.Bundle.{
  Dates, Parts, Source, Bundle, trimmed, truthy, whole, bundle_source, summary_of_bundle,
  build_claude_native_bundle,
}
use aimgr.Credentials.Derive.{
  BundleError, View, has_complete_claude_native_bundle,
  derive_anthropic_credential_from_claude_bundle, derive_anthropic_credential_view,
}
use aimgr.Credentials.Replacement.{
  StrictIdentity, Refusal, Replacement, blocked, noop, create, update, PlanOptions,
  get_strict_claude_native_bundle_identity, do_claude_native_bundle_identities_match,
}
use aimgr.Credentials.Replacement.Decide.{plan_claude_native_bundle_replacement}

pub record Account : Type 0 where
  pub provider : Option Text
  pub expected_email : Option Text
  pub is_native : Bool

pub record Store : Type 0 where
  pub accounts : List (Text × Account)
  pub credentials : List (Text × Source)

pub data StoreError : Type 0 where
  bad_label : LabelError → StoreError
  bad_bundle : BundleError → StoreError
  incomplete unstable_identity : StoreError
  other_provider : Text → StoreError
  unexpected_email : StoreError
  duplicate : Text → StoreError
  refused : Refusal → StoreError

abbrev pub anthropic_provider : Text
anthropic_provider = codes "anthropic"

-- `object[key] = value`.
unfoldable pub set_entry {ℓ} : {A : Type ℓ} → Text → A → List (Text × A) → List (Text × A)
set_entry k v [] = (k, v) ∷ []
set_entry k v ((j, a) ∷ rest) =
    let later = set_entry k v rest in if same j k then (j, v) ∷ rest else (j, a) ∷ later

unfoldable pub provider_text : Option Account → Text
provider_text none = []
provider_text (some a) = trimmed (a.provider)

unfoldable pub email_text : Option Account → Option Text
email_text none = none
email_text (some a) = a.expected_email

-- `if (replacement.ok !== true) throw`, and the action.
unfoldable pub check_replacement : Replacement → Result StoreError Replacement
check_replacement (blocked reason) = err (refused reason)
check_replacement noop = ok noop
check_replacement create = ok create
check_replacement update = ok update

unfoldable pub no_duplicate : Option Text → Result StoreError (Unit {0})
no_duplicate none = ok tt
no_duplicate (some l) = err (duplicate l)

unfoldable pub has_identity : Option StrictIdentity → Result StoreError (Unit {0})
has_identity none = err unstable_identity
has_identity (some i) = ok tt

-- The view's object, where there is one.
unfoldable pub view_source : Option View → Option Source
view_source none = none
view_source (some v) = some (v.source)

unfoldable pub configured : Store → Text → Store
unfolding set_entry email_text
configured s label = record {
  accounts =
      set_entry label
        (record {
          provider = some anthropic_provider;
          expected_email = email_text (lookup_text label (s.accounts));
          is_native = true;
        })
        (s.accounts);
  credentials = s.credentials;
}

unfoldable pub store_credential : Store → Text → Source → Store
unfolding set_entry
store_credential s label c = record {
  accounts = s.accounts;
  credentials = set_entry label c (s.credentials);
}

module _ (low : LowerCase) (dates : Dates) where
  -- `excluded && normalizeLabel(label) === excluded`.
  unfoldable pub is_excluded : Option Text → Text → Result LabelError Bool
  is_excluded none label = ok false
  is_excluded (some l) label = normalize_label low label >>= (λ k. ok (same k l))

  -- The loop's body for an entry that is not excluded.
  unfoldable pub found_here :
      Source → Text → Source → Result LabelError (Option Text) → Result LabelError (Option Text)
  found_here bundle label credential rest =
      if has_complete_claude_native_bundle low dates credential
        && do_claude_native_bundle_identities_match low dates credential bundle
      then normalize_label low label >>= (λ k. ok (some k))
      else rest

  unfoldable pub find_in_entries :
      Option Text → Source → List (Text × Source) → Result LabelError (Option Text)
  unfolding is_excluded found_here
  find_in_entries excluded bundle [] = ok none
  find_in_entries excluded bundle ((label, credential) ∷ later) =
      let rest = find_in_entries excluded bundle later in
      is_excluded excluded label
      >>= (λ skip. if skip then rest else found_here bundle label credential rest)

  -- `findAnthropicLabelByNativeClaudeBundle`.
  unfoldable pub find_anthropic_label_by_native_claude_bundle :
      Store → Option Text → Source → Result LabelError (Option Text)
  unfolding find_in_entries
  find_anthropic_label_by_native_claude_bundle s none bundle =
      find_in_entries none bundle (s.credentials)
  find_anthropic_label_by_native_claude_bundle s (some label) bundle =
      normalize_label low label >>= (λ l. find_in_entries (some l) bundle (s.credentials))

  unfoldable pub check_provider : Option Account → Result StoreError (Unit {0})
  unfolding provider_text
  check_provider account =
      let p = normalize_provider_id low (provider_text account) in
      ensure (other_provider p) (not (truthy p && not (same p anthropic_provider)))

  unfoldable pub plan_for_label : Store → Text → Bool → ℕ → Bundle → Replacement
  unfolding trimmed email_text
  plan_for_label s label allow_expired now bundle =
      plan_claude_native_bundle_replacement low dates
        (record {
          expected_email = low.lower (trimmed (email_text (lookup_text label (s.accounts))));
          now_ms = now;
          min_remaining_ms = 0;
          allow_expired_candidate = allow_expired;
        })
        (lookup_text label (s.credentials)) (bundle_source bundle)
