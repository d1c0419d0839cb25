-- ===== src/Tests/Host.antt =====
-- Bundles that are stored on one host, and taken back from the native client's files.
use aimgr.Prelude.{
  ℕ, ◌≡◌, ◌≤◌, refl, true, false, none, some, [], ◌∷◌, codes, same, includes, is_space, trim,
  trim_start, lower_unit, lookup_text, ok, ascii_lower,
}
use aimgr.Core.Labels.{
  is_digit, is_lower_letter, is_label_start, is_label_unit, is_label_text, check_label,
  normalize_label,
}
use aimgr.Core.Providers.{dash_unit, provider_alias, normalize_provider_id}
use aimgr.Pool.Cycle.{add_text, add_all, distinct}
use aimgr.Credentials.Bundle.{
  Source, Bundle, whole, trimmed, normalize_non_empty_string_array, get_claude_native_bundle,
  both_parts, parts_bundle, positive, kept_stamp, shown_instant, summary_at, number_of, parse_text,
  parse_timestamp_like_to_ms, normalized_scopes, normalized_oauth, normalized_bundle,
  build_claude_native_bundle, summary_of_bundle, build_claude_credential_summary_from_bundle,
}
use aimgr.Credentials.Derive.{
  is_complete_summary, with_bundle, spread, without_summary_keys, has_complete_claude_native_bundle,
  store_bundle, derive_anthropic_credential_from_claude_bundle, view_of,
  derive_anthropic_credential_view,
}
use aimgr.Credentials.Replacement.{
  StrictIdentity, update, non_empty, account_uuid_of, bundle_account, bundle_oauth, summary_text,
  strict_of, same_identity, both_same, same_number, same_tokens, is_too_old, compare_expiry,
  has_keys, token_expiry, get_claude_native_bundle_identity,
  get_strict_claude_native_bundle_identity, do_claude_native_bundle_identities_match,
  native_token_set, has_same_native_token_set, bundle_expiry,
}
use aimgr.Credentials.Replacement.Decide.{
  compare_bundles, plan_fresh, plan_matched, plan_current, expects_other, build_current,
  plan_candidate, plan_built, plan_claude_native_bundle_replacement,
}
use aimgr.Credentials.Store.{
  Store, anthropic_provider, set_entry, provider_text, email_text, check_replacement, no_duplicate,
  has_identity, view_source, configured, store_credential, is_excluded, found_here, find_in_entries,
  find_anthropic_label_by_native_claude_bundle, check_provider, plan_for_label,
}
use aimgr.Credentials.Store.Write.{
  check_complete, check_account, check_duplicate, check_bundle, plan_action, validate_built,
  validate_anthropic_native_bundle_for_label, ensure_anthropic_label_configured,
  get_anthropic_credential, derive_for_label, write_bundle,
  persist_anthropic_native_bundle_for_label,
}
use aimgr.Credentials.Store.Safe.{IsSafe, IsHeld}
use aimgr.Credentials.Store.Reach.{Persists, unchanged, persisted, Persists-IsHeld, Persists-IsSafe}
use aimgr.Tests.Credentials.{no_dates, old, new}

-- The credential of a bundle, and the store that holds it for one label.
abbrev pub stored : Bundle → Source
stored b = record {
  native_claude_bundle = some (whole b);
  own = record { oauth = none; account = none };
  other_keys = [];
}

abbrev pub holding : Bundle → Store
holding b = record {
  accounts =
      (
        codes "boss",
        record { provider = some anthropic_provider; expected_email = none; is_native = true },
      )
      ∷ [];
  credentials = (codes "boss", stored b) ∷ [];
}

new_persisted :
    persist_anthropic_native_bundle_for_label ascii_lower no_dates
      (holding old)
      (codes "Boss")
      (some (whole new))
      false
      150
    ≡ ok (holding new, update)
unfolding same includes is_space trim trim_start lower_unit add_text add_all distinct trimmed
    normalize_non_empty_string_array get_claude_native_bundle both_parts parts_bundle positive
    kept_stamp shown_instant summary_at number_of parse_text parse_timestamp_like_to_ms
    normalized_scopes normalized_oauth normalized_bundle build_claude_native_bundle
    summary_of_bundle build_claude_credential_summary_from_bundle is_complete_summary
    has_complete_claude_native_bundle non_empty account_uuid_of bundle_account bundle_oauth
    summary_text strict_of same_identity both_same same_number same_tokens is_too_old compare_expiry
    has_keys token_expiry get_claude_native_bundle_identity get_strict_claude_native_bundle_identity
    do_claude_native_bundle_identities_match native_token_set has_same_native_token_set
    bundle_expiry compare_bundles plan_fresh plan_matched plan_current expects_other build_current
    plan_candidate plan_built plan_claude_native_bundle_replacement is_digit is_lower_letter
    is_label_start is_label_unit is_label_text check_label normalize_label dash_unit provider_alias
    normalize_provider_id lookup_text with_bundle spread without_summary_keys store_bundle
    derive_anthropic_credential_from_claude_bundle view_of derive_anthropic_credential_view
    set_entry provider_text email_text check_replacement no_duplicate has_identity view_source
    configured store_credential is_excluded found_here find_in_entries
    find_anthropic_label_by_native_claude_bundle check_provider plan_for_label check_complete
    check_account check_duplicate check_bundle plan_action validate_built
    validate_anthropic_native_bundle_for_label ensure_anthropic_label_configured
    get_anthropic_credential derive_for_label write_bundle persist_anthropic_native_bundle_for_label
new_persisted = refl

old_to_new : Persists ascii_lower no_dates (holding old) (holding new)
old_to_new = persisted (codes "Boss") (some (whole new)) false 150 update new_persisted unchanged

abbrev login : StrictIdentity
login = record {
  account_uuid = codes "u";
  email_address = codes "a@b";
  organization_uuid = codes "o";
}

old-IsHeld : IsHeld ascii_lower no_dates (holding old) (codes "boss") login 100
unfolding same includes is_space trim trim_start lower_unit add_text add_all distinct trimmed
    normalize_non_empty_string_array get_claude_native_bundle both_parts parts_bundle positive
    kept_stamp shown_instant summary_at number_of parse_text parse_timestamp_like_to_ms
    normalized_scopes normalized_oauth normalized_bundle build_claude_native_bundle
    summary_of_bundle build_claude_credential_summary_from_bundle is_complete_summary
    has_complete_claude_native_bundle non_empty account_uuid_of bundle_account bundle_oauth
    summary_text strict_of same_identity both_same same_number same_tokens is_too_old compare_expiry
    has_keys token_expiry get_claude_native_bundle_identity get_strict_claude_native_bundle_identity
    do_claude_native_bundle_identities_match native_token_set has_same_native_token_set
    bundle_expiry compare_bundles plan_fresh plan_matched plan_current expects_other build_current
    plan_candidate plan_built plan_claude_native_bundle_replacement lookup_text
old-IsHeld = record {
  credential = stored old;
  entry = refl;
  bundle = old;
  built = refl;
  login = record { identity = refl; expiry = refl };
}

old-IsSafe : IsSafe ascii_lower no_dates (holding old)
unfolding is_space trim trim_start lower_unit same includes is_digit is_lower_letter is_label_start
    is_label_unit is_label_text check_label normalize_label
old-IsSafe = record { keyed = (refl, tt); exclusive = (tt, tt) }

Persists-IsHeld_example :
    (k : ℕ) × (100 ≤ k) × IsHeld ascii_lower no_dates (holding new) (codes "boss") login k
Persists-IsHeld_example =
    Persists-IsHeld ascii_lower no_dates (holding old) (holding new) (codes "boss") login 100
      old_to_new old-IsHeld

Persists-IsSafe_example : IsSafe ascii_lower no_dates (holding new)
Persists-IsSafe_example =
    Persists-IsSafe ascii_lower no_dates (holding old) (holding new) old_to_new old-IsSafe
