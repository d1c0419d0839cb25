-- ===== src/Tests/Publish.antt =====
-- Rotated tokens that are taken back, and credentials that are published.
use aimgr.Prelude.{
  ◌≡◌, refl, true, false, none, some, [], ◌∷◌, codes, same, includes, is_space, trim, trim_start,
  lower_unit, lookup_text, ok, ascii_lower,
}
use aimgr.Core.Labels.{
  is_digit, is_lower_letter, is_label_start, is_label_unit, is_label_text, check_label,
  normalize_label,
}
use aimgr.Core.Providers.{dash_unit, provider_alias, normalize_provider_id}
use aimgr.Pool.Cycle.{add_text, add_all, distinct}
use aimgr.Credentials.Bundle.{
  Bundle, whole, trimmed, normalize_non_empty_string_array, get_claude_native_bundle, both_parts,
  parts_bundle, positive, kept_stamp, shown_instant, summary_at, number_of, parse_text,
  parse_timestamp_like_to_ms, normalized_scopes, normalized_oauth, normalized_bundle,
  build_claude_native_bundle, summary_of_bundle, build_claude_credential_summary_from_bundle,
}
use aimgr.Credentials.Derive.{
  is_complete_summary, with_bundle, spread, without_summary_keys, has_complete_claude_native_bundle,
  store_bundle, derive_anthropic_credential_from_claude_bundle, view_of,
  derive_anthropic_credential_view, View,
}
use aimgr.Credentials.Replacement.{
  non_empty, account_uuid_of, bundle_account, bundle_oauth, summary_text, strict_of, same_identity,
  both_same, same_number, same_tokens, is_too_old, compare_expiry, has_keys, token_expiry,
  get_claude_native_bundle_identity, get_strict_claude_native_bundle_identity,
  do_claude_native_bundle_identities_match, native_token_set, has_same_native_token_set,
  bundle_expiry,
}
use aimgr.Credentials.Replacement.Decide.{
  compare_bundles, plan_fresh, plan_matched, plan_current, expects_other, build_current,
  plan_candidate, plan_built, plan_claude_native_bundle_replacement,
}
use aimgr.Credentials.Derive.Laws.{view-derive}
use aimgr.Credentials.Store.{
  anthropic_provider, set_entry, provider_text, email_text, check_replacement, no_duplicate,
  has_identity, view_source, configured, store_credential, is_excluded, found_here, find_in_entries,
  find_anthropic_label_by_native_claude_bundle, check_provider, plan_for_label,
}
use aimgr.Credentials.Store.Write.{
  check_complete, check_account, check_duplicate, check_bundle, plan_action, validate_built,
  validate_anthropic_native_bundle_for_label, ensure_anthropic_label_configured,
  get_anthropic_credential, derive_for_label, write_bundle,
  persist_anthropic_native_bundle_for_label,
}
use aimgr.Tests.Credentials.{no_dates, old, new}
use aimgr.Credentials.SyncBack.{
  SyncState, keychain, candidate, access_token, expires_at, same_optional, same_stamp, pushed,
  rotated_fields, refusal_status, is_older_file, import_time, is_import_newer,
}
use aimgr.Credentials.SyncBack.Run.{
  is_active, search_label, match_last_run, optional_label, given_label, matched_label,
  candidate_status, status_of_plan, fields_of, parts_of, reconcile, sync_stored, sync_label,
  sync_live, sync_claude_native_bundle_back_to_label,
}
use aimgr.Credentials.SyncBack.Laws.{IsRotation}
use aimgr.Credentials.SyncBack.Rotation.{sync-IsRotation}
use aimgr.Coordination.Records.Server.{StoredRecord}
use aimgr.Credentials.Publish.{
  Material, Entries, has_credential_material, entry_if, optional_entry, compact_entry,
  compact_identity, same_found, agrees_with, identities_are_compatible, is_nil, check_newer,
  same_expiry_time, same_lineage, check_lineage, view_identity, sakana_entry,
  build_stable_identity_for_credential, lineage_of_view, anthropic_token_lineage,
  resolve_record_identity, assert_credential_publication_freshness,
}
use aimgr.Credentials.Publish.Record.{
  CredentialBody, PublishedAccount, Reauth, without_claude_rotation_provenance,
  build_shared_browser_policy, unblocked, cleared_reauth,
}
use aimgr.Credentials.Publish.Maintained.{
  with_source, find_credential_record, current_identity, current_egress, current_provenance,
  current_material, maintained_body, stored_material, check_publication, plan_stored, plan_material,
  plan_publication,
}
use aimgr.Credentials.Publish.Freshness.{IsLaterLineage, IsSameAccount}
use aimgr.Credentials.Publish.Kept.{plan_publication_egress, plan_publication_fresh}
use aimgr.Tests.Host.{stored, holding}

abbrev state : SyncState
state = record { store = holding old; last_run_label = none; imports = [] }

rotated :
    sync_claude_native_bundle_back_to_label ascii_lower no_dates state none keychain 150
      (some (whole new))
    ≡ ok (candidate (codes "boss") (access_token ∷ expires_at ∷ []) (stored new))
unfolding same includes is_space trim trim_start lower_unit add_text add_all distinct trimmed
    normalize_non_empty_string_array get_claude_native_bundle both_parts parts_bundle positive
    kept_stamp shown_instant summary_at number_of parse_text parse_timestamp_like_to_ms
    normalized_scopes normalized_oauth normalized_bundle build_claude_native_bundle
    summary_of_bundle build_claude_credential_summary_from_bundle is_complete_summary
    has_complete_claude_native_bundle non_empty account_uuid_of bundle_account bundle_oauth
    summary_text strict_of same_identity both_same same_number same_tokens is_too_old compare_expiry
    has_keys token_expiry get_claude_native_bundle_identity get_strict_claude_native_bundle_identity
    do_claude_native_bundle_identities_match native_token_set has_same_native_token_set
    bundle_expiry compare_bundles plan_fresh plan_matched plan_current expects_other build_current
    plan_candidate plan_built plan_claude_native_bundle_replacement is_digit is_lower_letter
    is_label_start is_label_unit is_label_text check_label normalize_label dash_unit provider_alias
    normalize_provider_id lookup_text with_bundle spread without_summary_keys store_bundle
    derive_anthropic_credential_from_claude_bundle view_of derive_anthropic_credential_view
    set_entry provider_text email_text check_replacement no_duplicate has_identity view_source
    configured store_credential is_excluded found_here find_in_entries
    find_anthropic_label_by_native_claude_bundle check_provider plan_for_label check_complete
    check_account check_duplicate check_bundle plan_action validate_built
    validate_anthropic_native_bundle_for_label ensure_anthropic_label_configured
    get_anthropic_credential derive_for_label write_bundle persist_anthropic_native_bundle_for_label
    same_optional same_stamp pushed rotated_fields refusal_status is_older_file import_time
    is_import_newer is_active search_label match_last_run optional_label given_label matched_label
    candidate_status status_of_plan fields_of parts_of reconcile sync_stored sync_label sync_live
    sync_claude_native_bundle_back_to_label
rotated = refl

sync-IsRotation_example :
    IsRotation ascii_lower no_dates state (some (whole new)) (codes "boss") (stored new)
sync-IsRotation_example =
    sync-IsRotation ascii_lower no_dates state none keychain 150 (some (whole new)) (codes "boss")
      (access_token ∷ expires_at ∷ []) (stored new) rotated

new_derived :
    derive_anthropic_credential_from_claude_bundle ascii_lower no_dates
      (some (stored old))
      (some (whole new))
    ≡ ok (stored new)
unfolding same includes is_space trim trim_start lower_unit add_text add_all distinct trimmed
    normalize_non_empty_string_array get_claude_native_bundle both_parts parts_bundle positive
    kept_stamp shown_instant summary_at number_of parse_text parse_timestamp_like_to_ms
    normalized_scopes normalized_oauth normalized_bundle build_claude_native_bundle
    summary_of_bundle build_claude_credential_summary_from_bundle is_complete_summary
    has_complete_claude_native_bundle non_empty account_uuid_of bundle_account bundle_oauth
    summary_text strict_of same_identity both_same same_number same_tokens is_too_old compare_expiry
    has_keys token_expiry get_claude_native_bundle_identity get_strict_claude_native_bundle_identity
    do_claude_native_bundle_identities_match native_token_set has_same_native_token_set
    bundle_expiry compare_bundles plan_fresh plan_matched plan_current expects_other build_current
    plan_candidate plan_built plan_claude_native_bundle_replacement is_digit is_lower_letter
    is_label_start is_label_unit is_label_text check_label normalize_label dash_unit provider_alias
    normalize_provider_id lookup_text with_bundle spread without_summary_keys store_bundle
    derive_anthropic_credential_from_claude_bundle view_of derive_anthropic_credential_view
    set_entry provider_text email_text check_replacement no_duplicate has_identity view_source
    configured store_credential is_excluded found_here find_in_entries
    find_anthropic_label_by_native_claude_bundle check_provider plan_for_label check_complete
    check_account check_duplicate check_bundle plan_action validate_built
    validate_anthropic_native_bundle_for_label ensure_anthropic_label_configured
    get_anthropic_credential derive_for_label write_bundle persist_anthropic_native_bundle_for_label
new_derived = refl

view-derive_example :
    (b : Bundle) × (build_claude_native_bundle no_dates (some (whole new)) ≡ some b)
    × ((v : View) × (derive_anthropic_credential_view ascii_lower no_dates (stored new) ≡ some v)
        × (v.summary ≡ summary_of_bundle ascii_lower no_dates b)
        × (get_claude_native_bundle v.source ≡ some (whole b)))
view-derive_example =
    view-derive ascii_lower no_dates (some (stored old)) (some (whole new)) (stored new) new_derived

abbrev material : Bundle → Material
material b = record { source = stored b; account_id = none; api_key = none; email_address = none }

abbrev identity : Entries
identity =
    (codes "accountUuid", some (codes "u"))
    ∷ (codes "emailAddress", some (codes "a@b"))
    ∷ (codes "organizationUuid", some (codes "o"))
    ∷ []

abbrev reauth : Reauth
reauth = record {
  blocked_reason = some (codes "oauth_reauth_required");
  has_maintenance = true;
  other_keys = [];
}

abbrev current : StoredRecord CredentialBody
current = record {
  version = some 3;
  created_at = none;
  updated_at = none;
  updated_by = none;
  body = record {
    provider = anthropic_provider;
    label = codes "boss";
    credential = some (material old);
    identity = identity;
    policy = record {
      egress = some (record { profile_ref = some (codes "home") });
      expect = [];
      reauth = reauth;
      browser = [];
      pool_enabled = true;
    };
    health = none;
    provenance = [];
  };
}

abbrev account : PublishedAccount
account = record { expect = []; reauth = reauth; browser = []; pool_enabled = true }

abbrev next : CredentialBody
next = record {
  provider = anthropic_provider;
  label = codes "boss";
  credential = some (material new);
  identity = identity;
  policy = record {
    egress = some (record { profile_ref = some (codes "home") });
    expect = [];
    reauth = record { blocked_reason = none; has_maintenance = false; other_keys = [] };
    browser = [];
    pool_enabled = true;
  };
  health = some (record { status = codes "ready"; reason = none });
  provenance = (codes "lastSourceType", codes "login-maintenance") ∷ [];
}

next_planned :
    plan_publication ascii_lower no_dates
      (λ key. key)
      (current ∷ [])
      (codes "Anthropic")
      (codes "Boss")
      account
      (some (material new))
    ≡ ok next
unfolding same includes is_space trim trim_start lower_unit add_text add_all distinct trimmed
    normalize_non_empty_string_array get_claude_native_bundle both_parts parts_bundle positive
    kept_stamp shown_instant summary_at number_of parse_text parse_timestamp_like_to_ms
    normalized_scopes normalized_oauth normalized_bundle build_claude_native_bundle
    summary_of_bundle build_claude_credential_summary_from_bundle is_complete_summary
    has_complete_claude_native_bundle non_empty account_uuid_of bundle_account bundle_oauth
    summary_text strict_of same_identity both_same same_number same_tokens is_too_old compare_expiry
    has_keys token_expiry get_claude_native_bundle_identity get_strict_claude_native_bundle_identity
    do_claude_native_bundle_identities_match native_token_set has_same_native_token_set
    bundle_expiry compare_bundles plan_fresh plan_matched plan_current expects_other build_current
    plan_candidate plan_built plan_claude_native_bundle_replacement is_digit is_lower_letter
    is_label_start is_label_unit is_label_text check_label normalize_label dash_unit provider_alias
    normalize_provider_id lookup_text with_bundle spread without_summary_keys store_bundle
    derive_anthropic_credential_from_claude_bundle view_of derive_anthropic_credential_view
    set_entry provider_text email_text check_replacement no_duplicate has_identity view_source
    configured store_credential is_excluded found_here find_in_entries
    find_anthropic_label_by_native_claude_bundle check_provider plan_for_label check_complete
    check_account check_duplicate check_bundle plan_action validate_built
    validate_anthropic_native_bundle_for_label ensure_anthropic_label_configured
    get_anthropic_credential derive_for_label write_bundle persist_anthropic_native_bundle_for_label
    has_credential_material entry_if optional_entry compact_entry compact_identity same_found
    agrees_with identities_are_compatible is_nil check_newer same_expiry_time same_lineage
    check_lineage view_identity sakana_entry build_stable_identity_for_credential lineage_of_view
    anthropic_token_lineage resolve_record_identity assert_credential_publication_freshness
    without_claude_rotation_provenance build_shared_browser_policy unblocked cleared_reauth
    with_source find_credential_record current_identity current_egress current_provenance
    current_material maintained_body stored_material check_publication plan_stored plan_material
    plan_publication
next_planned = refl

plan_publication_egress_example :
    (next.policy.egress
      ≡ current_egress (find_credential_record (current ∷ []) next.provider next.label))
    × (next.provider ≡ normalize_provider_id ascii_lower (codes "Anthropic"))
    × (normalize_label ascii_lower (codes "Boss") ≡ ok next.label)
plan_publication_egress_example =
    plan_publication_egress ascii_lower no_dates (λ key. key) (current ∷ []) (codes "Anthropic")
      (codes "Boss") account (some (material new)) next next_planned

provider_named : normalize_provider_id ascii_lower (codes "Anthropic") ≡ anthropic_provider
unfolding is_space trim trim_start lower_unit dash_unit same provider_alias normalize_provider_id
provider_named = refl

current_found :
    find_credential_record (current ∷ []) anthropic_provider (codes "boss") ≡ some current
unfolding same find_credential_record
current_found = refl

old_material : has_credential_material (some (material old)) ≡ true
unfolding has_credential_material has_keys
old_material = refl

old_account : IsSameAccount ascii_lower no_dates (λ key. key) identity (material old) identity
unfolding is_space trim trim_start lower_unit same lookup_text compact_entry compact_identity
    same_found agrees_with identities_are_compatible is_nil resolve_record_identity
old_account = (refl, refl)

plan_publication_fresh_example :
    (m : Material) × (next.credential ≡ some m)
    × IsLaterLineage
        (anthropic_token_lineage ascii_lower no_dates (λ key. key) (material old))
        (anthropic_token_lineage ascii_lower no_dates (λ key. key) m)
plan_publication_fresh_example =
    plan_publication_fresh ascii_lower no_dates (λ key. key) (current ∷ []) (codes "Anthropic")
      (codes "Boss") account (some (material new)) next current (material old) provider_named
      next_planned current_found refl old_material old_account
