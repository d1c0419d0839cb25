-- ===== src/Tests/Credentials.antt =====
-- Native bundles of one account, an older and a newer one.
use aimgr.Prelude.{
  err, ℕ, ◌≡◌, refl, false, none, some, [], ◌∷◌, Text, codes, same, includes, is_space, trim,
  trim_start, lower_unit, ascii_lower,
}
use aimgr.Pool.Cycle.{add_text, add_all, distinct}
use aimgr.Credentials.Bundle.{
  invalid_time_value, number, Dates, Bundle, bundle_source, trimmed,
  normalize_non_empty_string_array, get_claude_native_bundle, both_parts, parts_bundle, positive,
  kept_stamp, shown_instant, summary_at, number_of, parse_text, parse_timestamp_like_to_ms,
  normalized_scopes, normalized_oauth, normalized_bundle, build_claude_native_bundle,
  summary_of_bundle, build_claude_credential_summary_from_bundle,
}
use aimgr.Credentials.Derive.{completeness, is_complete_summary, has_complete_claude_native_bundle}
use aimgr.Credentials.Derive.Laws.{complete-with_expiry, with_expiry}
use aimgr.Credentials.Replacement.{
  PlanOptions, update, non_empty, account_uuid_of, bundle_account, bundle_oauth, summary_text,
  strict_of, same_identity, both_same, same_number, same_tokens, is_too_old, compare_expiry,
  has_keys, token_expiry, get_claude_native_bundle_identity,
  get_strict_claude_native_bundle_identity, do_claude_native_bundle_identities_match,
  native_token_set, has_same_native_token_set, bundle_expiry,
}
use aimgr.Credentials.Replacement.Decide.{
  compare_bundles, plan_fresh, plan_matched, plan_current, expects_other, build_current,
  plan_candidate, plan_built, plan_claude_native_bundle_replacement,
}
use aimgr.Credentials.Replacement.Plan.{IsUpdate, plan_update_iff}

abbrev pub no_dates : Dates
no_dates = record { number_text = λ t. none; parse_date = λ t. none }

abbrev pub login_at : ℕ → Text → Bundle
login_at ms token = record {
  claude_ai_oauth = record {
    access_token = some token;
    refresh_token = some (codes "r");
    expires_at = number ms;
    scopes = some (codes "s" ∷ []);
    subscription_type = some (codes "max");
    rate_limit_tier = some (codes "t");
  };
  oauth_account = record {
    account_uuid = some (codes "u");
    email_address = some (codes "A@b");
    organization_name = some (codes "O");
    organization_uuid = some (codes "o");
  };
}

abbrev pub old : Bundle
old = login_at 100 (codes "a")

abbrev pub new : Bundle
new = login_at 200 (codes "b")

abbrev options : PlanOptions
options = record {
  expected_email = codes "a@B";
  now_ms = 150;
  min_remaining_ms = 0;
  allow_expired_candidate = false;
}

new_newer :
    plan_claude_native_bundle_replacement ascii_lower no_dates options
      (some (bundle_source old))
      (bundle_source new)
    ≡ update
unfolding same includes is_space trim trim_start lower_unit add_text add_all distinct trimmed
    normalize_non_empty_string_array get_claude_native_bundle both_parts parts_bundle positive
    kept_stamp shown_instant summary_at number_of parse_text parse_timestamp_like_to_ms
    normalized_scopes normalized_oauth normalized_bundle build_claude_native_bundle
    summary_of_bundle build_claude_credential_summary_from_bundle is_complete_summary
    has_complete_claude_native_bundle non_empty account_uuid_of bundle_account bundle_oauth
    summary_text strict_of same_identity both_same same_number same_tokens is_too_old compare_expiry
    has_keys token_expiry get_claude_native_bundle_identity get_strict_claude_native_bundle_identity
    do_claude_native_bundle_identities_match native_token_set has_same_native_token_set
    bundle_expiry compare_bundles plan_fresh plan_matched plan_current expects_other build_current
    plan_candidate plan_built plan_claude_native_bundle_replacement
new_newer = refl

plan_update_iff_example :
    IsUpdate ascii_lower no_dates options (some (bundle_source old)) (bundle_source new)
plan_update_iff_example =
    (plan_update_iff ascii_lower no_dates options (some (bundle_source old)) (bundle_source new)).0
      new_newer

-- An expiry time past the calendar.
complete-with_expiry_example :
    completeness ascii_lower no_dates (bundle_source (with_expiry old (number 10000000000000000)))
    ≡ err invalid_time_value
unfolding parse_timestamp_like_to_ms number_of positive
complete-with_expiry_example =
    complete-with_expiry ascii_lower no_dates old (number 10000000000000000)
