-- ===== src/Credentials/Replacement.antt =====
-- Identities and tokens of native bundles, and whether one may replace another
-- (src/credentials/claude-native.js).
pub mod Laws
pub mod Decide
pub mod Plan
pub mod Forward
use aimgr.Prelude.{
  ℕ, ◌+◌, Bool, true, false, not, ◌&&◌, ◌||◌, Option, none, some, List, Text, same, trim, LowerCase,
  leb, ltb, ◌==◌, is_some, length, if◌then◌else◌,
}
use aimgr.Coordination.Keys.{is_empty}
use aimgr.Credentials.Bundle.{
  Dates, Oauth, OauthAccount, Parts, Source, Bundle, Summary, trimmed, truthy, bundle_source,
  get_claude_native_bundle, parts_bundle, build_claude_native_bundle, number_of,
  build_claude_credential_summary_from_bundle,
}
use aimgr.Credentials.Derive.{has_complete_claude_native_bundle}

pub record Identity : Type 0 where
  pub account_uuid : Option Text
  pub email_address : Option Text
  pub organization_uuid : Option Text
  pub refresh_token : Option Text

pub record StrictIdentity : Type 0 where
  pub account_uuid : Text
  pub email_address : Text
  pub organization_uuid : Text

pub record TokenSet : Type 0 where
  pub access_token : Text
  pub refresh_token : Text
  pub expires_at_ms : Option ℕ

-- `text || null`.
unfoldable pub non_empty : Text → Option Text
non_empty t = if truthy t then some t else none

unfoldable pub account_uuid_of : Option OauthAccount → Option Text
unfolding trimmed non_empty
account_uuid_of none = none
account_uuid_of (some a) = non_empty (trimmed (a.account_uuid))

unfoldable pub bundle_account : Option Parts → Option OauthAccount
bundle_account none = none
bundle_account (some p) = p.account

unfoldable pub bundle_oauth : Option Parts → Option Oauth
bundle_oauth none = none
bundle_oauth (some p) = p.oauth

-- `summary?.field || null`.
unfoldable pub summary_text : (Summary → Text) → Option Summary → Option Text
unfolding non_empty
summary_text f none = none
summary_text f (some s) = non_empty (f s)

unfoldable pub strict_of : Option Text → Option Text → Option Text → Option StrictIdentity
strict_of (some u) (some e) (some g) =
    some (record { account_uuid = u; email_address = e; organization_uuid = g })
strict_of (some u) (some e) none = none
strict_of (some u) none g = none
strict_of none e g = none

unfoldable pub same_identity : StrictIdentity → StrictIdentity → Bool
same_identity a b =
    same (a.account_uuid) (b.account_uuid)
    && same (a.email_address) (b.email_address)
    && same (a.organization_uuid) (b.organization_uuid)

unfoldable pub both_same : Option StrictIdentity → Option StrictIdentity → Bool
unfolding same_identity
both_same none b = false
both_same (some a) none = false
both_same (some a) (some b) = same_identity a b

-- `a === b` on numbers, where NaN equals nothing.
unfoldable pub same_number : Option ℕ → Option ℕ → Bool
same_number none b = false
same_number (some m) none = false
same_number (some m) (some n) = m == n

unfoldable pub same_tokens : Option TokenSet → Option TokenSet → Bool
unfolding same_number
same_tokens none b = false
same_tokens (some a) none = false
same_tokens (some a) (some b) =
    truthy (a.access_token)
    && truthy (a.refresh_token)
    && same (a.access_token) (b.access_token)
    && same (a.refresh_token) (b.refresh_token)
    && same_number (a.expires_at_ms) (b.expires_at_ms)

-- The reasons of a refusal.
pub data Refusal : Type 0 where
  candidate_incomplete identity_mismatch current_incomplete identity_conflict : Refusal
  candidate_expired stale_candidate ambiguous_equal_expiry : Refusal

-- `blocked` is not ok; the reasons of the others are `tokens_unchanged`, `empty_current` and
-- `candidate_newer`.
pub data Replacement : Type 0 where
  blocked : Refusal → Replacement
  noop create update : Replacement

-- The options of a plan that are numbers and flags; `min_remaining_ms` is 0 where it is not given.
pub record PlanOptions : Type 0 where
  pub expected_email : Text
  pub now_ms : ℕ
  pub min_remaining_ms : ℕ
  pub allow_expired_candidate : Bool

-- `!Number.isFinite(expiresAtMs) || (!allowExpiredCandidate && expiresAtMs <= freshnessFloor)`.
unfoldable pub is_too_old : PlanOptions → Option ℕ → Bool
is_too_old o none = true
is_too_old o (some n) = not (o.allow_expired_candidate) && leb n (o.now_ms + o.min_remaining_ms)

unfoldable pub compare_expiry : Option ℕ → Option ℕ → Replacement
compare_expiry none candidate = blocked current_incomplete
compare_expiry (some c) none = update
compare_expiry (some c) (some n) =
    if ltb n c
    then blocked stale_candidate
    else if n == c
    then blocked ambiguous_equal_expiry
    else update

-- `isObject(source) && Object.keys(source).length > 0`.
unfoldable pub has_keys : Option Source → Bool
has_keys none = false
has_keys (some s) =
    is_some (s.native_claude_bundle)
    || is_some (s.own.oauth)
    || is_some (s.own.account)
    || ltb 0 (length (s.other_keys))

-- The expiry of a token set; a built bundle always has one.
unfoldable pub token_expiry : Option TokenSet → Option ℕ
token_expiry none = none
token_expiry (some t) = t.expires_at_ms

module _ (low : LowerCase) (dates : Dates) where
  unfoldable pub get_claude_native_bundle_identity : Source → Identity
  unfolding account_uuid_of summary_text
  get_claude_native_bundle_identity s =
      let summary = build_claude_credential_summary_from_bundle low dates s in
      record {
        account_uuid = account_uuid_of (bundle_account (get_claude_native_bundle s));
        email_address = summary_text (λ x. x.email_address) summary;
        organization_uuid = summary_text (λ x. x.organization_uuid) summary;
        refresh_token = summary_text (λ x. x.refresh) summary;
      }

  unfoldable pub get_strict_claude_native_bundle_identity : Source → Option StrictIdentity
  unfolding strict_of
  get_strict_claude_native_bundle_identity s =
      let i = get_claude_native_bundle_identity s in
      strict_of (i.account_uuid) (i.email_address) (i.organization_uuid)

  unfoldable pub do_claude_native_bundle_identities_match : Source → Source → Bool
  unfolding both_same
  do_claude_native_bundle_identities_match left right =
      both_same (get_strict_claude_native_bundle_identity left)
        (get_strict_claude_native_bundle_identity right)

  unfoldable pub native_token_set : Source → Option TokenSet
  unfolding trimmed bundle_oauth number_of
  native_token_set s = elim (bundle_oauth (get_claude_native_bundle s)) [
    | none ↦ none
    | some o ↦ some (record {
      access_token = trimmed (o.access_token);
      refresh_token = trimmed (o.refresh_token);
      expires_at_ms = number_of dates (o.expires_at);
    })
  ]

  -- `hasSameNativeTokenSet`.
  unfoldable pub has_same_native_token_set : Source → Source → Bool
  unfolding same_tokens
  has_same_native_token_set left right =
      same_tokens (native_token_set left) (native_token_set right)

  unfoldable pub bundle_expiry : Bundle → Option ℕ
  unfolding token_expiry native_token_set
  bundle_expiry b = token_expiry (native_token_set (bundle_source b))
