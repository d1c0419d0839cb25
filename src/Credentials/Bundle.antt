-- ===== src/Credentials/Bundle.antt =====
-- Native Claude bundles (src/credentials/claude-bundle.js). A JSON property is `none` where the value
-- is missing or has another type than the code asks for.
pub mod Laws
use aimgr.Prelude.{
  Result, ok, err, ◌>>=◌, leb, ℕ, Bool, true, false, not, ◌&&◌, ◌||◌, Option, none, some, List, [],
  ◌++◌, map, Text, codes, includes, trim, LowerCase, Result, ok, err, ltb, length, filter, is_some,
  if◌then◌else◌,
}
use aimgr.Coordination.Keys.{is_empty}
use aimgr.Pool.Cycle.{distinct}

-- An `expiresAt`: missing or of another type, `null`, a number of milliseconds, or a text.
pub data Stamp : Type 0 where
  absent null_stamp : Stamp
  number : ℕ → Stamp
  text : Text → Stamp

-- `Number(text)` and `Date.parse(text)` of the language's library, in whole milliseconds from 1970
-- on; `none` is NaN.
pub record Dates : Type 0 where
  pub number_text : Text → Option ℕ
  pub parse_date : Text → Option ℕ

pub record Oauth : Type 0 where
  pub access_token : Option Text
  pub refresh_token : Option Text
  pub expires_at : Stamp
  pub scopes : Option (List Text)
  pub subscription_type : Option Text
  pub rate_limit_tier : Option Text

pub record OauthAccount : Type 0 where
  pub account_uuid : Option Text
  pub email_address : Option Text
  pub organization_name : Option Text
  pub organization_uuid : Option Text

-- An object with `claudeAiOauth` and `oauthAccount`, where each may be missing.
pub record Parts : Type 0 where
  pub oauth : Option Oauth
  pub account : Option OauthAccount

-- A credential, or any object a bundle is looked for in: `nativeClaudeBundle`, its own two parts,
-- and the names of its other keys.
pub record Source : Type 0 where
  pub native_claude_bundle : Option Parts
  pub own : Parts
  pub other_keys : List Text

pub record Bundle : Type 0 where
  pub claude_ai_oauth : Oauth
  pub oauth_account : OauthAccount

pub record Summary : Type 0 where
  pub access : Text
  pub refresh : Text
  pub expires_at : Option ℕ
  pub subscription_type : Text
  pub rate_limit_tier : Text
  pub scopes : List Text
  pub email_address : Text
  pub organization_name : Text
  pub organization_uuid : Text

-- `typeof value === "string" ? value.trim() : ""`.
unfoldable pub trimmed : Option Text → Text
trimmed none = []
trimmed (some t) = trim t

-- `Boolean(text)`.
abbrev pub truthy : Text → Bool
truthy t = not (is_empty t)

unfoldable pub normalize_non_empty_string_array : Option (List Text) → List Text
unfolding distinct
normalize_non_empty_string_array none = []
normalize_non_empty_string_array (some l) = distinct (filter truthy (map trim l))

-- An object that is a bundle itself.
abbrev pub parts_source : Parts → Source
parts_source p = record { native_claude_bundle = none; own = p; other_keys = [] }

abbrev pub whole : Bundle → Parts
whole b = record { oauth = some (b.claude_ai_oauth); account = some (b.oauth_account) }

abbrev pub bundle_source : Bundle → Source
bundle_source b = parts_source (whole b)

unfoldable pub get_claude_native_bundle : Source → Option Parts
get_claude_native_bundle s = elim (s.native_claude_bundle) [
  | some p ↦ some p
  | none ↦ if is_some (s.own.oauth) && is_some (s.own.account) then some (s.own) else none
]

-- Both parts, where both are objects.
unfoldable pub both_parts : Option Oauth → Option OauthAccount → Option Bundle
both_parts none a = none
both_parts (some o) none = none
both_parts (some o) (some a) = some (record { claude_ai_oauth = o; oauth_account = a })

unfoldable pub parts_bundle : Option Parts → Option Bundle
unfolding both_parts
parts_bundle none = none
parts_bundle (some p) = both_parts (p.oauth) (p.account)

-- `numeric` where it is a number above 0.
unfoldable pub positive : Option ℕ → Option ℕ
positive none = none
positive (some n) = if ltb 0 n then some n else none

-- `bundle.expiresAt = ms` where `ms` is a number other than 0.
unfoldable pub kept_stamp : Stamp → Option ℕ → Stamp
kept_stamp e none = e
kept_stamp e (some n) = if ltb 0 n then number n else e

-- The last instant of the calendar, in milliseconds.
abbrev pub last_instant : ℕ
last_instant = 8640000000000000

pub data DateError : Type 0 where
  invalid_time_value : DateError

-- `toIsoFromExpiresMs` (src/core/time.js), as the instant that the text denotes: `Number(null)` is 0,
-- and `toISOString` throws past the last instant.
unfoldable pub to_iso_from_expires_ms : Option ℕ → Result DateError (Option ℕ)
to_iso_from_expires_ms none = ok (some 0)
to_iso_from_expires_ms (some n) = if leb n last_instant then ok (some n) else err invalid_time_value

-- What it returns where it does not throw.
unfoldable pub shown_instant : Option ℕ → Option ℕ
shown_instant none = some 0
shown_instant (some n) = some n

-- A list of scopes, where there is one.
unfoldable pub normalized_scopes : Option (List Text) → Option (List Text)
normalized_scopes none = none
normalized_scopes (some l) = some (normalize_non_empty_string_array (some l))

module _ (dates : Dates) where
  -- `Number(value)`.
  unfoldable pub number_of : Stamp → Option ℕ
  number_of absent = none
  number_of null_stamp = some 0
  number_of (number n) = some n
  number_of (text t) = dates.number_text t

  unfoldable pub parse_text : Stamp → Option ℕ
  parse_text absent = none
  parse_text null_stamp = none
  parse_text (number n) = none
  parse_text (text t) = if truthy (trim t) then dates.parse_date t else none

  -- `parseTimestampLikeToMs` (src/state/demand.js).
  unfoldable pub parse_timestamp_like_to_ms : Stamp → Option ℕ
  unfolding number_of positive parse_text
  parse_timestamp_like_to_ms e = elim (positive (number_of e)) [
    | some n ↦ some n
    | none ↦ parse_text e
  ]

  unfoldable pub normalized_oauth : Oauth → Oauth
  unfolding kept_stamp normalized_scopes parse_timestamp_like_to_ms
  normalized_oauth o = record {
    access_token = o.access_token;
    refresh_token = o.refresh_token;
    expires_at = kept_stamp (o.expires_at) (parse_timestamp_like_to_ms (o.expires_at));
    scopes = normalized_scopes (o.scopes);
    subscription_type = o.subscription_type;
    rate_limit_tier = o.rate_limit_tier;
  }

  unfoldable pub normalized_bundle : Option Bundle → Option Bundle
  unfolding normalized_oauth
  normalized_bundle none = none
  normalized_bundle (some b) = some (record {
    claude_ai_oauth = normalized_oauth (b.claude_ai_oauth);
    oauth_account = b.oauth_account;
  })

  unfoldable pub build_claude_native_bundle : Option Parts → Option Bundle
  unfolding normalized_bundle parts_bundle
  build_claude_native_bundle p = normalized_bundle (parts_bundle p)

module _ (low : LowerCase) (dates : Dates) where
  -- The summary with the expiry time that it shows.
  unfoldable pub summary_at : Bundle → Option ℕ → Summary
  unfolding trimmed
  summary_at b expiry =
      let o = b.claude_ai_oauth in
      let a = b.oauth_account in
      record {
        access = trimmed (o.access_token);
        refresh = trimmed (o.refresh_token);
        expires_at = expiry;
        subscription_type = trimmed (o.subscription_type);
        rate_limit_tier = trimmed (o.rate_limit_tier);
        scopes = normalize_non_empty_string_array (o.scopes);
        email_address = low.lower (trimmed (a.email_address));
        organization_name = trimmed (a.organization_name);
        organization_uuid = trimmed (a.organization_uuid);
      }

  -- Within the calendar.
  unfoldable pub summary_of_bundle : Bundle → Summary
  unfolding summary_at shown_instant parse_timestamp_like_to_ms
  summary_of_bundle b =
      summary_at b (shown_instant (parse_timestamp_like_to_ms dates (b.claude_ai_oauth.expires_at)))

  -- With the error of the date.
  unfoldable pub summary_or_error : Bundle → Result DateError Summary
  unfolding summary_at to_iso_from_expires_ms parse_timestamp_like_to_ms
  summary_or_error b =
      to_iso_from_expires_ms (parse_timestamp_like_to_ms dates (b.claude_ai_oauth.expires_at))
      >>= (λ expiry. ok (summary_at b expiry))

  unfoldable pub build_claude_credential_summary_from_bundle : Source → Option Summary
  unfolding summary_of_bundle
  build_claude_credential_summary_from_bundle s = elim (parts_bundle (get_claude_native_bundle s)) [
    | none ↦ none
    | some b ↦ some (summary_of_bundle b)
  ]
