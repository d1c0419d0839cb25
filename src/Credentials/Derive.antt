-- ===== src/Credentials/Derive.antt =====
-- Complete bundles, the credentials that are stored from them, and the views that the program reads
-- (src/credentials/claude-bundle.js).
pub mod Laws
use aimgr.Prelude.{
  ◌>>=◌, ℕ, Bool, true, false, not, ◌&&◌, Option, none, some, List, [], ◌∷◌, ◌++◌, Text, codes,
  includes, trim, LowerCase, Result, ok, err, ltb, length, filter, is_some,
}
use aimgr.Credentials.Bundle.{
  DateError, summary_or_error, parts_bundle, Stamp, number, text, Dates, Oauth, Parts, Source,
  Bundle, Summary, truthy, parts_source, whole, bundle_source, get_claude_native_bundle,
  build_claude_native_bundle, parse_text, build_claude_credential_summary_from_bundle,
  summary_of_bundle,
}

pub data BundleError : Type 0 where
  incomplete_bundle missing_bundle invalid_expires_at : BundleError

-- The keys that a summary has.
abbrev pub summary_keys : List Text
summary_keys =
    codes "access"
    ∷ codes "refresh"
    ∷ codes "expiresAt"
    ∷ codes "subscriptionType"
    ∷ codes "rateLimitTier"
    ∷ codes "scopes"
    ∷ codes "emailAddress"
    ∷ codes "organizationName"
    ∷ codes "organizationUuid"
    ∷ []

-- A credential together with its summary, spread into one object by the code.
pub record View : Type 0 where
  pub source : Source
  pub summary : Summary

unfoldable pub is_complete_summary : Summary → Bool
is_complete_summary s =
    truthy (s.access)
    && truthy (s.refresh)
    && is_some (s.expires_at)
    && truthy (s.subscription_type)
    && truthy (s.rate_limit_tier)
    && ltb 0 (length (s.scopes))
    && truthy (s.email_address)
    && truthy (s.organization_name)
    && truthy (s.organization_uuid)

-- `{ ...credential, nativeClaudeBundle: bundle }` with the given other keys.
unfoldable pub with_bundle : Source → Bundle → List Text → Source
with_bundle s b keys = record {
  native_claude_bundle = some (whole b);
  own = s.own;
  other_keys = keys;
}

abbrev pub empty_source : Source
empty_source = parts_source (record { oauth = none; account = none })

-- `isObject(credential) ? { ...credential } : {}`.
unfoldable pub spread : Option Source → Source
spread none = empty_source
spread (some s) = s

unfoldable pub without_summary_keys : List Text → List Text
without_summary_keys keys = filter (λ k. not (includes k summary_keys)) keys

-- The tokens of a refreshed login put in.
unfoldable pub with_tokens : Bundle → Option Text → Option Text → ℕ → Bundle
with_tokens b access refresh ms =
    let o = b.claude_ai_oauth in
    record {
      claude_ai_oauth = record {
        access_token = access;
        refresh_token = refresh;
        expires_at = number ms;
        scopes = o.scopes;
        subscription_type = o.subscription_type;
        rate_limit_tier = o.rate_limit_tier;
      };
      oauth_account = b.oauth_account;
    }

module _ (low : LowerCase) (dates : Dates) where
  -- The answer within the calendar.
  unfoldable pub has_complete_claude_native_bundle : Source → Bool
  unfolding is_complete_summary
  has_complete_claude_native_bundle s =
      elim (build_claude_credential_summary_from_bundle low dates s) [
        | none ↦ false
        | some summary ↦ is_complete_summary summary
      ]

  -- `hasCompleteClaudeNativeBundle` on any expiry time: the error of the date is thrown.
  unfoldable pub completeness : Source → Result DateError Bool
  unfolding is_complete_summary summary_or_error parts_bundle get_claude_native_bundle
  completeness s = elim (parts_bundle (get_claude_native_bundle s)) [
    | none ↦ ok false
    | some b ↦ summary_or_error low dates b >>= (λ summary. ok (is_complete_summary summary))
  ]

  -- A built bundle that is stored, or the refusal of an incomplete one.
  unfoldable pub store_bundle : Option Source → Option Bundle → Result BundleError Source
  unfolding with_bundle spread without_summary_keys has_complete_claude_native_bundle
  store_bundle existing none = err incomplete_bundle
  store_bundle existing (some b) = elim (has_complete_claude_native_bundle (bundle_source b)) [
    | false ↦ err incomplete_bundle
    | true ↦
        let next = spread existing in
        ok (with_bundle next b (without_summary_keys (next.other_keys)))
  ]

  unfoldable pub derive_anthropic_credential_from_claude_bundle :
      Option Source → Option Parts → Result BundleError Source
  unfolding store_bundle build_claude_native_bundle
  derive_anthropic_credential_from_claude_bundle existing native =
      store_bundle existing (build_claude_native_bundle dates native)

  unfoldable pub view_of : Source → Option Bundle → Option View
  unfolding with_bundle summary_of_bundle
  view_of s none = none
  view_of s (some b) = some (record {
    source = with_bundle s b (s.other_keys ++ summary_keys);
    summary = summary_of_bundle low dates b;
  })

  unfoldable pub derive_anthropic_credential_view : Source → Option View
  unfolding view_of build_claude_native_bundle get_claude_native_bundle
  derive_anthropic_credential_view s =
      view_of s (build_claude_native_bundle dates (get_claude_native_bundle s))

-- `if (!expiresAtMs) throw`.
unfoldable pub tokens_at : Bundle → Option Text → Option Text → Option ℕ → Result BundleError Bundle
unfolding with_tokens
tokens_at b access refresh none = err invalid_expires_at
tokens_at b access refresh (some ms) = elim (ltb 0 ms) [
  | false ↦ err invalid_expires_at
  | true ↦ ok (with_tokens b access refresh ms)
]

-- The expiry is given as a text; `parseExpiresAtToMs` parses it (src/core/time.js).
unfoldable pub update_claude_bundle_token_fields :
    Dates → Option Parts → Option Text → Option Text → Text → Result BundleError Bundle
unfolding tokens_at build_claude_native_bundle parse_text
update_claude_bundle_token_fields dates native access refresh expires_at =
    elim (build_claude_native_bundle dates native) [
      | none ↦ err missing_bundle
      | some built ↦ tokens_at built access refresh (parse_text dates (text (trim expires_at)))
    ]
