-- ===== src/Credentials/SyncBack.antt =====
-- Tokens that the native client has rotated in its own files, taken back to the label that they
-- belong to: `syncClaudeNativeBundleBackToLabel` (src/credentials/claude-native.js).
pub mod Run
pub mod Laws
pub mod Rotation
use aimgr.Prelude.{
  ℕ, ◌+◌, Bool, true, false, not, ◌&&◌, ◌||◌, Option, none, some, List, [], ◌∷◌, ◌++◌, Text, same,
  LowerCase, Result, ok, err, ◌>>=◌, map_err, leb, ◌==◌, is_some, lookup_text, if◌then◌else◌,
}
use aimgr.Core.Labels.{normalize_label}
use aimgr.Credentials.Bundle.{
  Stamp, absent, null_stamp, number, text, Dates, Oauth, Parts, Source, Bundle, whole,
  bundle_source, parts_source, get_claude_native_bundle, build_claude_native_bundle,
}
use aimgr.Credentials.Derive.{
  View, has_complete_claude_native_bundle, derive_anthropic_credential_from_claude_bundle,
}
use aimgr.Credentials.Replacement.{
  Refusal, candidate_incomplete, identity_conflict, ambiguous_equal_expiry, current_incomplete,
  candidate_expired, stale_candidate, identity_mismatch, Replacement, blocked, noop, create, update,
  PlanOptions, bundle_oauth, get_strict_claude_native_bundle_identity,
  do_claude_native_bundle_identities_match,
}
use aimgr.Credentials.Replacement.Decide.{plan_claude_native_bundle_replacement}
use aimgr.Credentials.Store.{
  Store, StoreError, bad_label, bad_bundle, find_anthropic_label_by_native_claude_bundle,
}
use aimgr.Credentials.Store.Write.{get_anthropic_credential}

pub record ImportMeta : Type 0 where
  pub dirty_local : Bool
  pub imported_at : Option Text

-- What the state holds for this: the credentials, `targets.claudeCli.lastRunLabel`, and what is known
-- of the labels that were imported from another authority.
pub record SyncState : Type 0 where
  pub store : Store
  pub last_run_label : Option Text
  pub imports : List (Text × ImportMeta)

-- Where the live bundle comes from: a file, with the time of its last change in milliseconds where it
-- can be read, or the key chain.
pub data LiveSource : Type 0 where
  file : Option ℕ → LiveSource
  keychain : LiveSource

pub data RotatedField : Type 0 where
  access_token refresh_token expires_at : RotatedField

pub data Reason : Type 0 where
  no_live_bundle no_label_for_identity tokens_unchanged authority_import_newer : Reason
  not_replaced : Refusal → Reason

pub data SyncStatus : Type 0 where
  unreadable : Reason → Option Text → SyncStatus
  lineage_conflict : Reason → Option Text → SyncStatus
  unchanged : Reason → Text → SyncStatus
  -- The label, the rotated fields, and the credential to store.
  candidate : Text → List RotatedField → Source → SyncStatus

unfoldable pub same_optional : Option Text → Option Text → Bool
same_optional none none = true
same_optional none (some b) = false
same_optional (some a) none = false
same_optional (some a) (some b) = same a b

-- `a === b` on two values of `expiresAt`.
unfoldable pub same_stamp : Stamp → Stamp → Bool
same_stamp absent absent = true
same_stamp null_stamp null_stamp = true
same_stamp (number m) (number n) = m == n
same_stamp (text s) (text t) = same s t
same_stamp absent e = false
same_stamp null_stamp e = false
same_stamp (number m) e = false
same_stamp (text s) e = false

-- `if (stored !== live) rotatedFields.push(field)`.
unfoldable pub pushed : Bool → RotatedField → List RotatedField
pushed true f = []
pushed false f = f ∷ []

unfoldable pub rotated_fields : Oauth → Oauth → List RotatedField
unfolding pushed same_optional same_stamp
rotated_fields stored live =
    pushed (same_optional (stored.access_token) (live.access_token)) access_token
    ++ (pushed (same_optional (stored.refresh_token) (live.refresh_token)) refresh_token
        ++ pushed (same_stamp (stored.expires_at) (live.expires_at)) expires_at)

-- The status of a refused replacement.
unfoldable pub refusal_status : Text → Refusal → SyncStatus
refusal_status l identity_conflict = lineage_conflict (not_replaced identity_conflict) (some l)
refusal_status l ambiguous_equal_expiry =
    lineage_conflict (not_replaced ambiguous_equal_expiry) (some l)
refusal_status l current_incomplete = lineage_conflict (not_replaced current_incomplete) (some l)
refusal_status l candidate_incomplete = unreadable (not_replaced candidate_incomplete) (some l)
refusal_status l candidate_expired = unchanged (not_replaced candidate_expired) l
refusal_status l stale_candidate = unchanged (not_replaced stale_candidate) l
refusal_status l identity_mismatch = unchanged (not_replaced identity_mismatch) l

-- `liveMtimeMs !== null && liveMtimeMs <= importedAtMs + 5_000`, for a time that is known.
unfoldable pub is_older_file : Option ℕ → LiveSource → Bool
is_older_file none source = false
is_older_file (some ms) keychain = false
is_older_file (some ms) (file none) = false
is_older_file (some ms) (file (some modified)) = leb modified (ms + 5000)

unfoldable pub import_time : Dates → ImportMeta → Option ℕ
import_time dates m = elim (m.imported_at) [ none ↦ none | some t ↦ dates.parse_date t ]

unfoldable pub is_import_newer : Dates → Option ImportMeta → LiveSource → Bool
unfolding is_older_file import_time
is_import_newer dates none source = false
is_import_newer dates (some m) source =
    not (m.dirty_local) && is_older_file (import_time dates m) source

abbrev pub sync_options : ℕ → PlanOptions
sync_options now = record {
  expected_email = [];
  now_ms = now;
  min_remaining_ms = 0;
  allow_expired_candidate = true;
}
