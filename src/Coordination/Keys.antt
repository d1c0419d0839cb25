-- ===== src/Coordination/Keys.antt =====
-- The keys under which the server holds leases and records: `normalizeKeyPrefix`
-- (src/coordination/records.js), `buildRedisKeys` (src/coordination/redis-store.js) and
-- `buildCredentialLeaseKey` (src/coordination/redis-credential-lease.js).
pub mod Laws
use aimgr.Prelude.{
  ℕ, Bool, true, false, ◌&&◌, ◌||◌, [], ◌∷◌, ◌++◌, Text, codes, trim, ends_with, LowerCase, ◌==◌,
  all, Result, ok, err, ◌>>=◌, ◌>>◌, ensure, if◌then◌else◌, not,
}
use aimgr.Core.Labels.{LabelError, is_label_start, normalize_label}
use aimgr.Core.Providers.{normalize_provider_id}

-- `AIMGR_REDIS_DEFAULT_KEY_PREFIX`.
abbrev pub default_key_prefix : Text
default_key_prefix = codes "aimgr:v1:"

abbrev pub is_empty : Text → Bool
is_empty [] = true
is_empty (c ∷ t) = false

unfoldable pub with_colon : Text → Text
with_colon raw = if ends_with (codes ":") raw then raw else raw ++ codes ":"

unfoldable pub normalize_key_prefix : Text → Text
unfolding with_colon
normalize_key_prefix value =
    let raw = trim value in with_colon (if is_empty raw then default_key_prefix else raw)

unfoldable pub meta_key : Text → Text
meta_key key_prefix = normalize_key_prefix key_prefix ++ codes "meta"

unfoldable pub credentials_key : Text → Text
credentials_key key_prefix = normalize_key_prefix key_prefix ++ codes "credentials"

unfoldable pub credentials_by_provider_key : Text → Text → Text
credentials_by_provider_key key_prefix provider =
    normalize_key_prefix key_prefix ++ (codes "credentialsByProvider:" ++ provider)

unfoldable pub credential_key : Text → Text → Text → Text
credential_key key_prefix provider label =
    normalize_key_prefix key_prefix ++ (codes "credential:" ++ (provider ++ (codes ":" ++ label)))

pub data KeyError : Type 0 where
  invalid_provider invalid_store : KeyError
  invalid_label : LabelError → KeyError

-- `[a-z0-9-]`.
unfoldable pub is_provider_unit : ℕ → Bool
unfolding is_label_start
is_provider_unit c = is_label_start c || c == b'-'

-- `/^[a-z0-9][a-z0-9-]*$/.test(provider)`.
unfoldable pub is_provider_text : Text → Bool
unfolding is_provider_unit
is_provider_text [] = false
is_provider_text (c ∷ t) = is_label_start c && all is_provider_unit t

unfoldable pub normalize_lease_provider : LowerCase → Text → Result KeyError Text
normalize_lease_provider l value =
    let provider = normalize_provider_id l value in
    if is_provider_text provider then ok provider else err invalid_provider

unfoldable pub lift_label : Result LabelError Text → Result KeyError Text
lift_label (ok t) = ok t
lift_label (err e) = err (invalid_label e)

-- The texts of a lease key after the prefix.
unfoldable pub lease_suffix : Text → Text → Text
lease_suffix provider label = codes "lease:credential:" ++ (provider ++ (codes ":" ++ label))

unfoldable pub build_credential_lease_key : LowerCase → Text → Text → Text → Result KeyError Text
unfolding normalize_lease_provider lift_label lease_suffix
build_credential_lease_key l key_prefix provider label = do
  ensure invalid_store (not (is_empty (trim key_prefix)))
  provider' ← normalize_lease_provider l provider
  label' ← lift_label (normalize_label l label)
  ok (normalize_key_prefix (trim key_prefix) ++ lease_suffix provider' label')
