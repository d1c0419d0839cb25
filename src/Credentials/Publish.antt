-- ===== src/Credentials/Publish.antt =====
-- Credentials on their way to the server: identities and freshness
-- (src/coordination/login-publish.js).
pub mod Freshness
pub mod Kept
pub mod Record
pub mod Maintained
pub mod Sent
use aimgr.Prelude.{
  ℕ, Bool, true, false, not, ◌&&◌, ◌||◌, Option, none, some, List, [], ◌∷◌, ◌++◌, map, Text, codes,
  same, trim, LowerCase, Result, ok, err, ltb, ◌==◌, is_some, lookup_text, all, if◌then◌else◌,
}
use aimgr.Core.Providers.{normalize_provider_id}
use aimgr.Coordination.Records.Server.{StoreError}
use aimgr.Credentials.Bundle.{Dates, Source, truthy, trimmed}
use aimgr.Credentials.Derive.{View, BundleError, derive_anthropic_credential_view}
use aimgr.Credentials.Replacement.{has_keys, get_claude_native_bundle_identity, same_number}
use aimgr.Credentials.Store.{anthropic_provider}

-- A credential of any provider: what a native bundle is looked for in, and the other providers'
-- properties.
pub record Material : Type 0 where
  pub source : Source
  pub account_id : Option Text
  pub api_key : Option Text
  pub email_address : Option Text

-- An identity, as the list of its entries; `none` is null.
abbrev pub Entries : Type 0
Entries = List (Text × Option Text)

abbrev pub CompactIdentity : Type 0
CompactIdentity = List (Text × Text)

pub record Lineage : Type 0 where
  pub access : Text
  pub refresh : Text
  -- The expiry text and its parsed time: a text that a summary shows denotes its instant.
  pub expires_at_ms : Option ℕ

pub data PublishError : Type 0 where
  missing_credential identity_differs unknown_freshness older_credential same_expiry : PublishError
  bad_native_bundle : BundleError → PublishError
  bad_record : PublishError
  store_failed : StoreError → PublishError

abbrev pub codex_provider : Text
codex_provider = codes "openai-codex"

abbrev pub sakana_provider : Text
sakana_provider = codes "sakana"

abbrev pub xai_provider : Text
xai_provider = codes "xai"

unfoldable pub has_credential_material : Option Material → Bool
has_credential_material none = false
has_credential_material (some m) =
    has_keys (some (m.source))
    || is_some (m.account_id)
    || is_some (m.api_key)
    || is_some (m.email_address)

-- `...(value ? { key: value } : {})`.
unfoldable pub entry_if : Text → Text → Entries
entry_if key value = if truthy value then (key, some value) ∷ [] else []

unfoldable pub optional_entry : Text → Option Text → Entries
optional_entry key none = []
optional_entry key (some value) = (key, some value) ∷ []

unfoldable pub compact_entry : LowerCase → Text × Option Text → CompactIdentity
compact_entry low (key, none) = []
compact_entry low (key, some value) =
    let v = low.lower (trim value) in if truthy v then (key, v) ∷ [] else []

unfoldable pub compact_identity : LowerCase → Entries → CompactIdentity
unfolding compact_entry
compact_identity low [] = []
compact_identity low (e ∷ es) = compact_entry low e ++ compact_identity low es

unfoldable pub same_found : Option Text → Text → Bool
same_found none value = false
same_found (some v) value = same v value

-- `identitiesAreCompatible`: every entry of the current identity is an entry of the next.
unfoldable pub agrees_with : CompactIdentity → Text × Text → Bool
unfolding same_found lookup_text
agrees_with next (key, value) = same_found (lookup_text key next) value

unfoldable pub identities_are_compatible : LowerCase → Entries → Entries → Bool
unfolding agrees_with
identities_are_compatible low current next =
    all (agrees_with (compact_identity low next)) (compact_identity low current)

abbrev pub some_entry : Text × Text → Text × Option Text
some_entry (key, value) = (key, some value)

unfoldable pub is_nil {ℓ} : {A : Type ℓ} → List A → Bool
is_nil [] = true
is_nil (x ∷ xs) = false

-- The comparison of two lineages that differ.
unfoldable pub check_newer : Option ℕ → Option ℕ → Result PublishError (Unit {0})
check_newer none next = err unknown_freshness
check_newer (some c) none = err unknown_freshness
check_newer (some c) (some n) =
    if ltb n c then err older_credential else if n == c then err same_expiry else ok tt

-- `sameRawExpiry || sameParsedExpiry`: two texts that are missing are the same text.
unfoldable pub same_expiry_time : Option ℕ → Option ℕ → Bool
unfolding same_number
same_expiry_time none none = true
same_expiry_time none (some n) = false
same_expiry_time (some m) n = same_number (some m) n

unfoldable pub same_lineage : Lineage → Lineage → Bool
unfolding same_expiry_time
same_lineage a b =
    same (a.access) (b.access)
    && same (a.refresh) (b.refresh)
    && same_expiry_time (a.expires_at_ms) (b.expires_at_ms)

unfoldable pub check_lineage : Lineage → Lineage → Result PublishError (Unit {0})
unfolding check_newer same_lineage
check_lineage current next =
    if same_lineage current next
    then ok tt
    else check_newer (current.expires_at_ms) (next.expires_at_ms)

-- `buildSakanaKeyFingerprint` (src/providers/sakana.js) hashes the key; the hash is a parameter.
module _ (low : LowerCase) (dates : Dates) (fingerprint : Text → Text) where
  unfoldable pub view_identity : Option View → Entries
  unfolding optional_entry entry_if
  view_identity none = []
  view_identity (some v) =
      let native = get_claude_native_bundle_identity low dates (v.source) in
      optional_entry (codes "accountUuid") (native.account_uuid)
      ++ (entry_if (codes "emailAddress") (low.lower (trim (v.summary.email_address)))
          ++ entry_if (codes "organizationUuid") (trim (v.summary.organization_uuid)))

  unfoldable pub sakana_entry : Option Text → Entries
  unfolding trimmed
  sakana_entry none = []
  sakana_entry (some key) =
      if truthy (trim key) then (codes "keyFingerprint", some (fingerprint key)) ∷ [] else []

  unfoldable pub build_stable_identity_for_credential : Text → Material → Entries
  unfolding view_identity derive_anthropic_credential_view trimmed sakana_entry
  build_stable_identity_for_credential provider m =
      if same provider codex_provider
      then entry_if (codes "accountId") (trimmed (m.account_id))
      else if same provider anthropic_provider
      then view_identity (derive_anthropic_credential_view low dates (m.source))
      else if same provider sakana_provider
      then sakana_entry (m.api_key)
      else if same provider xai_provider
      then entry_if (codes "emailAddress") (low.lower (trimmed (m.email_address)))
      else []

  unfoldable pub lineage_of_view : Option View → Lineage
  lineage_of_view none = record { access = []; refresh = []; expires_at_ms = none }
  lineage_of_view (some v) = record {
    access = trim (v.summary.access);
    refresh = trim (v.summary.refresh);
    expires_at_ms = v.summary.expires_at;
  }

  unfoldable pub anthropic_token_lineage : Material → Lineage
  unfolding lineage_of_view derive_anthropic_credential_view
  anthropic_token_lineage m =
      lineage_of_view (derive_anthropic_credential_view low dates (m.source))

  -- A record on the server, as far as its freshness depends on it.
  unfoldable pub resolve_record_identity : Text → Entries → Material → CompactIdentity
  resolve_record_identity provider stored m =
      let own = compact_identity low stored in
      if is_nil own
      then compact_identity low (build_stable_identity_for_credential provider m)
      else own

  -- `assertCredentialPublicationFreshness`, for the identity and the credential of the current record,
  -- where there is one, and the next credential with its identity.
  unfoldable pub assert_credential_publication_freshness :
      Text → Option (Entries × Material) → Material → Entries → Result PublishError (Unit {0})
  unfolding has_credential_material resolve_record_identity identities_are_compatible check_lineage
      anthropic_token_lineage
  assert_credential_publication_freshness provider none next next_identity = ok tt
  assert_credential_publication_freshness provider (some (stored, m)) next next_identity =
      let id = normalize_provider_id low provider in
      let current = resolve_record_identity id stored m in
      if not (same id anthropic_provider) || not (has_credential_material (some m))
      then ok tt
      else if is_nil current
          || not (identities_are_compatible low (map some_entry current) next_identity)
      then ok tt
      else check_lineage (anthropic_token_lineage m) (anthropic_token_lineage next)
