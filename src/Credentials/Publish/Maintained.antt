-- ===== src/Credentials/Publish/Maintained.antt =====
-- `publishMaintainedCredential` (src/coordination/login-publish.js) with `publishCredential`
-- (src/coordination/redis-store.js): what a login publishes for its label.
use aimgr.Prelude.{
  ◌&&◌, Option, none, some, List, [], ◌∷◌, Text, codes, same, LowerCase, Result, ok, err, ◌>>=◌,
  ◌>>◌, map_err, ensure, if◌then◌else◌,
}
use aimgr.Core.Labels.{normalize_label}
use aimgr.Core.Providers.{normalize_provider_id}
use aimgr.Network.Egress.{EgressPolicy}
use aimgr.Coordination.Records.Server.{StoredRecord}
use aimgr.Credentials.Bundle.{Dates, Source, get_claude_native_bundle}
use aimgr.Credentials.Derive.{derive_anthropic_credential_from_claude_bundle}
use aimgr.Credentials.Store.{anthropic_provider, set_entry}
use aimgr.Credentials.Publish.{
  Material, Entries, PublishError, missing_credential, identity_differs, bad_native_bundle,
  bad_record, identities_are_compatible, build_stable_identity_for_credential,
  assert_credential_publication_freshness,
}
use aimgr.Credentials.Publish.Record.{
  CredentialBody, PublishedAccount, without_claude_rotation_provenance, build_shared_browser_policy,
  cleared_reauth,
}

abbrev pub CurrentRecord : Type 0
CurrentRecord = Option (StoredRecord CredentialBody)

unfoldable pub with_source : Material → Source → Material
with_source m s = record {
  source = s;
  account_id = m.account_id;
  api_key = m.api_key;
  email_address = m.email_address;
}

-- `findCredentialRecord` (src/coordination/snapshot.js).
unfoldable pub find_credential_record :
    List (StoredRecord CredentialBody) → Text → Text → CurrentRecord
find_credential_record [] provider label = none
find_credential_record (r ∷ records) provider label =
    let rest = find_credential_record records provider label in
    if same (r.body.provider) provider && same (r.body.label) label then some r else rest

unfoldable pub current_identity : CurrentRecord → Entries
current_identity none = []
current_identity (some r) = r.body.identity

unfoldable pub current_egress : CurrentRecord → Option EgressPolicy
current_egress none = none
current_egress (some r) = r.body.policy.egress

unfoldable pub current_provenance : CurrentRecord → List (Text × Text)
unfolding without_claude_rotation_provenance
current_provenance none = []
current_provenance (some r) = without_claude_rotation_provenance (r.body.provenance)

unfoldable pub current_material : CurrentRecord → Option (Entries × Material)
current_material none = none
current_material (some r) = elim (r.body.credential) [
  | none ↦ none
  | some m ↦ some (r.body.identity, m)
]

-- The record that is published. Only the account's own policy and the credential are new; the route
-- is that of the current record.
unfoldable pub maintained_body :
    CurrentRecord → Text → Text → PublishedAccount → Material → Entries → CredentialBody
unfolding cleared_reauth build_shared_browser_policy current_egress current_provenance set_entry
maintained_body current provider label account m identity = record {
  provider = provider;
  label = label;
  credential = some m;
  identity = identity;
  policy = record {
    egress = current_egress current;
    expect = account.expect;
    reauth = cleared_reauth (account.reauth);
    browser = build_shared_browser_policy (account.browser);
    pool_enabled = account.pool_enabled;
  };
  health = some (record { status = codes "ready"; reason = none });
  provenance =
      set_entry (codes "lastSourceType") (codes "login-maintenance") (current_provenance current);
}

module _ (low : LowerCase) (dates : Dates) (fingerprint : Text → Text) where
  unfoldable pub stored_material : Text → Material → Result PublishError Material
  unfolding with_source
  stored_material provider m =
      if same provider anthropic_provider
      then map_err bad_native_bundle (
          derive_anthropic_credential_from_claude_bundle low dates (some (m.source))
            (get_claude_native_bundle (m.source)))
        >>= (λ s. ok (with_source m s))
      else ok m

  unfoldable pub check_publication :
      CurrentRecord → Text → Material → Entries → Result PublishError (Unit {0})
  unfolding identities_are_compatible assert_credential_publication_freshness current_identity
      current_material
  check_publication current provider m identity =
      ensure identity_differs (identities_are_compatible low (current_identity current) identity)
      >> assert_credential_publication_freshness low dates fingerprint provider
          (current_material current) m identity

  unfoldable pub plan_stored :
      CurrentRecord → Text → Text → PublishedAccount → Material → Result PublishError CredentialBody
  unfolding check_publication maintained_body build_stable_identity_for_credential
  plan_stored current provider label account m =
      let identity = build_stable_identity_for_credential low dates fingerprint provider m in
      check_publication current provider m identity
      >> ok (maintained_body current provider label account m identity)

  unfoldable pub plan_material :
      CurrentRecord
      → Text
      → Text
      → PublishedAccount
      → Option Material
      → Result PublishError CredentialBody
  unfolding plan_stored stored_material
  plan_material current provider label account none = err missing_credential
  plan_material current provider label account (some m) =
      stored_material provider m >>= plan_stored current provider label account

  -- What is published, from the snapshot's records and the state's account and credential.
  unfoldable pub plan_publication :
      List (StoredRecord CredentialBody)
      → Text
      → Text
      → PublishedAccount
      → Option Material
      → Result PublishError CredentialBody
  unfolding plan_material find_credential_record
  plan_publication records provider label account m =
      let p = normalize_provider_id low provider in
      map_err (λ _. bad_record) (normalize_label low label)
      >>= (λ l. plan_material (find_credential_record records p l) p l account m)
