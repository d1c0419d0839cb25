-- ===== src/Credentials/Publish/Kept.antt =====
-- What a login's publication keeps: the route of the record, and a login that is not older
-- (src/coordination/login-publish.js).
use aimgr.Prelude.{
  ◌≡◌, refl, sym, ap, subst, true, Option, some, List, Text, LowerCase, ok, ensure, then_ok,
}
use aimgr.Core.Labels.{normalize_label}
use aimgr.Core.Providers.{normalize_provider_id}
use aimgr.Core.Providers.Laws.{normalize_anthropic}
use aimgr.Coordination.Records.Server.{StoredRecord}
use aimgr.Credentials.Bundle.{Dates}
use aimgr.Credentials.Store.{anthropic_provider}
use aimgr.Credentials.Publish.{
  Material, Entries, identity_differs, has_credential_material, identities_are_compatible,
  anthropic_token_lineage, assert_credential_publication_freshness,
}
use aimgr.Credentials.Publish.Record.{CredentialBody, PublishedAccount}
use aimgr.Credentials.Publish.Maintained.{
  CurrentRecord, find_credential_record, current_identity, current_egress, current_material,
  maintained_body, check_publication, plan_publication,
}
use aimgr.Credentials.Publish.Freshness.{
  IsLaterLineage, IsSameAccount, fresh_ok, plan_publication-IsPlanned,
}

module _ (low : LowerCase) (dates : Dates) (fingerprint : Text → Text) where
  -- A publication for a label keeps the route of the record that it replaces, and sets the label and
  -- the provider that it was asked for.
  pub plan_publication_egress :
      (records : List (StoredRecord CredentialBody)) (provider label : Text)
      (account : PublishedAccount) (m : Option Material) (b : CredentialBody)
      → plan_publication low dates fingerprint records provider label account m ≡ ok b
      → (b.policy.egress ≡ current_egress (find_credential_record records (b.provider) (b.label)))
        × (b.provider ≡ normalize_provider_id low provider)
        × (normalize_label low label ≡ ok (b.label))
  unfolding maintained_body
  plan_publication_egress records provider label account m b h =
      let q =
        plan_publication-IsPlanned low dates fingerprint records provider label account m b h in
      subst
        (λ x.
          (x.policy.egress ≡ current_egress (find_credential_record records (x.provider) (x.label)))
          × (x.provider ≡ normalize_provider_id low provider)
          × (normalize_label low label ≡ ok (x.label)))
        (sym (q.planned)) (refl, refl, q.key_of)

  checked_fresh :
      (current : CurrentRecord) (r : StoredRecord CredentialBody) (old next : Material)
      (identity : Entries)
      → current ≡ some r
      → r.body.credential ≡ some old
      → has_credential_material (some old) ≡ true
      → IsSameAccount low dates fingerprint (r.body.identity) old identity
      → check_publication low dates fingerprint current anthropic_provider next identity ≡ ok tt
      → IsLaterLineage
          (anthropic_token_lineage low dates fingerprint old)
          (anthropic_token_lineage low dates fingerprint next)
  unfolding check_publication current_material
  checked_fresh current r old next identity c m x a h =
      let compatible = identities_are_compatible low (current_identity current) identity in
      let k =
        (then_ok (ensure identity_differs compatible)
          (assert_credential_publication_freshness low dates fingerprint anthropic_provider
            (current_material current) next identity)
          tt h).1 in
      let e : current_material current ≡ some (r.body.identity, old) = rw (c, m) refl in
      fresh_ok low dates fingerprint (r.body.identity) old next identity (normalize_anthropic low) x
        a (rw e at k)

  -- Where the record that is replaced holds a credential of the same Anthropic account, a planned
  -- publication has the same tokens with the same expiry time, or tokens that expire strictly later.
  pub plan_publication_fresh :
      (records : List (StoredRecord CredentialBody)) (provider label : Text)
      (account : PublishedAccount) (m : Option Material) (b : CredentialBody)
      (r : StoredRecord CredentialBody) (old : Material)
      → normalize_provider_id low provider ≡ anthropic_provider
      → plan_publication low dates fingerprint records provider label account m ≡ ok b
      → find_credential_record records anthropic_provider (b.label) ≡ some r
      → r.body.credential ≡ some old
      → has_credential_material (some old) ≡ true
      → IsSameAccount low dates fingerprint (r.body.identity) old (b.identity)
      → (next : Material) × (b.credential ≡ some next)
        × IsLaterLineage
            (anthropic_token_lineage low dates fingerprint old)
            (anthropic_token_lineage low dates fingerprint next)
  unfolding maintained_body
  plan_publication_fresh records provider label account m b r old n h f c x a =
      let q =
        plan_publication-IsPlanned low dates fingerprint records provider label account m b h in
      let credential : b.credential ≡ some (q.material) = ap (λ z. z.credential) (q.planned) in
      let key : b.label ≡ q.key = ap (λ z. z.label) (q.planned) in
      let identity : b.identity ≡ q.identity = ap (λ z. z.identity) (q.planned) in
      let checked =
        subst
          (λ p.
            check_publication low dates fingerprint (find_credential_record records p (q.key)) p
              (q.material) (q.identity)
            ≡ ok tt)
          n (q.checked) in
      (
        q.material,
        credential,
        checked_fresh (find_credential_record records anthropic_provider (q.key)) r old (q.material)
            (q.identity)
            (subst (λ k. find_credential_record records anthropic_provider k ≡ some r) key f) c x
            (subst (IsSameAccount low dates fingerprint (r.body.identity) old) identity a) checked,
      )
