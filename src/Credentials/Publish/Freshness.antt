-- ===== src/Credentials/Publish/Freshness.antt =====
-- A login publishes no credential that is older than the one on the server, and keeps the record's
-- route (src/coordination/login-publish.js).
use aimgr.Prelude.{
  ℕ, ◌<◌, ◌≡◌, ◌↔◌, ◌⊎◌, refl, inl, inr, true, false, Option, none, some, List, Text, same_refl,
  LowerCase, ok, map, map_err, bind_ok, then_ok, map_err_ok, Bool-cases, arith,
}
use aimgr.Core.Labels.{normalize_label}
use aimgr.Core.Providers.{normalize_provider_id}
use aimgr.Coordination.Records.Server.{StoredRecord}
use aimgr.Credentials.Bundle.{Dates}
use aimgr.Credentials.Store.{anthropic_provider}
use aimgr.Credentials.Publish.{
  Material, Entries, Lineage, bad_record, has_credential_material, identities_are_compatible,
  build_stable_identity_for_credential, some_entry, is_nil, check_newer, same_lineage,
  check_lineage, anthropic_token_lineage, resolve_record_identity,
  assert_credential_publication_freshness,
}
use aimgr.Credentials.Publish.Record.{CredentialBody, PublishedAccount}
use aimgr.Credentials.Publish.Maintained.{
  CurrentRecord, find_credential_record, maintained_body, stored_material, check_publication,
  plan_stored, plan_material, plan_publication,
}

-- The same tokens and expiry, or a strictly later expiry.
abbrev pub IsLaterLineage : Lineage → Lineage → Type 0
IsLaterLineage old new =
    (same_lineage old new ≡ true)
    ⊎ ((j : ℕ) × (k : ℕ) × (old.expires_at_ms ≡ some j) × (new.expires_at_ms ≡ some k) × (j < k))

newer_ok :
    (c n : Option ℕ)
    → check_newer c n ≡ ok tt
    → (j : ℕ) × (k : ℕ) × (c ≡ some j) × (n ≡ some k) × (j < k)
unfolding check_newer
newer_ok none n h = cc h
newer_ok (some j) none h = cc h
newer_ok (some j) (some k) h = (j, k, refl, refl, ground arith)

later_ok : (c n : Option ℕ) (j k : ℕ) → c ≡ some j → n ≡ some k → j < k → check_newer c n ≡ ok tt
unfolding check_newer
later_ok c n j k p q l = rw (p, q) (ground arith)

-- The tokens of one account may replace those on the server exactly where they are the same or expire
-- strictly later.
pub check_lineage_iff :
    (old new : Lineage) → (check_lineage old new ≡ ok tt) ↔ IsLaterLineage old new
unfolding check_lineage
check_lineage_iff old new = elim (Bool-cases (same_lineage old new)) [
  | inl e ↦ (λ h. inl e, λ h. rw e refl)
  | inr e ↦ (
    λ h. inr (newer_ok _ _ (rw e at h)),
    λ h. elim h [ inl x ↦ cc (e, x) | inr (j, k, p, q, l) ↦ rw e (later_ok _ _ j k p q l) ],
  )
]

module _ (low : LowerCase) (dates : Dates) (fingerprint : Text → Text) where
  -- The record on the server is of this provider's account, as far as its identity says.
  abbrev pub IsSameAccount : Entries → Material → Entries → Type 0
  IsSameAccount stored m next =
      let current = resolve_record_identity low dates fingerprint anthropic_provider stored m in
      (is_nil current ≡ false)
      × (identities_are_compatible low (map some_entry current) next ≡ true)

  pub fresh_ok :
      (stored : Entries) (m next : Material) (identity : Entries)
      → normalize_provider_id low anthropic_provider ≡ anthropic_provider
      → has_credential_material (some m) ≡ true
      → IsSameAccount stored m identity
      → assert_credential_publication_freshness low dates fingerprint anthropic_provider
          (some (stored, m))
          next
          identity
        ≡ ok tt
      → IsLaterLineage
          (anthropic_token_lineage low dates fingerprint m)
          (anthropic_token_lineage low dates fingerprint next)
  unfolding assert_credential_publication_freshness
  fresh_ok stored m next identity n x (y, z) h =
      (check_lineage_iff (anthropic_token_lineage low dates fingerprint m)
          (anthropic_token_lineage low dates fingerprint next)).0
        (rw (n, same_refl anthropic_provider, x, y, z) at h)

  -- What a planned publication consists of.
  pub record IsPlanned (records : List (StoredRecord CredentialBody)) (provider label : Text)
      (account : PublishedAccount) (b : CredentialBody) : Type 0 where
    pub key : Text
    pub key_of : normalize_label low label ≡ ok key
    pub material : Material
    pub identity : Entries
    pub planned :
        b
        ≡ maintained_body
            (find_credential_record records (normalize_provider_id low provider) key)
            (normalize_provider_id low provider)
            key
            account
            material
            identity
    pub checked :
        check_publication low dates fingerprint
          (find_credential_record records (normalize_provider_id low provider) key)
          (normalize_provider_id low provider)
          material
          identity
        ≡ ok tt

  material_planned :
      (current : CurrentRecord) (p l : Text) (account : PublishedAccount) (m : Option Material)
      (b : CredentialBody)
      → plan_material low dates fingerprint current p l account m ≡ ok b
      → (n : Material) × (identity : Entries) × (b ≡ maintained_body current p l account n identity)
        × (check_publication low dates fingerprint current p n identity ≡ ok tt)
  unfolding plan_material plan_stored
  material_planned current p l account none b h = cc h
  material_planned current p l account (some m) b h =
      let (n, _, h1) =
        bind_ok (stored_material low dates fingerprint p m)
          (plan_stored low dates fingerprint current p l account) b h in
      let identity = build_stable_identity_for_credential low dates fingerprint p n in
      let (c, e) =
        then_ok (check_publication low dates fingerprint current p n identity)
          (ok (maintained_body current p l account n identity)) b h1 in
      (n, identity, cc e, c)

  pub plan_publication-IsPlanned :
      (records : List (StoredRecord CredentialBody)) (provider label : Text)
      (account : PublishedAccount) (m : Option Material) (b : CredentialBody)
      → plan_publication low dates fingerprint records provider label account m ≡ ok b
      → IsPlanned records provider label account b
  unfolding plan_publication
  plan_publication-IsPlanned records provider label account m b h =
      let p = normalize_provider_id low provider in
      let (l, n, h1) =
        bind_ok (map_err (λ _. bad_record) (normalize_label low label))
          (λ k.
            plan_material low dates fingerprint (find_credential_record records p k) p k account m)
          b h in
      let (material, identity, e, c) =
        material_planned (find_credential_record records p l) p l account m b h1 in
      record {
        key = l;
        key_of = map_err_ok (λ _. bad_record) (normalize_label low label) l n;
        material = material;
        identity = identity;
        planned = e;
        checked = c;
      }
