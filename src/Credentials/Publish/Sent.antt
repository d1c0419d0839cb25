-- ===== src/Credentials/Publish/Sent.antt =====
-- A publication on the server: `publishCredential` (src/coordination/redis-store.js) under
-- `publishMaintainedCredential` (src/coordination/login-publish.js).
use aimgr.Prelude.{
  ◌≡◌, refl, ap, Option, none, some, List, [], ◌∷◌, Text, trim, LowerCase, Result, ok, err, map_err,
  map_err_ok, if◌then◌else◌,
}
use aimgr.Coordination.Keys.{credential_key, credentials_key, credentials_by_provider_key}
use aimgr.Coordination.Records.Server.{StoredRecord, Json, RecordServer}
use aimgr.Coordination.Records.Cas.{
  CasOutcome, written, cas_put_json_record, created_of, version_of,
}
use aimgr.Coordination.Records.Commit.{IsCommit, written-IsCommit}
use aimgr.Coordination.Lease.Handle.{Delivery}
use aimgr.Credentials.Bundle.{Dates, truthy}
use aimgr.Credentials.Publish.{Material, PublishError, store_failed}
use aimgr.Credentials.Publish.Record.{CredentialBody, PublishedAccount, normalize_credential_record}
use aimgr.Credentials.Publish.Maintained.{CurrentRecord, find_credential_record, plan_publication}

-- `timestamp(value, fallback)` (src/coordination/records.js).
unfoldable pub timestamp : Option Text → Text → Text
timestamp none fallback = fallback
timestamp (some t) fallback = if truthy (trim t) then trim t else fallback

unfoldable pub updated_of : CurrentRecord → Option Text
updated_of none = none
updated_of (some r) = r.updated_at

unfoldable pub updater_of : CurrentRecord → Option Text
updater_of none = none
updater_of (some r) = r.updated_by

-- `{ ...currentCredential, ... }` as a normalized record.
unfoldable pub next_record : CurrentRecord → Text → CredentialBody → StoredRecord CredentialBody
unfolding timestamp created_of version_of updated_of updater_of
next_record current observed b = record {
  version = version_of current;
  created_at = some (timestamp (created_of current) observed);
  updated_at = some (timestamp (updated_of current) observed);
  updated_by = updater_of current;
  body = b;
}

-- The three functions are what other clients do meanwhile, as in `casPutJsonRecord`.
module _ (low : LowerCase) (dates : Dates) (fingerprint : Text → Text) (r : RecordServer)
    (json : Json CredentialBody) (d : Delivery)
    (before_get before_exec before_report : r.Server → r.Server) (key_prefix : Text)
    (updated_by : Option Text) (observed_at : Text) where
  abbrev pub Published : Type 0
  Published = r.Server × Result PublishError (CasOutcome CredentialBody)

  abbrev pub index_keys : CredentialBody → List Text
  index_keys b =
      credentials_key key_prefix ∷ credentials_by_provider_key key_prefix (b.provider) ∷ []

  unfoldable pub put_normalized : CurrentRecord → r.Server → CredentialBody → Published
  unfolding cas_put_json_record next_record
  put_normalized current s b =
      let out =
        cas_put_json_record r json d before_get before_exec before_report
          (credential_key key_prefix (b.provider) (b.label)) (index_keys b) (version_of current)
          (next_record current observed_at b) updated_by observed_at s in
      (out.0, map_err store_failed out.1)

  unfoldable pub publish_normalized :
      CurrentRecord → Result PublishError CredentialBody → r.Server → Published
  unfolding put_normalized
  publish_normalized current (err e) s = (s, err e)
  publish_normalized current (ok n) s = put_normalized current s n

  unfoldable pub publish_credential : CurrentRecord → CredentialBody → r.Server → Published
  unfolding publish_normalized normalize_credential_record
  publish_credential current b s = publish_normalized current (normalize_credential_record low b) s

  unfoldable pub publish_planned :
      List (StoredRecord CredentialBody) → Result PublishError CredentialBody → r.Server → Published
  unfolding publish_credential
  publish_planned records (err e) s = (s, err e)
  publish_planned records (ok b) s =
      publish_credential (find_credential_record records (b.provider) (b.label)) b s

  unfoldable pub publish_maintained_credential :
      List (StoredRecord CredentialBody)
      → Text
      → Text
      → PublishedAccount
      → Option Material
      → r.Server
      → Published
  unfolding publish_planned plan_publication
  publish_maintained_credential records provider label account m s =
      publish_planned records
        (plan_publication low dates fingerprint records provider label account m) s

  abbrev pub at_exec : r.Server → r.Server
  at_exec s = before_exec (before_get s)

  -- One commit at the moment of EXEC, of the record that is planned from the snapshot, onto the
  -- version that the snapshot shows.
  pub record IsPublished (records : List (StoredRecord CredentialBody)) (provider label : Text)
      (account : PublishedAccount) (m : Option Material) (s s' : r.Server)
      (w : StoredRecord CredentialBody) : Type 0 where
    pub planned : CredentialBody
    pub plan : plan_publication low dates fingerprint records provider label account m ≡ ok planned
    pub body : CredentialBody
    pub normalized : normalize_credential_record low planned ≡ ok body
    pub committed :
        let current = find_credential_record records (planned.provider) (planned.label) in
        IsCommit r json
          (credential_key key_prefix (body.provider) (body.label))
          (index_keys body)
          (version_of current)
          (next_record current observed_at body)
          updated_by
          observed_at
          (at_exec s)
          s'
          w

  module _ (later_get : (u : r.Server) → r.Later u (before_get u))
      (later_exec : (u : r.Server) → r.Later u (before_exec u)) where
    put_committed :
        (current : CurrentRecord) (s s' : r.Server) (b : CredentialBody)
        (w : StoredRecord CredentialBody)
        → put_normalized current s b ≡ (s', ok (written w))
        → IsCommit r json
            (credential_key key_prefix (b.provider) (b.label))
            (index_keys b)
            (version_of current)
            (next_record current observed_at b)
            updated_by
            observed_at
            (at_exec s)
            s'
            w
    unfolding put_normalized
    put_committed current s s' b w h =
        let out =
          cas_put_json_record r json d before_get before_exec before_report
            (credential_key key_prefix (b.provider) (b.label)) (index_keys b) (version_of current)
            (next_record current observed_at b) updated_by observed_at s in
        let e : out.1 ≡ ok (written w) =
          map_err_ok store_failed out.1 (written w) (ap (λ z. z.1) h) in
        let f : out.0 ≡ s' = ap (λ z. z.0) h in
        let g : (out.0, out.1) ≡ (s', ok (written w)) = rw (e, f) refl in
        (written-IsCommit r json before_get before_exec before_report
          (credential_key key_prefix (b.provider) (b.label)) (index_keys b) (version_of current)
          (next_record current observed_at b) updated_by observed_at d s later_get later_exec s' w
          g).0

    published_put :
        (current : CurrentRecord) (q : Result PublishError CredentialBody) (s s' : r.Server)
        (w : StoredRecord CredentialBody)
        → publish_normalized current q s ≡ (s', ok (written w))
        → (n : CredentialBody) × (q ≡ ok n) × (put_normalized current s n ≡ (s', ok (written w)))
    unfolding publish_normalized
    published_put current (err e) s s' w h = cc (ap (λ z. z.1) h)
    published_put current (ok n) s s' w h = (n, refl, h)

    planned_put :
        (records : List (StoredRecord CredentialBody)) (q : Result PublishError CredentialBody)
        (s s' : r.Server) (w : StoredRecord CredentialBody)
        → publish_planned records q s ≡ (s', ok (written w))
        → (b : CredentialBody) × (q ≡ ok b)
          × (publish_credential (find_credential_record records (b.provider) (b.label)) b s
              ≡ (s', ok (written w)))
    unfolding publish_planned
    planned_put records (err e) s s' w h = cc (ap (λ z. z.1) h)
    planned_put records (ok b) s s' w h = (b, refl, h)

    -- A login's publication is one commit of the record that is planned from the snapshot, at the
    -- moment when the server still holds the version that the snapshot shows.
    pub publish_maintained_credential-IsPublished :
        (records : List (StoredRecord CredentialBody)) (provider label : Text)
        (account : PublishedAccount) (m : Option Material) (s s' : r.Server)
        (w : StoredRecord CredentialBody)
        → publish_maintained_credential records provider label account m s ≡ (s', ok (written w))
        → IsPublished records provider label account m s s' w
    unfolding publish_maintained_credential publish_credential
    publish_maintained_credential-IsPublished records provider label account m s s' w h =
        let (b, p, h1) = planned_put records _ s s' w h in
        let current = find_credential_record records (b.provider) (b.label) in
        let (n, q, h2) = published_put current _ s s' w h1 in
        record {
          planned = b;
          plan = p;
          body = n;
          normalized = q;
          committed = put_committed current s s' n w h2;
        }
