-- ===== src/Credentials/Publish/Record.antt =====
-- The record that a publication writes: `normalizeCredentialRecord` (src/coordination/records.js),
-- `publishMaintainedCredential` (src/coordination/login-publish.js) and `publishCredential`
-- (src/coordination/redis-store.js).
use aimgr.Prelude.{
  Bool, true, false, not, Option, none, some, List, [], ◌∷◌, Text, codes, same, includes, LowerCase,
  Result, ok, ◌>>=◌, ◌>>◌, map_err, ensure, filter, if◌then◌else◌,
}
use aimgr.Core.Labels.{normalize_label}
use aimgr.Core.Providers.{normalize_provider_id}
use aimgr.Network.Egress.{EgressPolicy, normalize_egress_policy}
use aimgr.Credentials.Bundle.{truthy}
use aimgr.Credentials.Publish.{Material, Entries, PublishError, bad_record, has_credential_material}

-- `reauth`: the blocked reason, whether there is a streak of failures, and the other keys.
pub record Reauth : Type 0 where
  pub blocked_reason : Option Text
  pub has_maintenance : Bool
  pub other_keys : List (Text × Text)

pub record Policy : Type 0 where
  pub egress : Option EgressPolicy
  pub expect : Entries
  pub reauth : Reauth
  pub browser : List (Text × Text)
  pub pool_enabled : Bool

pub record Health : Type 0 where
  pub status : Text
  pub reason : Option Text

-- A credential record without the fields that the store itself writes.
pub record CredentialBody : Type 0 where
  pub provider : Text
  pub label : Text
  pub credential : Option Material
  pub identity : Entries
  pub policy : Policy
  pub health : Option Health
  pub provenance : List (Text × Text)

-- `account` of the state, for the label that is published.
pub record PublishedAccount : Type 0 where
  pub expect : Entries
  pub reauth : Reauth
  pub browser : List (Text × Text)
  pub pool_enabled : Bool

abbrev pub rotation_keys : List Text
rotation_keys =
    codes "claudeRotationFenceId"
    ∷ codes "claudeRotationBaseTokenLineageFingerprint"
    ∷ codes "claudeRotationBaseCredentialVersion"
    ∷ []

abbrev pub shared_browser_keys : List Text
shared_browser_keys =
    codes "mode"
    ∷ codes "seededFromOpenclawProfileId"
    ∷ codes "seededAt"
    ∷ codes "verifiedAt"
    ∷ codes "conflictReason"
    ∷ []

unfoldable pub without_claude_rotation_provenance : List (Text × Text) → List (Text × Text)
without_claude_rotation_provenance = filter (λ e. not (includes e.0 rotation_keys))

-- `buildSharedBrowserPolicy` (src/coordination/browser-policy.js), on the keys whose values are texts.
unfoldable pub build_shared_browser_policy : List (Text × Text) → List (Text × Text)
build_shared_browser_policy = filter (λ e. includes e.0 shared_browser_keys)

abbrev pub reauth_required : Text
reauth_required = codes "oauth_reauth_required"

unfoldable pub unblocked : Option Text → Option Text
unblocked none = none
unblocked (some reason) = if same reason reauth_required then none else some reason

-- A successful login clears the request for one and the streak of failures.
unfoldable pub cleared_reauth : Reauth → Reauth
unfolding unblocked
cleared_reauth r = record {
  blocked_reason = unblocked (r.blocked_reason);
  has_maintenance = false;
  other_keys = r.other_keys;
}

unfoldable pub normalized_egress :
    LowerCase → Option EgressPolicy → Result PublishError (Option EgressPolicy)
normalized_egress low none = ok none
normalized_egress low (some p) =
    map_err (λ _. bad_record) (normalize_egress_policy low (some p))
    >>= (λ ref. ok (some (record { profile_ref = ref })))

unfoldable pub normalized_health : Bool → Option Health → Health
normalized_health false h = record {
  status = codes "candidate";
  reason = some (codes "credential_missing");
}
normalized_health true none = record { status = codes "ready"; reason = none }
normalized_health true (some h) = h

-- The fields after provider, label and egress policy have been normalized.
unfoldable pub normalized_fields :
    CredentialBody → Text → Text → Option EgressPolicy → CredentialBody
unfolding normalized_health has_credential_material
normalized_fields b provider label egress = record {
  provider = provider;
  label = label;
  credential = b.credential;
  identity = b.identity;
  policy = record {
    egress = egress;
    expect = b.policy.expect;
    reauth = b.policy.reauth;
    browser = b.policy.browser;
    pool_enabled = b.policy.pool_enabled;
  };
  health = some (normalized_health (has_credential_material (b.credential)) (b.health));
  provenance = b.provenance;
}

unfoldable pub normalize_credential_record :
    LowerCase → CredentialBody → Result PublishError CredentialBody
unfolding normalized_egress normalized_fields
normalize_credential_record low b =
    let provider = normalize_provider_id low (b.provider) in
    ensure bad_record (truthy provider)
    >> (map_err (λ _. bad_record) (normalize_label low (b.label)) >>= (λ label.
        normalized_egress low (b.policy.egress)
        >>= (λ egress. ok (normalized_fields b provider label egress))))
