-- ===== src/Pool/Account.antt =====
-- `derivePoolAccountStatus` (src/pool/account-status.js): whether an account may be used, and what
-- the operator has to do about it.
pub mod Laws
use aimgr.Prelude.{
  ℕ, Bool, true, false, not, ◌&&◌, ◌||◌, Option, none, some, Text, same, trim, codes, map,
  lower_unit, contains, LowerCase, leb, ltb, if◌then◌else◌,
}
use aimgr.Coordination.Keys.{is_empty}

pub data Provider : Type 0 where
  anthropic openai_codex other_provider : Provider

pub data ReauthMode : Type 0 where
  browser_managed manual_callback native_claude_mode : ReauthMode

pub data BindingMode : Type 0 where
  aim_profile chrome_profile agent_browser : BindingMode

-- The stored credential as its provider's view shows it. `expires_ms` is its parsed expiry time,
-- and `email` the stored address in lower case without white space at its ends.
pub record Credential : Type 0 where
  pub access : Text
  pub refresh : Text
  pub account_id : Text
  pub expires_ms : Option ℕ
  pub email : Text
  pub is_complete_bundle : Bool

-- What the status depends on. A text that is missing is empty.
pub record AccountFacts : Type 0 where
  pub provider : Provider
  pub reauth_mode : Option ReauthMode
  pub binding_mode : Option BindingMode
  pub blocked_reason : Text
  pub conflict_reason : Text
  pub expected_email : Text
  pub browser_email : Text
  pub binding_present : Bool
  pub browser_exists : Bool
  pub seeded_at : Text
  pub verified_at : Text
  pub credential : Option Credential

pub data OperatorStatus : Type 0 where
  ready reauth blocked : OperatorStatus

pub data Detail : Type 0 where
  reauth_required conflict missing_credentials missing_native_claude_bundle native_claude : Detail
  binding_missing missing_browser seeded_unverified manual_mode : Detail

pub data Action : Type 0 where
  run_aim_label fix_blocker capture_native fix_conflict run_aim_browser_set : Action

-- The texts of the reasons.
pub data Reason : Type 0 where
  oauth_unusable expired no_usable_credentials incomplete_bundle ready_native : Reason
  usable_without_binding no_binding usable_without_browser no_browser : Reason
  usable_unverified unverified ready_manual ready_for_selection : Reason
  recorded : Text → Reason
  mismatch : Text → Text → Reason

pub record AccountStatus : Type 0 where
  pub operator_status : OperatorStatus
  pub detail_reason : Option Detail
  pub eligible : Bool
  pub action_required : Option Action
  pub reason : Reason

abbrev pub ready_with : Option Detail → Option Action → Reason → AccountStatus
ready_with d a r = record {
  operator_status = ready;
  detail_reason = d;
  eligible = true;
  action_required = a;
  reason = r;
}

abbrev pub reauth_with : Detail → Action → Reason → AccountStatus
reauth_with d a r = record {
  operator_status = reauth;
  detail_reason = some d;
  eligible = false;
  action_required = some a;
  reason = r;
}

abbrev pub blocked_with : Option Detail → Action → Reason → AccountStatus
blocked_with d a r = record {
  operator_status = blocked;
  detail_reason = d;
  eligible = false;
  action_required = some a;
  reason = r;
}

-- `typeof text === "string" && text.trim()`.
abbrev pub is_present : Text → Bool
is_present t = not (is_empty (trim t))

abbrev pub is_codex : Provider → Bool
is_codex openai_codex = true
is_codex p = false

abbrev pub is_anthropic : Provider → Bool
is_anthropic anthropic = true
is_anthropic p = false

abbrev pub expires_after : ℕ → Option ℕ → Bool
expires_after now none = false
expires_after now (some ms) = ltb now ms

abbrev pub is_expired : ℕ → Option Credential → Bool
is_expired now none = false
is_expired now (some c) = elim c.expires_ms [ none ↦ false | some ms ↦ leb ms now ]

-- `hasFreshCredentials`.
abbrev pub is_fresh : ℕ → Provider → Option Credential → Bool
is_fresh now p none = false
is_fresh now p (some c) =
    is_present c.access
    && is_present c.refresh
    && expires_after now c.expires_ms
    && (not (is_codex p) || is_present c.account_id)

abbrev pub has_complete_bundle : Option Credential → Bool
has_complete_bundle none = false
has_complete_bundle (some c) = c.is_complete_bundle

abbrev pub stored_email : Option Credential → Text
stored_email none = codes ""
stored_email (some c) = c.email

-- Two addresses are known and differ.
abbrev pub differ : Text → Text → Bool
differ s t = not (is_empty s) && not (is_empty t) && not (same s t)

-- `isAnthropicDuplicateNativeBundleErrorMessage`.
unfoldable pub is_duplicate_message : Text → Bool
is_duplicate_message message =
    let t = map lower_unit (trim message) in
    contains (codes "already stored on label=") t
    && contains (codes "duplicate anthropic bundle capture/import") t

-- `resolveAnthropicBlockedReasonForStatus` gives a reason: not for a duplicate bundle that is fresh
-- and complete.
abbrev pub keeps_block : AccountFacts → Bool → Bool
keeps_block a fresh =
    is_present a.blocked_reason
    && not (is_duplicate_message a.blocked_reason && fresh && has_complete_bundle a.credential)

abbrev pub missing_reason : ℕ → AccountFacts → Reason
missing_reason now a = if is_expired now a.credential then expired else no_usable_credentials

abbrev pub anthropic_status : LowerCase → ℕ → Bool → AccountFacts → AccountStatus
anthropic_status low now fresh a =
    let expected = low.lower (trim a.expected_email) in
    let stored = stored_email a.credential in
    if keeps_block a fresh
    then blocked_with none fix_blocker (recorded (trim a.blocked_reason))
    else if differ expected stored
    then blocked_with (some conflict) fix_blocker (mismatch stored expected)
    else if not fresh
    then reauth_with missing_credentials run_aim_label (missing_reason now a)
    else if not (has_complete_bundle a.credential)
    then reauth_with missing_native_claude_bundle capture_native incomplete_bundle
    else ready_with (some native_claude) none ready_native

abbrev pub is_browser_managed : Option ReauthMode → Bool
is_browser_managed (some browser_managed) = true
is_browser_managed m = false

abbrev pub is_manual : Option ReauthMode → Bool
is_manual (some manual_callback) = true
is_manual m = false

abbrev pub is_aim_profile : Option BindingMode → Bool
is_aim_profile (some aim_profile) = true
is_aim_profile m = false

-- `getMissingBrowserActionForBinding`.
abbrev pub missing_browser_action : Option BindingMode → Action
missing_browser_action m = if is_aim_profile m then run_aim_label else run_aim_browser_set

-- A defect of the browser setup: usable while the credentials are fresh, otherwise it needs a login.
abbrev pub defect : Bool → Detail → Action → Reason → Reason → AccountStatus
defect fresh d a usable unusable =
    if fresh then ready_with (some d) (some a) usable else reauth_with d a unusable

-- The last two tests: fresh credentials, and how they are renewed.
abbrev pub credential_status : ℕ → Bool → AccountFacts → AccountStatus
credential_status now fresh a =
    if not fresh
    then reauth_with missing_credentials run_aim_label (missing_reason now a)
    else if is_manual a.reauth_mode
    then ready_with (some manual_mode) none ready_manual
    else ready_with none none ready_for_selection

abbrev pub browser_status : ℕ → Bool → AccountFacts → AccountStatus
browser_status now fresh a =
    if is_browser_managed a.reauth_mode && not a.binding_present
    then defect fresh binding_missing run_aim_browser_set usable_without_binding no_binding
    else if is_browser_managed a.reauth_mode && a.binding_present && not a.browser_exists
    then defect fresh missing_browser (missing_browser_action a.binding_mode) usable_without_browser
        no_browser
    else if is_browser_managed a.reauth_mode
        && is_aim_profile a.binding_mode
        && is_present a.seeded_at
        && not (is_present a.verified_at)
    then defect fresh seeded_unverified run_aim_label usable_unverified unverified
    else credential_status now fresh a

abbrev pub general_status : LowerCase → ℕ → Bool → AccountFacts → AccountStatus
general_status low now fresh a =
    let expected = low.lower (trim a.expected_email) in
    let browser = low.lower (trim a.browser_email) in
    if is_present a.conflict_reason
    then blocked_with (some conflict) fix_conflict (recorded (trim a.conflict_reason))
    else if differ expected browser
    then blocked_with (some conflict) fix_conflict (mismatch browser expected)
    else if is_present a.blocked_reason
    then blocked_with none fix_blocker (recorded (trim a.blocked_reason))
    else browser_status now fresh a

unfoldable pub derive_pool_account_status : LowerCase → ℕ → AccountFacts → AccountStatus
derive_pool_account_status low now a =
    let fresh = is_fresh now a.provider a.credential in
    if same (trim a.blocked_reason) (codes "oauth_reauth_required")
    then reauth_with reauth_required run_aim_label oauth_unusable
    else if is_anthropic a.provider
    then anthropic_status low now fresh a
    else general_status low now fresh a
