-- ===== src/Pool/Account/Laws.antt =====
-- When an account may be used.
use aimgr.Prelude.{
  ℕ, ◌≡◌, Bool, true, false, not, ◌&&◌, ◌||◌, same, trim, codes, LowerCase, is_some, arith,
  if◌then◌else◌,
}
use aimgr.Pool.Account.{
  AccountFacts, AccountStatus, OperatorStatus, ready, is_present, is_anthropic, is_fresh,
  has_complete_bundle, stored_email, differ, is_duplicate_message, anthropic_status, browser_status,
  general_status, derive_pool_account_status,
}

-- The account carries no reason to keep it out, whatever its provider.
abbrev is_unobstructed : LowerCase → AccountFacts → Bool
is_unobstructed low a =
    let expected = low.lower (trim a.expected_email) in
    if is_anthropic a.provider
    then has_complete_bundle a.credential
      && (not (is_present a.blocked_reason) || is_duplicate_message a.blocked_reason)
      && not (differ expected (stored_email a.credential))
    else not (is_present a.conflict_reason)
      && not (differ expected (low.lower (trim a.browser_email)))
      && not (is_present a.blocked_reason)

abbrev pub is_usable_account : LowerCase → ℕ → AccountFacts → Bool
is_usable_account low now a =
    is_fresh now a.provider a.credential
    && not (same (trim a.blocked_reason) (codes "oauth_reauth_required"))
    && is_unobstructed low a

abbrev is_ready : OperatorStatus → Bool
is_ready ready = true
is_ready s = false

-- The status is ready exactly when the account is eligible, and otherwise it names an action.
pub record IsConsistent (e : Bool) (s : AccountStatus) : Type 0 where
  pub eligible_iff : s.eligible ≡ e
  pub is_ready_iff : is_ready s.operator_status ≡ e
  pub has_action : (e || is_some s.action_required) ≡ true

-- No defect of the browser setup changes whether the account may be used.
browser-IsConsistent :
    (now : ℕ) (fresh : Bool) (a : AccountFacts) → IsConsistent fresh (browser_status now fresh a)
browser-IsConsistent now fresh a = record {
  eligible_iff = ground arith;
  is_ready_iff = ground arith;
  has_action = ground arith;
}

general-IsConsistent :
    (low : LowerCase) (now : ℕ) (fresh : Bool) (a : AccountFacts)
    → IsConsistent
        (fresh
          && not (is_present a.conflict_reason)
          && not (differ (low.lower (trim a.expected_email)) (low.lower (trim a.browser_email)))
          && not (is_present a.blocked_reason))
        (general_status low now fresh a)
general-IsConsistent low now fresh a =
    let rest = browser-IsConsistent now fresh a in
    record {
      eligible_iff = ground (arith, rest.eligible_iff);
      is_ready_iff = ground (arith, rest.is_ready_iff);
      has_action = ground (arith, rest.has_action);
    }

anthropic-IsConsistent :
    (low : LowerCase) (now : ℕ) (fresh : Bool) (a : AccountFacts)
    → IsConsistent
        (fresh
          && has_complete_bundle a.credential
          && (not (is_present a.blocked_reason) || is_duplicate_message a.blocked_reason)
          && not (differ (low.lower (trim a.expected_email)) (stored_email a.credential)))
        (anthropic_status low now fresh a)
anthropic-IsConsistent low now fresh a = record {
  eligible_iff = ground arith;
  is_ready_iff = ground arith;
  has_action = ground arith;
}

-- An account is eligible exactly when its credentials are fresh, no login is demanded, and nothing
-- stands against it: for a Claude account a complete native bundle, no other blocked reason and no
-- other identity in the bundle; otherwise no conflict, no blocked reason and no other identity in
-- the browser. Only an eligible account is shown as ready, and for any other an action is named.
pub derive_status-IsConsistent :
    (low : LowerCase) (now : ℕ) (a : AccountFacts)
    → IsConsistent (is_usable_account low now a) (derive_pool_account_status low now a)
unfolding derive_pool_account_status
derive_status-IsConsistent low now a =
    let fresh = is_fresh now a.provider a.credential in
    let general = general-IsConsistent low now fresh a in
    let native = anthropic-IsConsistent low now fresh a in
    record {
      eligible_iff = ground (arith, general.eligible_iff, native.eligible_iff);
      is_ready_iff = ground (arith, general.is_ready_iff, native.is_ready_iff);
      has_action = ground (arith, general.has_action, native.has_action);
    }
