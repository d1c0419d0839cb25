-- ===== src/Credentials/Replacement/Laws.antt =====
-- When a native bundle may replace another (src/credentials/claude-native.js).
use aimgr.Prelude.{
  ℕ, ◌<◌, ◌≡◌, subst, ◌↔◌, refl, ap, true, false, Option, none, some, Text, same_iff, same_refl,
  LowerCase, arith,
}
use aimgr.Credentials.Bundle.{Dates, Source}
use aimgr.Credentials.Replacement.{
  StrictIdentity, TokenSet, same_identity, both_same, same_number, same_tokens, PlanOptions, update,
  is_too_old, compare_expiry, get_strict_claude_native_bundle_identity,
  do_claude_native_bundle_identities_match, token_expiry,
}

abbrev mk : Text → Text → Text → StrictIdentity
mk u e g = record { account_uuid = u; email_address = e; organization_uuid = g }

pub same_identity_eq : (a b : StrictIdentity) → same_identity a b ≡ true → a ≡ b
unfolding same_identity
same_identity_eq a b h =
    let u = (same_iff (a.account_uuid) (b.account_uuid)).0 (ground arith) in
    let e = (same_iff (a.email_address) (b.email_address)).0 (ground arith) in
    let g = (same_iff (a.organization_uuid) (b.organization_uuid)).0 (ground arith) in
    let r : mk (a.account_uuid) (a.email_address) (a.organization_uuid)
        ≡ mk (b.account_uuid) (b.email_address) (b.organization_uuid) =
      rw (u, e, g) refl in
    r

pub same_identity_refl : (a : StrictIdentity) → same_identity a a ≡ true
unfolding same_identity
same_identity_refl a = ground (
  arith,
  same_refl (a.account_uuid),
  same_refl (a.email_address),
  same_refl (a.organization_uuid),
)

pub both_same_iff :
    (a b : Option StrictIdentity)
    → (both_same a b ≡ true) ↔ ((i : StrictIdentity) × (a ≡ some i) × (b ≡ some i))
unfolding both_same
both_same_iff none b = (λ h. cc, λ (i, p, q). cc)
both_same_iff (some a) none = (λ h. cc, λ (i, p, q). cc)
both_same_iff (some a) (some b) = (
  λ h. (b, ap some (same_identity_eq a b h), refl),
  λ (i, p, q).
      let e : a ≡ b = cc (p, q) in subst (λ x. same_identity a x ≡ true) e (same_identity_refl a),
)

-- With an expiry time of the candidate, an update is a strictly later one.
pub compare_newer :
    (c : Option ℕ) (k : ℕ) → compare_expiry c (some k) ≡ update → (j : ℕ) × (c ≡ some j) × (j < k)
unfolding compare_expiry
compare_newer none k h = cc
compare_newer (some j) k h = (j, refl, ground arith)

pub compare_later : (j k : ℕ) → j < k → compare_expiry (some j) (some k) ≡ update
unfolding compare_expiry
compare_later j k h = ground arith

pub fresh_some : (o : PlanOptions) (n : Option ℕ) → is_too_old o n ≡ false → (k : ℕ) × (n ≡ some k)
unfolding is_too_old
fresh_some o none h = cc
fresh_some o (some k) h = (k, refl)

same_number_lt :
    (a b : Option ℕ) (j k : ℕ) → j < k → a ≡ some j → b ≡ some k → same_number a b ≡ false
unfolding same_number
same_number_lt a b j k l p q = rw (p, q) (ground arith)

pub different_expiry :
    (a b : Option TokenSet) (j k : ℕ)
    → j < k
    → token_expiry a ≡ some j
    → token_expiry b ≡ some k
    → same_tokens a b ≡ false
unfolding same_tokens token_expiry
different_expiry none b j k l p q = cc
different_expiry (some s) none j k l p q = cc
different_expiry (some s) (some t) j k l p q =
    let e = same_number_lt (s.expires_at_ms) (t.expires_at_ms) j k l p q in ground arith

-- Two sources match where both have the same strict identity.
pub match_iff :
    (low : LowerCase) (dates : Dates) (left right : Source)
    → (do_claude_native_bundle_identities_match low dates left right ≡ true) ↔ (
        (i : StrictIdentity) × (get_strict_claude_native_bundle_identity low dates left ≡ some i)
        × (get_strict_claude_native_bundle_identity low dates right ≡ some i))
unfolding do_claude_native_bundle_identities_match
match_iff low dates left right = both_same_iff _ _
