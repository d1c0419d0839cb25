-- ===== src/Network/Egress.antt =====
-- Which proxy the traffic of a Claude account takes (src/network/claude-egress-policy.js).
pub mod Laws
use aimgr.Prelude.{
  ℕ, Bool, true, false, not, ◌&&◌, ◌||◌, Option, none, some, List, [], ◌∷◌, Text, codes, same,
  includes, trim, ends_with, LowerCase, Result, ok, err, ◌>>=◌, ◌>>◌, ensure, ℤ, pos, negsuc, leb,
  ◌==◌, length, all, is_none, if◌then◌else◌,
}
use aimgr.Coordination.Keys.{is_provider_unit}
use aimgr.Core.Labels.{is_label_start}

pub data RouteError : Type 0 where
  missing_proxy_assignment invalid_proxy_assignment : RouteError
  proxy_profile_unavailable invalid_proxy_profile : Text → RouteError

-- A policy is its `profileRef`, `none` for a policy without a text there.
pub record EgressPolicy : Type 0 where
  pub profile_ref : Option Text

-- `account.egress` and `account.policy.egress`; `none` is undefined.
pub record Account : Type 0 where
  pub egress : Option EgressPolicy
  pub policy_egress : Option EgressPolicy

unfoldable pub claude_egress_policy : Account → Option EgressPolicy
claude_egress_policy a = elim a.egress [ none ↦ a.policy_egress | some p ↦ some p ]

-- `/^[a-z0-9][a-z0-9_-]{0,127}$/`.
abbrev pub is_profile_unit : ℕ → Bool
is_profile_unit c = is_provider_unit c || c == b'_'

unfoldable pub is_profile_text : Text → Bool
is_profile_text [] = false
is_profile_text (c ∷ t) = is_label_start c && all is_profile_unit t && leb (length t) 127

abbrev pub reserved_profiles : List Text
reserved_profiles = codes "default" ∷ codes "direct" ∷ codes "manifest" ∷ codes "install" ∷ []

unfoldable pub is_profile_ref : Text → Bool
unfolding is_profile_text
is_profile_ref ref =
    is_profile_text ref
    && not (includes ref reserved_profiles)
    && not (ends_with (codes "-sing-box") ref)

abbrev pub ref_text : LowerCase → Option Text → Text
ref_text low none = []
ref_text low (some t) = low.lower (trim t)

unfoldable pub normalize_egress_policy :
    LowerCase → Option EgressPolicy → Result RouteError (Option Text)
unfolding is_profile_ref
normalize_egress_policy low none = ok none
normalize_egress_policy low (some p) =
    let ref = ref_text low p.profile_ref in
    if is_profile_ref ref then ok (some ref) else err invalid_proxy_assignment

-- A profile of this machine. A port that is no integer and exits that are no list are `none`.
pub record RawProfile : Type 0 where
  pub socks_host : Option Text
  pub socks_port : Option ℤ
  pub expected_exits : Option (List Text)

pub record EgressProfile : Type 0 where
  pub label : Text
  pub profile_ref : Text
  pub socks_host : Text
  pub socks_port : ℕ
  pub expected_exits : List Text

abbrev pub host_of : Option Text → Text
host_of none = codes "127.0.0.1"
host_of (some t) = t

unfoldable pub is_loopback : Text → Bool
is_loopback host = includes host (codes "127.0.0.1" ∷ codes "::1" ∷ [])

-- The port, where it is an integer from 1 to 65535.
unfoldable pub valid_port : Option ℤ → Option ℕ
valid_port none = none
valid_port (some (negsuc n)) = none
valid_port (some (pos n)) = if leb 1 n && leb n 65_535 then some n else none

-- The exits, where they are addresses and there is one. `is_ip` is `net.isIP`.
unfoldable pub valid_exits : (Text → Bool) → Option (List Text) → Option (List Text)
valid_exits is_ip none = none
valid_exits is_ip (some []) = none
valid_exits is_ip (some (x ∷ xs)) = if all is_ip (x ∷ xs) then some (x ∷ xs) else none

module _ (low : LowerCase) (is_ip : Text → Bool) where
  abbrev pub Route : Type 0
  Route = Result RouteError (Option EgressProfile)

  unfoldable pub build_profile : Text → Text → Text → Option ℕ → Option (List Text) → Route
  build_profile label ref host (some port) (some exits) = ok (
      some (record {
        label = label;
        profile_ref = ref;
        socks_host = host;
        socks_port = port;
        expected_exits = exits;
      }))
  build_profile label ref host (some port) none = err (invalid_proxy_profile ref)
  build_profile label ref host none exits = err (invalid_proxy_profile ref)

  unfoldable pub check_profile : Text → Text → Option RawProfile → Route
  unfolding is_loopback valid_port valid_exits build_profile
  check_profile label ref none = err (proxy_profile_unavailable ref)
  check_profile label ref (some raw) =
      if is_loopback (host_of raw.socks_host)
      then build_profile label ref (host_of raw.socks_host) (valid_port raw.socks_port)
          (valid_exits is_ip raw.expected_exits)
      else err (invalid_proxy_profile ref)

  unfoldable pub assigned_profile :
      Text → (Text → Option RawProfile) → Result RouteError (Option Text) → Route
  unfolding check_profile
  assigned_profile label profiles (err e) = err e
  assigned_profile label profiles (ok none) = err missing_proxy_assignment
  assigned_profile label profiles (ok (some ref)) = check_profile label ref (profiles ref)

  unfoldable pub resolve_claude_egress_profile : Text → Account → (Text → Option RawProfile) → Route
  unfolding assigned_profile normalize_egress_policy claude_egress_policy
  resolve_claude_egress_profile label account profiles =
      assigned_profile label profiles (normalize_egress_policy low (claude_egress_policy account))

  unfoldable pub resolve_optional_claude_egress_profile :
      Bool → Text → Account → (Text → Option RawProfile) → Route
  unfolding resolve_claude_egress_profile
  resolve_optional_claude_egress_profile previously_protected label account profiles =
      if is_none (claude_egress_policy account) && not previously_protected
      then ok none
      else resolve_claude_egress_profile label account profiles
