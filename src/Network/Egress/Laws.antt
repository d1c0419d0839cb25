-- ===== src/Network/Egress/Laws.antt =====
-- Traffic leaves without a proxy only for an account that never had one.
use aimgr.Prelude.{
  ℕ, ◌≡◌, refl, inl, inr, Bool, true, false, not, ◌&&◌, Option, none, some, List, [], ◌∷◌, Text,
  LowerCase, ok, err, ℤ, pos, negsuc, leb, length, all, is_none, arith, Bool-cases,
}
use aimgr.Network.Egress.{
  EgressPolicy, Account, claude_egress_policy, is_profile_ref, ref_text, normalize_egress_policy,
  RawProfile, EgressProfile, host_of, is_loopback, valid_port, valid_exits, Route, build_profile,
  check_profile, assigned_profile, resolve_claude_egress_profile,
  resolve_optional_claude_egress_profile,
}

module _ (low : LowerCase) (is_ip : Text → Bool) where
  -- A route through a proxy on this machine, with a proper name, port and exits.
  pub record IsSafe (label : Text) (p : EgressProfile) : Type 0 where
    pub is_for : p.label ≡ label
    pub is_named : is_profile_ref p.profile_ref ≡ true
    pub is_local : is_loopback p.socks_host ≡ true
    pub has_port : (leb 1 p.socks_port && leb p.socks_port 65_535) ≡ true
    pub has_exits : (leb 1 (length p.expected_exits) && all is_ip p.expected_exits) ≡ true

  -- A result with a profile is a safe one, and no profile is no result.
  abbrev IsProtected : Text → Route low is_ip → Type 0
  IsProtected label (ok none) = ⊥
  IsProtected label (ok (some p)) = IsSafe label p
  IsProtected label (err e) = Unit

  abbrev IsPort : Option ℕ → Type 0
  IsPort none = Unit
  IsPort (some n) = (leb 1 n && leb n 65_535) ≡ true

  valid_port-IsPort : (p : Option ℤ) → IsPort (valid_port p)
  unfolding valid_port
  valid_port-IsPort none = tt
  valid_port-IsPort (some (negsuc n)) = tt
  valid_port-IsPort (some (pos n)) = elim (Bool-cases (leb 1 n && leb n 65_535)) [
    | inl e ↦ rw e e
    | inr e ↦ rw e tt
  ]

  abbrev IsExits : Option (List Text) → Type 0
  IsExits none = Unit
  IsExits (some xs) = (leb 1 (length xs) && all is_ip xs) ≡ true

  valid_exits-IsExits : (xs : Option (List Text)) → IsExits (valid_exits is_ip xs)
  unfolding valid_exits
  valid_exits-IsExits none = tt
  valid_exits-IsExits (some []) = tt
  valid_exits-IsExits (some (x ∷ xs)) = elim (Bool-cases (all is_ip (x ∷ xs))) [
    | inl e ↦ rw e (ground arith)
    | inr e ↦ rw e tt
  ]

  build_profile-IsProtected :
      (label ref host : Text) (port : Option ℕ) (exits : Option (List Text))
      → is_profile_ref ref ≡ true
      → is_loopback host ≡ true
      → IsPort port
      → IsExits exits
      → IsProtected label (build_profile low is_ip label ref host port exits)
  unfolding build_profile
  build_profile-IsProtected label ref host (some port) (some exits) r h p e = record {
    is_for = refl;
    is_named = r;
    is_local = h;
    has_port = p;
    has_exits = e;
  }
  build_profile-IsProtected label ref host (some port) none r h p e = tt
  build_profile-IsProtected label ref host none exits r h p e = tt

  check_profile-IsProtected :
      (label ref : Text) (raw : Option RawProfile)
      → is_profile_ref ref ≡ true
      → IsProtected label (check_profile low is_ip label ref raw)
  unfolding check_profile
  check_profile-IsProtected label ref none r = tt
  check_profile-IsProtected label ref (some raw) r =
      elim (Bool-cases (is_loopback (host_of raw.socks_host))) [
        | inl e ↦ rw e (
            build_profile-IsProtected label ref (host_of raw.socks_host) _ _ r e
              (valid_port-IsPort raw.socks_port) (valid_exits-IsExits raw.expected_exits))
        | inr e ↦ rw e tt
      ]

  assigned-IsProtected :
      (label : Text) (profiles : Text → Option RawProfile) (policy : Option EgressPolicy)
      → IsProtected label
          (assigned_profile low is_ip label profiles (normalize_egress_policy low policy))
  unfolding assigned_profile normalize_egress_policy
  assigned-IsProtected label profiles none = tt
  assigned-IsProtected label profiles (some p) =
      elim (Bool-cases (is_profile_ref (ref_text low p.profile_ref))) [
        | inl e ↦ rw e (check_profile-IsProtected label _ (profiles (ref_text low p.profile_ref)) e)
        | inr e ↦ rw e tt
      ]

  -- Where no policy is configured and none is remembered there is no profile; in every other case
  -- the result is an error or a safe profile.
  abbrev pub IsFailClosed : Text → Bool → Route low is_ip → Type 0
  IsFailClosed label true r = r ≡ ok none
  IsFailClosed label false r = IsProtected label r

  -- Without a policy, and unless one is remembered, the account takes the ordinary path. In every
  -- other case the result is an error, or a profile for this label whose proxy is on the loopback
  -- interface at a port from 1 to 65535, with a valid name and at least one exit, all of them
  -- addresses.
  pub resolve_optional-IsFailClosed :
      (previously_protected : Bool) (label : Text) (account : Account)
      (profiles : Text → Option RawProfile)
      → IsFailClosed label (is_none (claude_egress_policy account) && not previously_protected) (
          resolve_optional_claude_egress_profile low is_ip previously_protected label account
            profiles)
  unfolding resolve_optional_claude_egress_profile resolve_claude_egress_profile
  resolve_optional-IsFailClosed previously_protected label account profiles =
      elim (Bool-cases (is_none (claude_egress_policy account) && not previously_protected)) [
        | inl e ↦ rw e refl
        | inr e ↦ rw e (assigned-IsProtected label profiles (claude_egress_policy account))
      ]
