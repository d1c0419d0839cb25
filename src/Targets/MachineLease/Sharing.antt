-- ===== src/Targets/MachineLease/Sharing.antt =====
-- A further session of a machine shares the lease (src/targets/claude-machine-lease.js).
use aimgr.Prelude.{
  ℕ, ◌<◌, ◌≡◌, refl, Bool, true, false, not, Option, none, some, Text, same_refl, LowerCase, Result,
  ok, ◌>>◌, ensure, length, arith, Bool-cases, inl, inr,
}
use aimgr.Coordination.Redis.{Redis}
use aimgr.Coordination.Keys.{is_empty, build_credential_lease_key}
use aimgr.Coordination.Lease.Scripts.{succeeded, renew_or_reacquire_script}
use aimgr.Coordination.Lease.Handle.{
  Delivery, delivered, Lease, LeaseError, default_lease_ttl_ms, join_lease, check_request,
  invalid_token, create_credential_lease,
}
use aimgr.Targets.MachineLease.{
  Holder, read_holder, live_others, siblings_of, joined_holder, join_machine_claude_lease,
}
use aimgr.Targets.MachineLease.Laws.{check_default}

-- A holder that is read has a token.
read_holder_token :
    (file : Option Holder) (h : Holder) → read_holder file ≡ some h → is_empty h.token ≡ false
unfolding read_holder
read_holder_token none h e = cc
read_holder_token (some o) h e = elim (Bool-cases (is_empty o.token)) [
  | inl q ↦ ground arith
  | inr q ↦ ground arith
]

module _ (r : Redis) (low : LowerCase) (is_alive : ℕ → Bool) (e : Delivery)
    (x provider label key : Text) (built : build_credential_lease_key low x provider label ≡ ok key)
    (fresh : Text) (pid : ℕ) where
  open r use {Server, get, get-pexpire, pexpire_reply}

  request :
      (token : Text)
      → is_empty token ≡ false
      → ◌≡◌ {A = Result LeaseError (Text × ℕ)}
          (do
            ensure invalid_token (not (is_empty token))
            check_request low x provider label default_lease_ttl_ms)
          (ok (key, default_lease_ttl_ms))
  request token h = rw h (check_default low x provider label key built)

  script_owned :
      (token : Text) (n : ℕ) (s : Server)
      → 0 < n
      → get s key ≡ some token
      → (succeeded (renew_or_reacquire_script r key token n s).1 ≡ true)
        × (get (renew_or_reacquire_script r key token n s).0 key ≡ some token)
  unfolding renew_or_reacquire_script succeeded
  script_owned token n s p held = (
    ground (arith, same_refl token, pexpire_reply s key n token held),
    ground (arith, same_refl token, get-pexpire s key n key p),
  )

  abbrev shared : Text → Lease
  shared token = create_credential_lease x key token default_lease_ttl_ms

  join_owned :
      (token : Text) (s : Server)
      → is_empty token ≡ false
      → get s key ≡ some token
      → (s' : Server) × (get s' key ≡ some token)
        × (join_lease r low delivered x provider label default_lease_ttl_ms token s
            ≡ (s', ok (some (shared token))))
  unfolding join_lease
  join_owned token s h held =
      let (yes_, kept) = script_owned token default_lease_ttl_ms s (omega arith) held in
      (
        (renew_or_reacquire_script r key token default_lease_ttl_ms s).0,
        kept,
        rw (request token h) (rw yes_ refl),
      )

  -- While the holder file's token still holds the account's key, a further session of the machine is
  -- given a lease with that very token: the key stays, the answer counts the live sessions that
  -- share it, and the file lists them and the new one.
  pub join_machine_shares :
      (file : Option Holder) (h : Holder) (s : Server)
      → read_holder file ≡ some h
      → get s key ≡ some h.token
      → (s' : Server) × (get s' key ≡ some h.token)
        × (join_machine_claude_lease r low is_alive delivered e x provider label fresh pid file s
            ≡ (
              s',
              some (joined_holder pid h.token (live_others is_alive pid h.members)),
              ok (some (shared h.token, length (live_others is_alive pid h.members))),
            ))
  unfolding join_machine_claude_lease siblings_of create_credential_lease
  join_machine_shares file h s read held =
      let (s', kept, joined) = join_owned h.token s (read_holder_token file h read) held in
      (s', kept, rw read (rw joined (rw (same_refl h.token))))
