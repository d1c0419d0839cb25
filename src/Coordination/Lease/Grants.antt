-- ===== src/Coordination/Lease/Grants.antt =====
-- A granted lease, acquired or joined, and the key that holds it
-- (src/coordination/redis-credential-lease.js).
use aimgr.Prelude.{
  ℕ, ◌<◌, ◌≡◌, refl, sym, ◌∙◌, true, some, Text, same_iff, same_refl, LowerCase, Result, ok, err,
  arith, Option-cases, inl, inr,
}
use aimgr.Coordination.Redis.{Redis}
use aimgr.Coordination.Keys.{build_credential_lease_key}
use aimgr.Coordination.Lease.Scripts.{succeeded, renew_or_reacquire_script}
use aimgr.Coordination.Lease.Calls.{check_request_ttl}
use aimgr.Coordination.Lease.Handle.{
  Delivery, delivered, request_lost, reply_lost, LeaseError, Lease, acquire, acquire_checked,
  settle_acquire, join_lease, join_checked, settle_join, send, create_credential_lease, Grant,
}
use aimgr.Coordination.Lease.Mutex.{check_request_key, guarded_key, guarded_ttl, ok_inj}

module _ (r : Redis) where
  open r use {Server, get, set_nx_px_free, set_nx_px_taken, get-set_px, get-pexpire}

  -- The lease is under the key, and the server holds its token there.
  pub record Grants (key : Text) (g : Grant r) (m : Lease) : Type 0 where
    pub under : m.key ≡ key
    pub held : get g.0 key ≡ some m.token

  script_holds :
      (key token : Text) (n : ℕ) (s : Server)
      → 0 < n
      → succeeded (renew_or_reacquire_script r key token n s).1 ≡ true
      → get (renew_or_reacquire_script r key token n s).0 key ≡ some token
  unfolding renew_or_reacquire_script succeeded
  script_holds key token n s p h = elim (Option-cases (get s key)) [
    | inl e ↦ ground (arith, get-set_px s key token n key p, same_refl key)
    | inr (w, e) ↦ ground (arith, get-pexpire s key n key p, same_iff w token)
  ]

  module _ (key token x : Text) (s : Server) (m : Lease) where
    acquire_checked-Grants :
        (d : Delivery) (q : Result LeaseError (Text × ℕ))
        → ((k : Text) (i : ℕ) → q ≡ ok (k, i) → (k ≡ key) × (0 < i))
        → (acquire_checked r d x token q s).1 ≡ ok (some m)
        → Grants key (acquire_checked r d x token q s) m
    unfolding acquire_checked settle_acquire send create_credential_lease
    acquire_checked-Grants d (err e) v h = cc
    acquire_checked-Grants request_lost (ok (k, i)) v h = cc
    acquire_checked-Grants reply_lost (ok (k, i)) v h = cc
    acquire_checked-Grants delivered (ok (k, i)) v h = elim (Option-cases (get s k)) [
      | inl e ↦ ground (
        arith,
        (v k i refl).0,
        set_nx_px_free s k token i e,
        get-set_px s k token i k (v k i refl).1,
        same_refl k,
      )
      | inr (w, e) ↦ ground (arith, set_nx_px_taken s k token i w e)
    ]

    join_checked-Grants :
        (d : Delivery) (q : Result LeaseError (Text × ℕ))
        → ((k : Text) (i : ℕ) → q ≡ ok (k, i) → (k ≡ key) × (0 < i))
        → (join_checked r d x token q s).1 ≡ ok (some m)
        → Grants key (join_checked r d x token q s) m
    unfolding join_checked settle_join send create_credential_lease
    join_checked-Grants d (err e) v h = cc
    join_checked-Grants request_lost (ok (k, i)) v h = cc
    join_checked-Grants reply_lost (ok (k, i)) v h = cc
    join_checked-Grants delivered (ok (k, i)) v h =
        ground (arith, (v k i refl).0, script_holds k token i s (v k i refl).1)

module _ (r : Redis) (low : LowerCase) (d : Delivery) (x provider label key : Text) (ttl : ℕ)
    (built : build_credential_lease_key low x provider label ≡ ok key) where
  pub acquire-Grants :
      (token : Text) (s : r.Server) (m : Lease)
      → (acquire r low d x provider label ttl token s).1 ≡ ok (some m)
      → Grants r key (acquire r low d x provider label ttl token s) m
  unfolding acquire
  acquire-Grants token s m h =
      acquire_checked-Grants r key token x s m d _
        (λ k i q. (
          ok_inj (sym (check_request_key low x provider label ttl q) ∙ built),
          (check_request_ttl low x provider label ttl q).1,
        ))
        h

  pub join-Grants :
      (token : Text) (s : r.Server) (m : Lease)
      → (join_lease r low d x provider label ttl token s).1 ≡ ok (some m)
      → Grants r key (join_lease r low d x provider label ttl token s) m
  unfolding join_lease
  join-Grants token s m h =
      join_checked-Grants r key token x s m d _
        (λ k i q. (
          ok_inj (sym (guarded_key low _ x provider label ttl q) ∙ built),
          guarded_ttl low _ x provider label ttl q,
        ))
        h
