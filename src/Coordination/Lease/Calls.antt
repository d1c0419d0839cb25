-- ===== src/Coordination/Lease/Calls.antt =====
-- Interleavings: any sequence of calls by any processes, with time passing between them, and what
-- it leaves of a lease (src/coordination/redis-credential-lease.js).
use aimgr.Prelude.{
  ℕ, ◌+◌, ◌<◌, ◌≡◌, refl, ◌≢◌, Option, none, some, List, [], ◌∷◌, Text, LowerCase, ok, arith, ℤ,
  Bool,
}
use aimgr.Coordination.Redis.{Redis}
use aimgr.Coordination.Lease.Ownership.{Kept, Kept-refl}
use aimgr.Coordination.Lease.Handle.{
  Delivery, delivered, request_lost, reply_lost, Operation, Lease, check_request, send,
  settle_renewal, renew, renew_or_reacquire, settle_release, release, settle_delete, guarded_delete,
  settle_acquire, acquire, settle_join, join_lease,
}

pub data Call : Type 0 where
  -- Store prefix, provider, label, time to live, token.
  acquires joins : Delivery → Text → Text → Text → ℕ → Text → Call
  renews recovers releases : Delivery → Lease → Call
  -- Target key, expected value.
  deletes : Delivery → Text → Text → Lease → Call
  passes : ℕ → Call

-- The call is not made with the token, and a guarded deletion does not name it as the expected
-- value. A handle's time to live is positive, as every granted one is.
abbrev pub Foreign : Text → Call → Type 0
Foreign t (acquires d key_prefix provider label ttl token) = token ≢ t
Foreign t (joins d key_prefix provider label ttl token) = token ≢ t
Foreign t (renews d l) = (l.token ≢ t) × (0 < l.ttl_ms)
Foreign t (recovers d l) = (l.token ≢ t) × (0 < l.ttl_ms)
Foreign t (releases d l) = l.token ≢ t
Foreign t (deletes d target expected l) = expected ≢ t
Foreign t (passes n) = Unit

unfoldable pub elapsed_by : Call → ℕ
elapsed_by (passes n) = n
elapsed_by _ = 0

unfoldable pub elapsed : List Call → ℕ
unfolding elapsed_by
elapsed [] = 0
elapsed (c ∷ cs) = elapsed_by c + elapsed cs

pub check_request_ttl :
    (low : LowerCase) (key_prefix provider label : Text) (ttl : ℕ) {key : Text} {n : ℕ}
    → check_request low key_prefix provider label ttl ≡ ok (key, n)
    → (n ≡ ttl) × (0 < n)
unfolding check_request
check_request_ttl low key_prefix provider label ttl h = ground arith

module _ (r : Redis) (low : LowerCase) where
  open r use {Server, get, pttl, wait}

  -- The server after a call.
  unfoldable pub after : Call → Server → Server
  after (acquires d key_prefix provider label ttl token) s =
      (acquire r low d key_prefix provider label ttl token s).0
  after (joins d key_prefix provider label ttl token) s =
      (join_lease r low d key_prefix provider label ttl token s).0
  after (renews d l) s = (renew r d l s).0
  after (recovers d l) s = (renew_or_reacquire r d l s).0
  after (releases d l) s = (release r d l s).0
  after (deletes d target expected l) s = (guarded_delete r d target expected l s).0
  after (passes n) s = wait n s

  unfoldable pub run : List Call → Server → Server
  run [] s = s
  run (c ∷ cs) s = run cs (after c s)

pub send-Kept :
    (r : Redis) {A : Type 0} (k : Text) (d : Delivery) (f : r.Server → r.Server × A) (s : r.Server)
    → Kept r k s (f s).0
    → Kept r k s (send r d f s).0
unfolding send
send-Kept r k delivered f s h = h
send-Kept r k request_lost f s h = Kept-refl r k s
send-Kept r k reply_lost f s h = h

module _ (r : Redis) where
  open r use {Server}

  pub settle_renewal_server :
      (op : Operation) (l : Lease) (p : Server × Option ℤ) → (settle_renewal r op l p).0 ≡ p.0
  unfolding settle_renewal
  settle_renewal_server op l (s, none) = refl
  settle_renewal_server op l (s, some n) = ground arith

  pub settle_release_server : (l : Lease) (p : Server × Option ℤ) → (settle_release r l p).0 ≡ p.0
  unfolding settle_release
  settle_release_server l (s, none) = refl
  settle_release_server l (s, some n) = refl

  pub settle_delete_server : (l : Lease) (p : Server × Option ℤ) → (settle_delete r l p).0 ≡ p.0
  unfolding settle_delete
  settle_delete_server l (s, none) = refl
  settle_delete_server l (s, some n) = refl

  pub settle_acquire_server :
      (x t : Text) (c : Text × ℕ) (p : Server × Option Bool) → (settle_acquire r x t c p).0 ≡ p.0
  unfolding settle_acquire
  settle_acquire_server x t (k, n) (s, none) = refl
  settle_acquire_server x t (k, n) (s, some b) = refl

  pub settle_join_server :
      (x t : Text) (c : Text × ℕ) (p : Server × Option ℤ) → (settle_join r x t c p).0 ≡ p.0
  unfolding settle_join
  settle_join_server x t (k, n) (s, none) = refl
  settle_join_server x t (k, n) (s, some b) = refl
