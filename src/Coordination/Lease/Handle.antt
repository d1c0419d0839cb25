-- ===== src/Coordination/Lease/Handle.antt =====
-- The lease handle of src/coordination/redis-credential-lease.js. A handle lives in one process; a
-- call travels to the server, and the network may lose the request or only the reply.
use aimgr.Prelude.{
  ℕ, Bool, true, false, not, ◌&&◌, Option, none, some, Text, same, starts_with, LowerCase, Result,
  ok, err, ◌>>=◌, ◌>>◌, ensure, ℤ, leb, if◌then◌else◌,
}
use aimgr.Coordination.Redis.{Redis}
use aimgr.Coordination.Keys.{KeyError, is_empty, normalize_key_prefix, build_credential_lease_key}
use aimgr.Coordination.Lease.Scripts.{
  succeeded, is_zero, renew_script, renew_or_reacquire_script, release_script,
  guarded_delete_script,
}

pub data Operation : Type 0 where
  acquisition join renewal release_op recovery guarded_deletion : Operation

pub data LeaseError : Type 0 where
  invalid_ttl invalid_token : LeaseError
  invalid_key : KeyError → LeaseError
  -- `redisLeaseError(operation)`.
  failed : Operation → LeaseError

-- What became of one call to the server.
pub data Delivery : Type 0 where
  delivered request_lost reply_lost : Delivery

-- DEFAULT_REDIS_CREDENTIAL_LEASE_TTL_MS and MAX_REDIS_CREDENTIAL_LEASE_TTL_MS.
abbrev pub default_lease_ttl_ms : ℕ
default_lease_ttl_ms = 30_000

abbrev pub max_lease_ttl_ms : ℕ
max_lease_ttl_ms = 3_600_000

unfoldable pub normalize_lease_ttl_ms : ℕ → Result LeaseError ℕ
normalize_lease_ttl_ms value =
    if leb 1 value && leb value max_lease_ttl_ms then ok value else err invalid_ttl

-- What the closures of `createCredentialLease` share.
pub record Lease : Type 0 where
  pub key : Text
  pub token : Text
  pub ttl_ms : ℕ
  pub key_prefix : Text
  pub active : Bool

unfoldable pub create_credential_lease : Text → Text → Text → ℕ → Lease
create_credential_lease store_prefix key token ttl = record {
  key = key;
  token = token;
  ttl_ms = ttl;
  key_prefix = normalize_key_prefix store_prefix;
  active = true;
}

unfoldable pub deactivate : Lease → Lease
deactivate l = record l { active = false }

unfoldable pub lift_key : Result KeyError Text → Result LeaseError Text
lift_key (ok k) = ok k
lift_key (err e) = err (invalid_key e)

-- The arguments that `acquireRedisCredentialLease` and `joinRedisCredentialLease` check first.
unfoldable pub check_request : LowerCase → Text → Text → Text → ℕ → Result LeaseError (Text × ℕ)
unfolding normalize_lease_ttl_ms lift_key
check_request low store_prefix provider label ttl = do
  ttl' ← normalize_lease_ttl_ms ttl
  key ← lift_key (build_credential_lease_key low store_prefix provider label)
  ok (key, ttl')

-- The guard of a guarded deletion, before anything is sent.
unfoldable pub may_delete : Lease → Text → Text → Bool
may_delete l target expected =
    l.active
    && starts_with l.key_prefix target
    && not (same target l.key)
    && not (is_empty expected)

module _ (r : Redis) where
  open r use {Server, set_nx_px}

  -- `none` is a rejected promise: the client cannot know whether the server acted.
  unfoldable pub send : {A : Type 0} → Delivery → (Server → Server × A) → Server → Server × Option A
  send delivered f s = let (t, a) = f s in (t, some a)
  send request_lost f s = (s, none)
  send reply_lost f s = ((f s).0, none)

  abbrev pub Outcome : Type 0
  Outcome = Server × Lease × Result LeaseError Bool

  -- `renew` and the recovery capability: a refusal ends the handle.
  unfoldable pub settle_renewal : Operation → Lease → Server × Option ℤ → Outcome
  unfolding deactivate
  settle_renewal op l (s, none) = (s, l, err (failed op))
  settle_renewal op l (s, some reply) =
      if succeeded reply then (s, l, ok true) else (s, deactivate l, ok false)

  unfoldable pub renew : Delivery → Lease → Server → Outcome
  unfolding settle_renewal send
  renew d l s =
      if l.active
      then settle_renewal renewal l (send d (renew_script r l.key l.token l.ttl_ms) s)
      else (s, l, ok false)

  -- `renewOrReacquireRedisCredentialLease`.
  unfoldable pub renew_or_reacquire : Delivery → Lease → Server → Outcome
  unfolding settle_renewal send
  renew_or_reacquire d l s =
      if l.active
      then settle_renewal recovery l (send d (renew_or_reacquire_script r l.key l.token l.ttl_ms) s)
      else (s, l, ok false)

  unfoldable pub settle_release : Lease → Server × Option ℤ → Outcome
  unfolding deactivate
  settle_release l (s, none) = (s, l, err (failed release_op))
  settle_release l (s, some reply) = (s, deactivate l, ok (succeeded reply))

  unfoldable pub release : Delivery → Lease → Server → Outcome
  unfolding settle_release send
  release d l s =
      if l.active
      then settle_release l (send d (release_script r l.key l.token) s)
      else (s, l, ok false)

  unfoldable pub settle_delete : Lease → Server × Option ℤ → Outcome
  unfolding deactivate
  settle_delete l (s, none) = (s, l, err (failed guarded_deletion))
  settle_delete l (s, some reply) =
      (s, if is_zero reply then deactivate l else l, ok (succeeded reply))

  -- `guardedDeleteWithRedisCredentialLease`.
  unfoldable pub guarded_delete : Delivery → Text → Text → Lease → Server → Outcome
  unfolding settle_delete send may_delete
  guarded_delete d target expected l s =
      if may_delete l target expected
      then settle_delete l (send d (guarded_delete_script r l.key target l.token expected) s)
      else (s, l, ok false)

  abbrev pub Grant : Type 0
  Grant = Server × Result LeaseError (Option Lease)

  unfoldable pub settle_acquire : Text → Text → Text × ℕ → Server × Option Bool → Grant
  settle_acquire prefix token (key, ttl) (s, none) = (s, err (failed acquisition))
  settle_acquire prefix token (key, ttl) (s, some set) =
      (s, ok (if set then some (create_credential_lease prefix key token ttl) else none))

  unfoldable pub acquire_checked :
      Delivery → Text → Text → Result LeaseError (Text × ℕ) → Server → Grant
  unfolding settle_acquire send
  acquire_checked d prefix token (err e) s = (s, err e)
  acquire_checked d prefix token (ok (key, ttl)) s =
      settle_acquire prefix token (key, ttl) (send d (λ t. set_nx_px t key token ttl) s)

  -- `acquireRedisCredentialLease`; `token` is the fresh random UUID.
  unfoldable pub acquire : LowerCase → Delivery → Text → Text → Text → ℕ → Text → Server → Grant
  unfolding acquire_checked check_request
  acquire low d prefix provider label ttl token s =
      acquire_checked d prefix token (check_request low prefix provider label ttl) s

  unfoldable pub settle_join : Text → Text → Text × ℕ → Server × Option ℤ → Grant
  settle_join prefix token (key, ttl) (s, none) = (s, err (failed join))
  settle_join prefix token (key, ttl) (s, some reply) = (
    s,
    ok (if succeeded reply then some (create_credential_lease prefix key token ttl) else none),
  )

  unfoldable pub join_checked :
      Delivery → Text → Text → Result LeaseError (Text × ℕ) → Server → Grant
  unfolding settle_join send
  join_checked d prefix token (err e) s = (s, err e)
  join_checked d prefix token (ok (key, ttl)) s =
      settle_join prefix token (key, ttl) (send d (renew_or_reacquire_script r key token ttl) s)

  -- `joinRedisCredentialLease`.
  unfoldable pub join_lease : LowerCase → Delivery → Text → Text → Text → ℕ → Text → Server → Grant
  unfolding join_checked check_request
  join_lease low d prefix provider label ttl token s =
      join_checked d prefix token
        (do
          ensure invalid_token (not (is_empty token))
          check_request low prefix provider label ttl)
        s
