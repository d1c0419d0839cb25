-- ===== src/Coordination/Lease/Scripts.antt =====
-- The four Lua scripts of src/coordination/redis-credential-lease.js. Each is one atomic operation
-- of the server.
use aimgr.Prelude.{
  ℕ, Bool, false, Option, none, some, Text, same, ℤ, pos, negsuc, if◌then◌else◌, ◌==◌,
}
use aimgr.Coordination.Redis.{Redis}

-- `redis.call("GET", key) == value`.
unfoldable pub holds : Option Text → Text → Bool
holds none t = false
holds (some v) t = same v t

-- `Number(value) === 1`.
unfoldable pub succeeded : ℤ → Bool
succeeded (pos n) = n == 1
succeeded (negsuc n) = false

-- `Number(value) === 0`.
unfoldable pub is_zero : ℤ → Bool
is_zero (pos n) = n == 0
is_zero (negsuc n) = false

module _ (r : Redis) where
  open r use {Server, get, set_px, pexpire, del}

  abbrev pub Script : Type 0
  Script = Server → Server × ℤ

  -- A command's number is the reply of the script.
  unfoldable pub answer : Server × ℕ → Server × ℤ
  answer (s, n) = (s, pos n)

  -- RENEW_CREDENTIAL_LEASE_SCRIPT.
  unfoldable pub renew_script : Text → Text → ℕ → Script
  unfolding answer
  renew_script key token ttl s =
      if holds (get s key) token then answer (pexpire s key ttl) else (s, pos 0)

  unfoldable pub reacquire_at : Option Text → Text → Text → ℕ → Script
  unfolding answer
  reacquire_at (some owner) key token ttl s =
      if same owner token then answer (pexpire s key ttl) else (s, pos 0)
  reacquire_at none key token ttl s = (set_px s key token ttl, pos 1)

  -- RENEW_OR_REACQUIRE_CREDENTIAL_LEASE_SCRIPT.
  unfoldable pub renew_or_reacquire_script : Text → Text → ℕ → Script
  unfolding reacquire_at
  renew_or_reacquire_script key token ttl s = reacquire_at (get s key) key token ttl s

  -- RELEASE_CREDENTIAL_LEASE_SCRIPT.
  unfoldable pub release_script : Text → Text → Script
  unfolding answer
  release_script key token s = if holds (get s key) token then answer (del s key) else (s, pos 0)

  -- GUARDED_DELETE_CREDENTIAL_STATE_SCRIPT.
  unfoldable pub guarded_delete_script : Text → Text → Text → Text → Script
  unfolding answer
  guarded_delete_script key target token expected s =
      if holds (get s key) token
      then if holds (get s target) expected then answer (del s target) else (s, negsuc 0)
      else (s, pos 0)
