-- ===== src/Targets/MachineLease.antt =====
-- The lease that all sessions of one machine share (src/targets/claude-machine-lease.js). The
-- holder file is state of the machine, and the directory lock around each operation makes the
-- operation atomic for the machine's other sessions.
pub mod Laws
pub mod Joins
pub mod Sharing
use aimgr.Prelude.{
  ℕ, Bool, true, false, not, ◌&&◌, Option, none, some, List, [], ◌∷◌, ◌++◌, Text, codes, same,
  LowerCase, Result, ok, err, ltb, ◌==◌, filter, length, if◌then◌else◌,
}
use aimgr.Coordination.Redis.{Redis}
use aimgr.Coordination.Keys.{is_empty}
use aimgr.Coordination.Lease.Handle.{
  Delivery, LeaseError, Lease, default_lease_ttl_ms, acquire, join_lease, release, Outcome, Grant,
}

pub record Holder : Type 0 where
  pub token : Text
  pub members : List ℕ

abbrev pub checked_holder : Bool → Holder → Option Holder
checked_holder true h = none
checked_holder false h = some (record h { members = filter (ltb 0) h.members })

-- `readHolder`: a file that is absent, not JSON or without a token reads as no holder.
unfoldable pub read_holder : Option Holder → Option Holder
read_holder none = none
read_holder (some h) = checked_holder (is_empty h.token) h

-- The other members of the file that are still alive.
unfoldable pub live_others : (ℕ → Bool) → ℕ → List ℕ → List ℕ
live_others is_alive pid members = filter (λ m. not (m == pid) && is_alive m) members

-- `token === holder?.token`.
unfoldable pub is_token_of : Text → Option Holder → Bool
is_token_of t none = false
is_token_of t (some h) = same t h.token

-- The siblings that a lease with this token is shared with.
unfoldable pub siblings_of : (ℕ → Bool) → ℕ → Text → Option Holder → List ℕ
unfolding live_others
siblings_of is_alive pid token none = []
siblings_of is_alive pid token (some h) =
    if same token h.token then live_others is_alive pid h.members else []

-- `[...siblings, pid]`.
unfoldable pub joined_holder : ℕ → Text → List ℕ → Holder
joined_holder pid token siblings = record { token = token; members = siblings ++ (pid ∷ []) }

-- `holder !== null && holder.token === token`, and the members that remain then.
unfoldable pub remaining_of : (ℕ → Bool) → ℕ → Text → Option Holder → List ℕ
unfolding siblings_of
remaining_of is_alive pid token holder = siblings_of is_alive pid token holder

pub record Left : Type 0 where
  pub released : Bool
  pub remaining : ℕ

module _ (r : Redis) (low : LowerCase) (is_alive : ℕ → Bool) where
  open r use {Server}

  abbrev pub Joined : Type 0
  Joined = Server × Option Holder × Result LeaseError (Option (Lease × ℕ))

  -- After the server's answers: write the file and count the siblings.
  unfoldable pub settle_machine_join :
      ℕ → Option Holder → Option Holder → Server × Result LeaseError (Option Lease) → Joined
  unfolding joined_holder
  settle_machine_join pid file holder (s, err e) = (s, file, err e)
  settle_machine_join pid file holder (s, ok none) = (s, file, ok none)
  settle_machine_join pid file holder (s, ok (some lease)) =
      let siblings = siblings_of is_alive pid lease.token holder in
      (s, some (joined_holder pid lease.token siblings), ok (some (lease, length siblings)))

  -- `lease ??= await acquire…`.
  unfoldable pub or_acquire :
      Delivery → Text → Text → Text → Text → Server × Result LeaseError (Option Lease) → Grant r
  or_acquire d store_prefix provider label fresh (s, err e) = (s, err e)
  or_acquire d store_prefix provider label fresh (s, ok (some l)) = (s, ok (some l))
  or_acquire d store_prefix provider label fresh (s, ok none) =
      acquire r low d store_prefix provider label default_lease_ttl_ms fresh s

  unfoldable pub join_or_acquire :
      Delivery → Delivery → Text → Text → Text → Text → Option Holder → Server → Grant r
  unfolding or_acquire
  join_or_acquire d e store_prefix provider label fresh none s =
      or_acquire e store_prefix provider label fresh (s, ok none)
  join_or_acquire d e store_prefix provider label fresh (some h) s =
      or_acquire e store_prefix provider label fresh
        (join_lease r low d store_prefix provider label default_lease_ttl_ms h.token s)

  -- `joinMachineClaudeLease`; `fresh` is the token that a new lease would get.
  unfoldable pub join_machine_claude_lease :
      Delivery → Delivery → Text → Text → Text → Text → ℕ → Option Holder → Server → Joined
  unfolding settle_machine_join join_or_acquire
  join_machine_claude_lease d e store_prefix provider label fresh pid file s =
      let holder = read_holder file in
      settle_machine_join pid file holder
        (join_or_acquire d e store_prefix provider label fresh holder s)

  abbrev pub Leaving : Type 0
  Leaving = Server × Lease × Option Holder × Result LeaseError Left

  unfoldable pub settle_leave : Option Holder → Outcome r → Leaving
  settle_leave file (s, l, err e) = (s, l, file, err e)
  settle_leave file (s, l, ok b) = (s, l, file, ok (record { released = b; remaining = 0 }))

  unfoldable pub leave_with :
      Delivery → Lease → Option Holder → Option Holder → List ℕ → Server → Leaving
  unfolding settle_leave
  leave_with d lease file holder [] s =
      settle_leave (if is_token_of lease.token holder then none else file) (release r d lease s)
  leave_with d lease file holder (m ∷ rest) s = (
    s,
    lease,
    some (record { token = lease.token; members = m ∷ rest }),
    ok (record { released = false; remaining = length (m ∷ rest) }),
  )

  -- `leaveMachineClaudeLease`.
  unfoldable pub leave_machine_claude_lease :
      Delivery → Lease → ℕ → Option Holder → Server → Leaving
  unfolding leave_with remaining_of
  leave_machine_claude_lease d lease pid file s =
      let holder = read_holder file in
      leave_with d lease file holder (remaining_of is_alive pid lease.token holder) s
