-- ===== src/Targets/MachineLease/Joins.antt =====
-- Joining the lease of a machine (src/targets/claude-machine-lease.js).
use aimgr.Prelude.{
  ℕ, ◌≡◌, refl, sym, ap, ◌≢◌, Bool, true, false, Option, none, some, Text, same_iff, LowerCase, ok,
  err,
}
use aimgr.Coordination.Redis.{Redis}
use aimgr.Coordination.Keys.{build_credential_lease_key}
use aimgr.Coordination.Lease.Handle.{Delivery, Lease, default_lease_ttl_ms, Grant}
use aimgr.Coordination.Lease.Mutex.{acquire_refused, join_refused}
use aimgr.Coordination.Lease.Exclusion.{join_keeps}
use aimgr.Coordination.Lease.Grants.{Grants, acquire-Grants, join-Grants}
use aimgr.Targets.MachineLease.Laws.{mem, mem-append_last}
use aimgr.Targets.MachineLease.{
  Holder, read_holder, is_token_of, siblings_of, joined_holder, settle_machine_join, or_acquire,
  join_or_acquire, join_machine_claude_lease, Joined,
}

module _ (r : Redis) (low : LowerCase) (is_alive : ℕ → Bool) (key : Text) (pid : ℕ) where
  open r use {get}

  -- What a successful join leaves: the lease is under the account's key, the server holds its token
  -- there, and the machine's file names that token and lists the session.
  pub record IsJoined (m : Lease) (o : Joined r low is_alive) : Type 0 where
    pub under : m.key ≡ key
    pub owned : get o.0 key ≡ some m.token
    pub holder : (h : Holder) × (o.1 ≡ some h) × (h.token ≡ m.token) × (mem pid h.members ≡ true)

module _ (r : Redis) (low : LowerCase) (is_alive : ℕ → Bool) (d e : Delivery)
    (x provider label key : Text) (built : build_credential_lease_key low x provider label ≡ ok key)
    (fresh : Text) (pid : ℕ) where
  open r use {Server, get}

  or_acquire-Grants :
      (g : Grant r) (m : Lease)
      → (g.1 ≡ ok (some m) → Grants r key g m)
      → (or_acquire r low is_alive e x provider label fresh g).1 ≡ ok (some m)
      → Grants r key (or_acquire r low is_alive e x provider label fresh g) m
  unfolding or_acquire
  or_acquire-Grants (s, err z) m v h = cc
  or_acquire-Grants (s, ok none) m v h =
      acquire-Grants r low e x provider label key default_lease_ttl_ms built fresh s m h
  or_acquire-Grants (s, ok (some l)) m v h = v h

  join_or_acquire-Grants :
      (holder : Option Holder) (s : Server) (m : Lease)
      → (join_or_acquire r low is_alive d e x provider label fresh holder s).1 ≡ ok (some m)
      → Grants r key (join_or_acquire r low is_alive d e x provider label fresh holder s) m
  unfolding join_or_acquire
  join_or_acquire-Grants none s m h = or_acquire-Grants (s, ok none) m (λ q. cc) h
  join_or_acquire-Grants (some o) s m h =
      or_acquire-Grants _ m
        (join-Grants r low d x provider label key default_lease_ttl_ms built o.token s m) h

  settle-IsJoined :
      (file holder : Option Holder) (g : Grant r) (m : Lease) (n : ℕ)
      → (g.1 ≡ ok (some m) → Grants r key g m)
      → (settle_machine_join r low is_alive pid file holder g).2 ≡ ok (some (m, n))
      → IsJoined r low is_alive key pid m (settle_machine_join r low is_alive pid file holder g)
  unfolding settle_machine_join
  settle-IsJoined file holder (s, err z) m n v h = cc
  settle-IsJoined file holder (s, ok none) m n v h = cc
  settle-IsJoined file holder (s, ok (some l)) m n v h =
      let same_lease : l ≡ m = cc in
      let g = v (ap (λ z. ok (some z)) same_lease) in
      record {
        under = g.under;
        owned = g.held;
        holder = (
          joined_holder pid l.token (siblings_of is_alive pid l.token holder),
          refl,
          cc same_lease,
          mem-append_last pid (siblings_of is_alive pid l.token holder),
        );
      }

  -- Whatever the network does, a join that returns a lease leaves the machine coherent: the lease is
  -- under the account's key, the key holds the lease's token, and so does the holder file, which
  -- lists the new session.
  pub join_machine-IsJoined :
      (file : Option Holder) (s : Server) (m : Lease) (n : ℕ)
      → (join_machine_claude_lease r low is_alive d e x provider label fresh pid file s).2
        ≡ ok (some (m, n))
      → IsJoined r low is_alive key pid m
          (join_machine_claude_lease r low is_alive d e x provider label fresh pid file s)
  unfolding join_machine_claude_lease
  join_machine-IsJoined file s m n h =
      settle-IsJoined file (read_holder file) _ m n (join_or_acquire-Grants (read_holder file) s m)
        h

  module _ (t : Text) (s : Server) (held : get s key ≡ some t) where
    or_acquire_refused :
        (g : Grant r)
        → ((m : Lease) → g.1 ≢ ok (some m))
        → get g.0 key ≡ some t
        → (m : Lease) → (or_acquire r low is_alive e x provider label fresh g).1 ≢ ok (some m)
    unfolding or_acquire
    or_acquire_refused (u, err z) v k m h = cc
    or_acquire_refused (u, ok (some l)) v k m h = v l refl
    or_acquire_refused (u, ok none) v k m h =
        acquire_refused r low key t fresh u k e x provider label default_lease_ttl_ms built m h

    join_or_acquire_refused :
        (holder : Option Holder)
        → is_token_of t holder ≡ false
        → (m : Lease)
        → (join_or_acquire r low is_alive d e x provider label fresh holder s).1 ≢ ok (some m)
    unfolding join_or_acquire is_token_of
    join_or_acquire_refused none ne = or_acquire_refused (s, ok none) (λ m q. cc) held
    join_or_acquire_refused (some o) ne =
        or_acquire_refused _
          (join_refused r low key t o.token s held d x provider label default_lease_ttl_ms built
            other)
          (join_keeps r low key t s held d x provider label default_lease_ttl_ms o.token other)
      where
        other : o.token ≢ t
        other q = cc (ne, (same_iff t o.token).1 (sym q))

    settle_refused :
        (file holder : Option Holder) (g : Grant r)
        → ((m : Lease) → g.1 ≢ ok (some m))
        → (p : Lease × ℕ)
        → ((settle_machine_join r low is_alive pid file holder g).2 ≢ ok (some p))
          × ((settle_machine_join r low is_alive pid file holder g).1 ≡ file)
    unfolding settle_machine_join
    settle_refused file holder (u, err z) v p = (λ h. cc, refl)
    settle_refused file holder (u, ok none) v p = (λ h. cc, refl)
    settle_refused file holder (u, ok (some l)) v p = absurd (v l refl)

    -- While another token than the holder file's holds the account's key, no session of this machine
    -- is given a lease, and the holder file stays as it is.
    pub join_machine_refused :
        (file : Option Holder)
        → is_token_of t (read_holder file) ≡ false
        → (p : Lease × ℕ)
        → ((join_machine_claude_lease r low is_alive d e x provider label fresh pid file s).2
            ≢ ok (some p))
          × ((join_machine_claude_lease r low is_alive d e x provider label fresh pid file s).1
              ≡ file)
    unfolding join_machine_claude_lease
    join_machine_refused file ne p =
        settle_refused file (read_holder file) _ (join_or_acquire_refused (read_holder file) ne) p
