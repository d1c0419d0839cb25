-- ===== src/Coordination/Lease/Exclusion.antt =====
-- A granted lease excludes every other token until its time runs out
-- (src/coordination/redis-credential-lease.js).
use aimgr.Prelude.{
  ℕ, ◌-◌, ◌<◌, ◌≡◌, refl, ◌∙◌, ap, ◌≢◌, true, false, some, List, [], ◌∷◌, Text, All, LowerCase,
  Result, ok, err, arith, Bool, ◌>>◌, ensure, not, if◌then◌else◌,
}
use aimgr.Coordination.Redis.{Redis}
use aimgr.Coordination.Keys.{is_empty}
use aimgr.Coordination.Lease.Scripts.{
  renew_script, renew_or_reacquire_script, release_script, guarded_delete_script,
}
use aimgr.Coordination.Lease.Ownership.{
  Kept, Kept-refl, renew_script-Kept, reacquire_script-Kept, release_script-Kept,
  guarded_delete_script-Kept, set_nx-Kept,
}
use aimgr.Coordination.Lease.Calls.{
  Call, acquires, joins, renews, recovers, releases, deletes, passes, Foreign, elapsed, elapsed_by,
  after, run, send-Kept, settle_renewal_server, settle_release_server, settle_delete_server,
  settle_acquire_server, settle_join_server, check_request_ttl,
}
use aimgr.Coordination.Lease.Handle
use aimgr.Coordination.Lease.Handle.{
  Delivery, delivered, request_lost, reply_lost, Operation, renewal, recovery, LeaseError, Lease,
  check_request, send, settle_renewal, renew, renew_or_reacquire, settle_release, release,
  settle_delete, guarded_delete, may_delete, settle_acquire, acquire_checked, acquire, settle_join,
  join_checked, join_lease, Outcome,
}

module _ (r : Redis) (low : LowerCase) (k t : Text) (s : r.Server) (held : r.get s k ≡ some t) where
  open r use {Server, get, pttl, wait, get-wait_live, pttl-wait, set_nx_px}

  acquire_checked-Kept :
      (d : Delivery) (x token : Text) (q : Result LeaseError (Text × ℕ))
      → ((key : Text) (n : ℕ) → q ≡ ok (key, n) → 0 < n)
      → Kept r k s (acquire_checked r d x token q s).0
  unfolding acquire_checked
  acquire_checked-Kept d x token (err e) h = Kept-refl r k s
  acquire_checked-Kept d x token (ok (key, n)) h = rw (settle_acquire_server r x token (key, n) _) (
      send-Kept r k d (λ u. set_nx_px u key token n) s
        (set_nx-Kept r k t s held key token n (h key n refl)))

  join_checked-Kept :
      (d : Delivery) (x token : Text) (q : Result LeaseError (Text × ℕ))
      → ((key : Text) (n : ℕ) → q ≡ ok (key, n) → 0 < n)
      → token ≢ t
      → Kept r k s (join_checked r d x token q s).0
  unfolding join_checked
  join_checked-Kept d x token (err e) h ne = Kept-refl r k s
  join_checked-Kept d x token (ok (key, n)) h ne = rw (settle_join_server r x token (key, n) _) (
      send-Kept r k d (renew_or_reacquire_script r key token n) s
        (reacquire_script-Kept r k t s held key token n (h key n refl) ne))

  request_positive :
      (key_prefix provider label : Text) (ttl : ℕ) (key : Text) (n : ℕ)
      → check_request low key_prefix provider label ttl ≡ ok (key, n)
      → 0 < n
  request_positive key_prefix provider label ttl key n e =
      (check_request_ttl low key_prefix provider label ttl e).1

  -- A call that is not sent changes nothing.
  if_Kept :
      (b : Bool) (x y : Outcome r)
      → Kept r k s x.0
      → Kept r k s y.0
      → Kept r k s (if b then x else y).0
  if_Kept true x y hx hy = hx
  if_Kept false x y hx hy = hy

  -- A live lease after time has passed, and after a call that keeps the key.
  abbrev Held : Server → ℕ → Type 0
  Held u n = (get u k ≡ some t) × (pttl u k ≡ some n)

  Held-of_Kept : (u : Server) (n : ℕ) → pttl s k ≡ some n → Kept r k s u → Held u (n - 0)
  Held-of_Kept u n p kept = (kept.value ∙ held, kept.time ∙ p ∙ ap some (omega arith))

  after-Held :
      (c : Call) (n : ℕ)
      → Foreign t c
      → pttl s k ≡ some n
      → elapsed_by c < n
      → Held (after r low c s) (n - elapsed_by c)
  unfolding after elapsed_by acquire join_lease renew renew_or_reacquire release guarded_delete
  after-Held (acquires d x provider label ttl token) n f p e =
      Held-of_Kept _ n p (acquire_checked-Kept d x token _ (request_positive x provider label ttl))
  after-Held (joins d x provider label ttl token) n f p e =
      Held-of_Kept _ n p (join_checked-Kept d x token _ (guarded_positive (not (is_empty token))) f)
    where
      guarded_positive :
          (b : Bool) (key : Text) (m : ℕ)
          → (do ensure Handle.invalid_token b; check_request low x provider label ttl) ≡ ok (key, m)
          → 0 < m
      guarded_positive true key m q = request_positive x provider label ttl key m q
      guarded_positive false key m q = cc
  after-Held (renews d l) n f p e = Held-of_Kept _ n p (
      if_Kept l.active _ _
        (rw (settle_renewal_server r renewal l _) (
          send-Kept r k d (renew_script r l.key l.token l.ttl_ms) s
            (renew_script-Kept r k t s held l.key l.token l.ttl_ms f.1 f.0)))
        (Kept-refl r k s))
  after-Held (recovers d l) n f p e = Held-of_Kept _ n p (
      if_Kept l.active _ _
        (rw (settle_renewal_server r recovery l _) (
          send-Kept r k d (renew_or_reacquire_script r l.key l.token l.ttl_ms) s
            (reacquire_script-Kept r k t s held l.key l.token l.ttl_ms f.1 f.0)))
        (Kept-refl r k s))
  after-Held (releases d l) n f p e = Held-of_Kept _ n p (
      if_Kept l.active _ _
        (rw (settle_release_server r l _) (
          send-Kept r k d (release_script r l.key l.token) s
            (release_script-Kept r k t s held l.key l.token f)))
        (Kept-refl r k s))
  after-Held (deletes d target expected l) n f p e = Held-of_Kept _ n p (
      if_Kept (may_delete l target expected) _ _
        (rw (settle_delete_server r l _) (
          send-Kept r k d (guarded_delete_script r l.key target l.token expected) s
            (guarded_delete_script-Kept r k t s held l.key target l.token expected f)))
        (Kept-refl r k s))
  after-Held (passes m) n f p e = (get-wait_live s m n k p e ∙ held, pttl-wait s m n k p e)

-- A join under another token leaves a held key alone.
pub join_keeps :
    (r : Redis) (low : LowerCase) (k t : Text) (s : r.Server)
    → r.get s k ≡ some t
    → (d : Delivery) (x provider label : Text) (ttl : ℕ) (token : Text) → token ≢ t
    → r.get (join_lease r low d x provider label ttl token s).0 k ≡ some t
unfolding join_lease
join_keeps r low k t s held d x provider label ttl token ne =
    (join_checked-Kept r low k t s held d x token _ (guarded_positive (not (is_empty token)))
      ne).value
    ∙ held
  where
    guarded_positive :
        (b : Bool) (key : Text) (m : ℕ)
        → (do ensure Handle.invalid_token b; check_request low x provider label ttl) ≡ ok (key, m)
        → 0 < m
    guarded_positive true key m q = (check_request_ttl low x provider label ttl q).1
    guarded_positive false key m q = cc

module _ (r : Redis) (low : LowerCase) (k t : Text) where
  open r use {Server, get, pttl}

  -- A lease outlives any calls of others, in any order and whatever the network loses, as long as
  -- they take less time than is left: the key still holds the owner's token, and no time is lost
  -- but the time that passed.
  pub run_held :
      (cs : List Call) (s : Server) (n : ℕ)
      → get s k ≡ some t
      → pttl s k ≡ some n
      → All (Foreign t) cs
      → elapsed cs < n
      → (get (run r low cs s) k ≡ some t) × (pttl (run r low cs s) k ≡ some (n - elapsed cs))
  unfolding run elapsed
  run_held [] s n h p f e = (h, p ∙ ap some (omega arith))
  run_held (c ∷ cs) s n h p f e =
      let (h', p') = after-Held r low k t s h c n f.0 p (omega arith) in
      let (h'', p'') = run_held cs (after r low c s) (n - elapsed_by c) h' p' f.1 (omega arith) in
      (h'', p'' ∙ ap some (omega arith))
