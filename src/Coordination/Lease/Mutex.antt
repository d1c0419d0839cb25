-- ===== src/Coordination/Lease/Mutex.antt =====
-- Mutual exclusion between processes that acquire and join leases
-- (src/coordination/redis-credential-lease.js).
use aimgr.Prelude.{
  ℕ, ◌<◌, ◌≡◌, refl, sym, ◌∙◌, ◌≢◌, true, false, Option, none, some, List, Text, All, LowerCase,
  Result, ok, err, arith, inl, inr, Bool, ◌>>◌, ensure, Option-cases, same_iff, same_refl,
}
use aimgr.Coordination.Redis.{Redis}
use aimgr.Coordination.Keys.{KeyError, build_credential_lease_key}
use aimgr.Coordination.Lease.Scripts.{renew_or_reacquire_script, succeeded}
use aimgr.Coordination.Lease.Calls.{Call, Foreign, elapsed, run, check_request_ttl}
use aimgr.Coordination.Lease.Exclusion.{run_held}
use aimgr.Coordination.Lease.Handle.{
  Delivery, delivered, request_lost, reply_lost, LeaseError, Lease, check_request, send,
  invalid_token, settle_acquire, acquire_checked, acquire, settle_join, join_checked, join_lease,
  create_credential_lease,
}

pub ok_inj : {a b : Text} → ◌≡◌ {A = Result KeyError Text} (ok a) (ok b) → a ≡ b
ok_inj h = cc

pub check_request_key :
    (low : LowerCase) (x provider label : Text) (ttl : ℕ) {key : Text} {n : ℕ}
    → check_request low x provider label ttl ≡ ok (key, n)
    → build_credential_lease_key low x provider label ≡ ok key
unfolding check_request
check_request_key low x provider label ttl h = ground arith

module _ (r : Redis) (low : LowerCase) where
  open r use {
    Server, get, pttl, set_nx_px, set_nx_px_free, set_nx_px_taken, get-set_px, pttl-set_px,
  }

  -- What a grant gives its owner.
  pub record IsGranted (s s' : Server) (token : Text) (ttl : ℕ) (m : Lease) : Type 0 where
    pub was_free : get s m.key ≡ none
    pub owned : get s' m.key ≡ some token
    pub timed : pttl s' m.key ≡ some ttl
    pub bearer : m.token ≡ token

  settle_acquire-IsGranted :
      (x token key : Text) (n : ℕ) (d : Delivery) (s : Server) {s' : Server} {m : Lease}
      → 0 < n
      → settle_acquire r x token (key, n) (send r d (λ t. set_nx_px t key token n) s)
        ≡ (s', ok (some m))
      → IsGranted s s' token n m
  unfolding settle_acquire send create_credential_lease
  settle_acquire-IsGranted x token key n delivered s p h = elim (Option-cases (get s key)) [
    | inl e ↦ ground (
      arith,
      set_nx_px_free s key token n e,
      get-set_px s key token n key p,
      pttl-set_px s key token n key p,
      same_refl key,
    )
    | inr (w, e) ↦ ground (arith, set_nx_px_taken s key token n w e)
  ]
  settle_acquire-IsGranted x token key n request_lost s p h = cc
  settle_acquire-IsGranted x token key n reply_lost s p h = cc

  acquire_checked-IsGranted :
      (x token : Text) (q : Result LeaseError (Text × ℕ)) (d : Delivery) (s : Server) (ttl : ℕ)
      {s' : Server} {m : Lease}
      → ((key : Text) (n : ℕ) → q ≡ ok (key, n) → (n ≡ ttl) × (0 < n))
      → acquire_checked r d x token q s ≡ (s', ok (some m))
      → IsGranted s s' token ttl m
  unfolding acquire_checked
  acquire_checked-IsGranted x token (err e) d s ttl v h = cc
  acquire_checked-IsGranted x token (ok (key, n)) d s ttl v h =
      rw (← (v key n refl).0) (settle_acquire-IsGranted x token key n d s (v key n refl).1 h)

  -- A lease is only granted while nobody holds its key; the server then holds the fresh token under
  -- the key, for the whole time to live.
  pub acquire-IsGranted :
      (d : Delivery) (x provider label : Text) (ttl : ℕ) (token : Text) (s s' : Server) (m : Lease)
      → acquire r low d x provider label ttl token s ≡ (s', ok (some m))
      → IsGranted s s' token ttl m
  unfolding acquire
  acquire-IsGranted d x provider label ttl token s s' m h =
      acquire_checked-IsGranted x token _ d s ttl
        (λ key n e. check_request_ttl low x provider label ttl e) h

  -- No lease comes out of a request for a key that another token holds.
  abbrev Refused : Server × Result LeaseError (Option Lease) → Type 0
  Refused g = (m : Lease) → g.1 ≢ ok (some m)

  module _ (key t token : Text) (u : Server) (held : get u key ≡ some t) where
    acquire_checked-Refused :
        (d : Delivery) (x : Text) (q : Result LeaseError (Text × ℕ))
        → ((k : Text) (n : ℕ) → q ≡ ok (k, n) → k ≡ key)
        → Refused (acquire_checked r d x token q u)
    unfolding acquire_checked settle_acquire send
    acquire_checked-Refused d x (err e) v m h = cc
    acquire_checked-Refused delivered x (ok (k, n)) v m h =
        ground (arith, v k n refl, set_nx_px_taken u k token n t)
    acquire_checked-Refused request_lost x (ok (k, n)) v m h = cc
    acquire_checked-Refused reply_lost x (ok (k, n)) v m h = cc

    join_checked-Refused :
        (d : Delivery) (x : Text) (q : Result LeaseError (Text × ℕ))
        → ((k : Text) (n : ℕ) → q ≡ ok (k, n) → k ≡ key)
        → token ≢ t
        → Refused (join_checked r d x token q u)
    unfolding join_checked settle_join send renew_or_reacquire_script succeeded
    join_checked-Refused d x (err e) v ne m h = cc
    join_checked-Refused delivered x (ok (k, n)) v ne m h =
        ground (arith, v k n refl, same_iff t token)
    join_checked-Refused request_lost x (ok (k, n)) v ne m h = cc
    join_checked-Refused reply_lost x (ok (k, n)) v ne m h = cc

pub guarded_key :
    (low : LowerCase) (b : Bool) (x provider label : Text) (ttl : ℕ) {k : Text} {n : ℕ}
    → (do ensure invalid_token b; check_request low x provider label ttl) ≡ ok (k, n)
    → build_credential_lease_key low x provider label ≡ ok k
guarded_key low true x provider label ttl h = check_request_key low x provider label ttl h
guarded_key low false x provider label ttl h = cc

pub guarded_ttl :
    (low : LowerCase) (b : Bool) (x provider label : Text) (ttl : ℕ) {k : Text} {n : ℕ}
    → (do ensure invalid_token b; check_request low x provider label ttl) ≡ ok (k, n)
    → 0 < n
guarded_ttl low true x provider label ttl h = (check_request_ttl low x provider label ttl h).1
guarded_ttl low false x provider label ttl h = cc

module _ (r : Redis) (low : LowerCase) (key t token : Text) (u : r.Server)
    (held : r.get u key ≡ some t) (e : Delivery) (y provider label : Text) (ttl : ℕ)
    (built : build_credential_lease_key low y provider label ≡ ok key) where
  -- While a token holds the key, nothing is granted by acquiring it.
  pub acquire_refused : (m : Lease) → (acquire r low e y provider label ttl token u).1 ≢ ok (some m)
  unfolding acquire
  acquire_refused m =
      acquire_checked-Refused r low key t token u held e y _
        (λ k n q. ok_inj (sym (check_request_key low y provider label ttl q) ∙ built)) m

  -- Nor by joining it under another token.
  pub join_refused :
      token ≢ t → (m : Lease) → (join_lease r low e y provider label ttl token u).1 ≢ ok (some m)
  unfolding join_lease
  join_refused ne m =
      join_checked-Refused r low key t token u held e y _
        (λ k n q. ok_inj (sym (guarded_key low _ y provider label ttl q) ∙ built)) ne m

-- Mutual exclusion. Once a request has been granted a lease, no request for the same key under
-- another token is granted one, neither by acquiring nor by joining, after any calls by others that
-- take less than the time to live together, whatever the network loses.
pub acquire_excludes :
    (r : Redis) (low : LowerCase) (d : Delivery) (x provider label : Text) (ttl : ℕ) (token : Text)
    (s s' : r.Server) (m : Lease)
    → acquire r low d x provider label ttl token s ≡ (s', ok (some m))
    → (cs : List Call) → All (Foreign token) cs
    → elapsed cs < ttl
    → (e : Delivery) (y provider' label' : Text) (ttl' : ℕ) (token' : Text)
    → build_credential_lease_key low y provider' label' ≡ ok m.key
    → token' ≢ token
    → (m' : Lease)
    → ((acquire r low e y provider' label' ttl' token' (run r low cs s')).1 ≢ ok (some m'))
      × ((join_lease r low e y provider' label' ttl' token' (run r low cs s')).1 ≢ ok (some m'))
acquire_excludes r low d x provider label ttl token s s' m h cs f time e y provider' label' ttl'
      token' key ne m' =
    let g = acquire-IsGranted r low d x provider label ttl token s s' m h in
    let held = (run_held r low m.key token cs s' ttl g.owned g.timed f time).0 in
    (
      acquire_refused r low m.key token token' _ held e y provider' label' ttl' key m',
      join_refused r low m.key token token' _ held e y provider' label' ttl' key ne m',
    )
