-- ===== src/Coordination/Lease/Behaviour.antt =====
-- Each operation of a lease handle, on every branch
-- (src/coordination/redis-credential-lease.js).
use aimgr.Prelude.{
  ◌<◌, ◌≡◌, ◌≢◌, true, false, none, some, ◌⊎◌, inl, inr, Text, ok, err, arith, Bool-cases,
  Option-cases, if◌then◌else◌, same, same_iff, same_refl,
}
use aimgr.Coordination.Redis.{Redis}
use aimgr.Coordination.Lease.Scripts.{
  holds, renew_script, renew_or_reacquire_script, release_script, guarded_delete_script, succeeded,
  is_zero,
}
use aimgr.Coordination.Lease.Ownership.{holds_iff}
use aimgr.Coordination.Lease.Handle.{
  Delivery, delivered, request_lost, reply_lost, Lease, deactivate, renew, renew_or_reacquire,
  release, guarded_delete, may_delete, Outcome, failed, release_op,
}

module _ (r : Redis) where
  open r use {
    Server, get, pttl, pexpire, del, get-pexpire, pttl-pexpire, pexpire_reply, del_reply, get-del,
    get-set_px, pttl-set_px,
  }

  -- A handle that has lost or released its lease does nothing more: each of its four operations
  -- answers false and leaves the server and the handle as they are.
  pub inactive_inert :
      (d : Delivery) (l : Lease) (target expected : Text) (s : Server)
      → l.active ≡ false
      → (renew r d l s ≡ (s, l, ok false))
        × (renew_or_reacquire r d l s ≡ (s, l, ok false))
        × (release r d l s ≡ (s, l, ok false))
        × (guarded_delete r d target expected l s ≡ (s, l, ok false))
  unfolding renew renew_or_reacquire release guarded_delete
  inactive_inert d l target expected s h = (rw h, rw h, rw h, rw h)

  -- The call answers true, the handle stays, and the key holds the token for a full time to live.
  pub record IsRenewed (l : Lease) (o : Outcome r) : Type 0 where
    pub handle : o.1 ≡ l
    pub reply : o.2 ≡ ok true
    pub value : get o.0 l.key ≡ some l.token
    pub time : pttl o.0 l.key ≡ some l.ttl_ms

  -- The call answers false, the server is unchanged and the handle is dead.
  abbrev pub IsRefused : Lease → Server → Outcome r → Type 0
  IsRefused l s o = o ≡ (s, deactivate l, ok false)

  -- A renewal that reaches the server succeeds if the key holds the handle's token, and then the
  -- full time to live starts again; otherwise it is refused, and the handle is dead.
  pub renew_cases :
      (l : Lease) (s : Server)
      → l.active ≡ true
      → 0 < l.ttl_ms
      → ((get s l.key ≡ some l.token) × IsRenewed l (renew r delivered l s))
        ⊎ ((get s l.key ≢ some l.token) × IsRefused l s (renew r delivered l s))
  unfolding renew renew_script succeeded
  renew_cases l s a p = elim (Bool-cases (holds (get s l.key) l.token)) [
    | inl h ↦ inl (
        ground (
          arith,
          holds_iff (get s l.key) l.token,
          get-pexpire s l.key l.ttl_ms l.key p,
          pttl-pexpire s l.key l.ttl_ms l.key l.token p,
          pexpire_reply s l.key l.ttl_ms l.token,
          same_refl l.key,
        ))
    | inr h ↦ inr (λ e. ground (arith, holds_iff (get s l.key) l.token), ground arith)
  ]

  -- Recovery succeeds if the key is absent or holds the handle's token, and then the key holds the
  -- token for a full time to live. A replacement owner wins: the recovery is refused.
  pub renew_or_reacquire_cases :
      (l : Lease) (s : Server)
      → l.active ≡ true
      → 0 < l.ttl_ms
      → (((get s l.key ≡ none) ⊎ (get s l.key ≡ some l.token))
          × IsRenewed l (renew_or_reacquire r delivered l s))
        ⊎ ((t : Text) × (get s l.key ≡ some t)
            × (t ≢ l.token)
            × IsRefused l s (renew_or_reacquire r delivered l s))
  unfolding renew_or_reacquire renew_or_reacquire_script succeeded
  renew_or_reacquire_cases l s a p = elim (Option-cases (get s l.key)) [
    | inl e ↦ inl (
      inl e,
      ground (
        arith,
        get-set_px s l.key l.token l.ttl_ms l.key p,
        pttl-set_px s l.key l.token l.ttl_ms l.key p,
        same_refl l.key,
      ),
    )
    | inr (w, e) ↦ elim (Bool-cases (same w l.token)) [
      | inl h ↦ inl (
        inr (ground (arith, same_iff w l.token)),
        ground (
          arith,
          same_iff w l.token,
          get-pexpire s l.key l.ttl_ms l.key p,
          pttl-pexpire s l.key l.ttl_ms l.key w p,
          pexpire_reply s l.key l.ttl_ms w,
          same_refl l.key,
        ),
      )
      | inr h ↦ inr (w, e, λ q. ground (arith, same_iff w l.token), ground arith)
    ]
  ]

  -- A release that reaches the server ends the handle. If the key still holds the handle's token,
  -- the key is freed and no other key changes its value; otherwise the release is refused.
  pub release_cases :
      (l : Lease) (s : Server) (j : Text)
      → l.active ≡ true
      → ((get s l.key ≡ some l.token)
          × ((release r delivered l s).1 ≡ deactivate l)
          × ((release r delivered l s).2 ≡ ok true)
          × (get (release r delivered l s).0 j ≡ (if same l.key j then none else get s j)))
        ⊎ ((get s l.key ≢ some l.token) × IsRefused l s (release r delivered l s))
  unfolding release release_script succeeded
  release_cases l s j a = elim (Bool-cases (holds (get s l.key) l.token)) [
    | inl h ↦ inl (
      ground (arith, holds_iff (get s l.key) l.token),
      ground arith,
      ground (arith, holds_iff (get s l.key) l.token, del_reply s l.key l.token),
      ground (arith, get-del s l.key j),
    )
    | inr h ↦ inr (λ e. ground (arith, holds_iff (get s l.key) l.token), ground arith)
  ]

  -- The four ways in which a guarded deletion that is allowed and delivered can end.
  pub data Deletes (l : Lease) (target expected : Text) (s : Server) (o : Outcome r) : Type 0 where
    deleted :
        get s l.key ≡ some l.token
        → get s target ≡ some expected
        → o.1 ≡ l
        → o.2 ≡ ok true
        → ((j : Text) → get o.0 j ≡ (if same target j then none else get s j))
        → Deletes l target expected s o
    changed :
        get s l.key ≡ some l.token
        → get s target ≢ some expected
        → o ≡ (s, l, ok false)
        → Deletes l target expected s o
    lost : get s l.key ≢ some l.token → IsRefused l s o → Deletes l target expected s o

  -- A guarded deletion deletes the target, and nothing else, exactly if the handle owns the lease
  -- and the target has the expected value. With another value the lease stays usable; without the
  -- lease the handle is dead.
  pub guarded_delete_cases :
      (l : Lease) (target expected : Text) (s : Server)
      → may_delete l target expected ≡ true
      → Deletes l target expected s (guarded_delete r delivered target expected l s)
  unfolding guarded_delete guarded_delete_script succeeded is_zero
  guarded_delete_cases l target expected s a = elim (Bool-cases (holds (get s l.key) l.token)) [
    | inr h ↦ lost (λ e. ground (arith, holds_iff (get s l.key) l.token)) (ground arith)
    | inl h ↦ elim (Bool-cases (holds (get s target) expected)) [
      | inl v ↦
          deleted (ground (arith, holds_iff (get s l.key) l.token))
            (ground (arith, holds_iff (get s target) expected))
            (ground (arith, holds_iff (get s target) expected, del_reply s target expected))
            (ground (arith, holds_iff (get s target) expected, del_reply s target expected))
            (λ j. ground (arith, get-del s target j))
      | inr v ↦
          changed (ground (arith, holds_iff (get s l.key) l.token))
            (λ e. ground (arith, holds_iff (get s target) expected)) (ground arith)
    ]
  ]

  -- A guarded deletion never removes or changes the lease key itself, whatever the network loses.
  pub guarded_delete-keeps_lease :
      (d : Delivery) (l : Lease) (target expected : Text) (s : Server)
      → get (guarded_delete r d target expected l s).0 l.key ≡ get s l.key
  unfolding guarded_delete guarded_delete_script may_delete
  guarded_delete-keeps_lease delivered l target expected s =
      ground (arith, get-del s target l.key, same_iff target l.key)
  guarded_delete-keeps_lease request_lost l target expected s = ground arith
  guarded_delete-keeps_lease reply_lost l target expected s =
      ground (arith, get-del s target l.key, same_iff target l.key)

  -- A release whose reply is lost throws and keeps the handle, so it can be repeated. The repetition
  -- ends the handle, and together they leave every key as one delivered release would.
  pub release_retry :
      (l : Lease) (s : Server) (j : Text)
      → l.active ≡ true
      → ((release r reply_lost l s).1 ≡ l)
        × ((release r reply_lost l s).2 ≡ err (failed release_op))
        × ((release r delivered l (release r reply_lost l s).0).1 ≡ deactivate l)
        × (get (release r delivered l (release r reply_lost l s).0).0 j
            ≡ get (release r delivered l s).0 j)
  unfolding release release_script
  release_retry l s j a = (ground arith, ground arith, ground arith, again)
    where
      again :
          get (release r delivered l (release r reply_lost l s).0).0 j
          ≡ get (release r delivered l s).0 j
      again = elim (Bool-cases (holds (get s l.key) l.token)) [
        | inl h ↦ ground (
          arith,
          holds_iff (get (del s l.key).0 l.key) l.token,
          get-del s l.key l.key,
          same_refl l.key,
        )
        | inr h ↦ ground arith
      ]
