-- ===== src/Coordination/Lease/Ownership.antt =====
-- What a script does to a lease key: to its own, and to one that another token holds
-- (src/coordination/redis-credential-lease.js).
use aimgr.Prelude.{
  ℕ, ◌<◌, ◌≡◌, refl, ◌≢◌, ◌↔◌, inl, inr, true, false, Option, none, some, Text, same, same_iff,
  arith, Bool-cases, Option-cases,
}
use aimgr.Coordination.Redis.{Redis}
use aimgr.Coordination.Lease.Scripts.{
  holds, renew_script, renew_or_reacquire_script, release_script, guarded_delete_script,
}

pub same_ne : (s t : Text) → s ≢ t → same s t ≡ false
same_ne s t h = elim (Bool-cases (same s t)) [ inl e ↦ absurd (h ((same_iff s t).0 e)) | inr e ↦ e ]

pub holds_iff : (o : Option Text) (t : Text) → (holds o t ≡ true) ↔ (o ≡ some t)
unfolding holds
holds_iff none t = ground arith
holds_iff (some v) t = ground (arith, same_iff v t)

module _ (r : Redis) where
  open r use {
    Server, get, pttl, set_px, pexpire, del, get-set_px, pttl-set_px, pexpire_reply, get-pexpire,
    pttl-pexpire, del_reply, get-del, pttl-del,
  }

  -- A key keeps its value and its remaining time.
  pub record Kept (k : Text) (s s' : Server) : Type 0 where
    pub value : get s' k ≡ get s k
    pub time : pttl s' k ≡ pttl s k

  pub Kept-refl : (k : Text) (s : Server) → Kept k s s
  Kept-refl k s = record { value = refl; time = refl }

  module _ (k t : Text) (s : Server) (held : get s k ≡ some t) where
    -- A stale owner's renewal leaves the key of another owner alone.
    pub renew_script-Kept :
        (key token : Text) (ttl : ℕ)
        → 0 < ttl
        → token ≢ t
        → Kept k s (renew_script r key token ttl s).0
    unfolding renew_script
    renew_script-Kept key token ttl p ne = ground (
      arith,
      holds_iff (get s key) token,
      get-pexpire s key ttl k p,
      pttl-pexpire s key ttl k token p,
      same_iff key k,
    )

    pub reacquire_script-Kept :
        (key token : Text) (ttl : ℕ)
        → 0 < ttl
        → token ≢ t
        → Kept k s (renew_or_reacquire_script r key token ttl s).0
    unfolding renew_or_reacquire_script
    reacquire_script-Kept key token ttl p ne = elim (Option-cases (get s key)) [
      | inl e ↦ rw e (
          ground (
            arith,
            get-set_px s key token ttl k p,
            pttl-set_px s key token ttl k p,
            same_iff key k,
          ))
      | inr (w, e) ↦ rw e (
          ground (
            arith,
            get-pexpire s key ttl k p,
            pttl-pexpire s key ttl k w p,
            same_iff w token,
            same_iff key k,
          ))
    ]

    pub release_script-Kept :
        (key token : Text) → token ≢ t → Kept k s (release_script r key token s).0
    unfolding release_script
    release_script-Kept key token ne =
        ground
          (arith, holds_iff (get s key) token, get-del s key k, pttl-del s key k, same_iff key k)

    pub guarded_delete_script-Kept :
        (key target token expected : Text)
        → expected ≢ t
        → Kept k s (guarded_delete_script r key target token expected s).0
    unfolding guarded_delete_script
    guarded_delete_script-Kept key target token expected ne = ground (
      arith,
      holds_iff (get s target) expected,
      get-del s target k,
      pttl-del s target k,
      same_iff target k,
    )

    pub set_nx-Kept :
        (key token : Text) (ttl : ℕ) → 0 < ttl → Kept k s (r.set_nx_px s key token ttl).0
    set_nx-Kept key token ttl p = elim (Option-cases (get s key)) [
      | inl e ↦ rw (r.set_nx_px_free s key token ttl e) (
          ground (
            arith,
            get-set_px s key token ttl k p,
            pttl-set_px s key token ttl k p,
            same_iff key k,
          ))
      | inr (w, e) ↦ rw (r.set_nx_px_taken s key token ttl w e) (Kept-refl k s)
    ]
