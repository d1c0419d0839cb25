-- ===== src/Targets/MachineLease/Laws.antt =====
-- Sessions of one machine share a lease, and other machines do not
-- (src/targets/claude-machine-lease.js).
use aimgr.Prelude.{
  ℕ, ◌≡◌, refl, sym, ◌∙◌, ◌≢◌, Bool, true, false, not, ◌&&◌, Option, none, some, List, [], ◌∷◌,
  ◌++◌, Text, same_iff, same_refl, LowerCase, ok, err, ◌==◌, filter, length, if◌then◌else◌, arith,
  inl, inr,
}
use aimgr.Coordination.Redis.{Redis}
use aimgr.Coordination.Keys.{build_credential_lease_key}
use aimgr.Coordination.Lease.Handle.{
  Delivery, delivered, Lease, default_lease_ttl_ms, release, Outcome, check_request, deactivate,
}
use aimgr.Coordination.Lease.Behaviour.{release_cases}
use aimgr.Targets.MachineLease.{
  Holder, read_holder, live_others, is_token_of, siblings_of, settle_leave, Leaving, leave_with,
  leave_machine_claude_lease,
}

-- `members.includes(pid)`.
abbrev pub mem : ℕ → List ℕ → Bool
mem p [] = false
mem p (m ∷ ms) = if m == p then true else mem p ms

mem-filter :
    (test : ℕ → Bool) (p : ℕ) (ms : List ℕ)
    → mem p ms ≡ true
    → test p ≡ true
    → mem p (filter test ms) ≡ true
mem-filter test p [] h t = cc
mem-filter test p (m ∷ ms) h t = ground (arith, mem-filter test p ms)

pub mem-append_last : (p : ℕ) (ms : List ℕ) → mem p (ms ++ (p ∷ [])) ≡ true
mem-append_last p [] = ground arith
mem-append_last p (m ∷ ms) = ground (arith, mem-append_last p ms)

pub check_default :
    (low : LowerCase) (x provider label : Text) (key : Text)
    → build_credential_lease_key low x provider label ≡ ok key
    → check_request low x provider label default_lease_ttl_ms ≡ ok (key, default_lease_ttl_ms)
unfolding check_request
check_default low x provider label key h = ground arith

module _ (r : Redis) (low : LowerCase) (is_alive : ℕ → Bool) where
  open r use {Server, get, pttl, get-set_px, get-pexpire, pexpire_reply}

  -- The server and the handle are untouched, and the holder file keeps the session `q`.
  pub record IsKeptFor (q : ℕ) (lease : Lease) (s : Server) (o : Leaving r low is_alive)
      : Type 0 where
    pub server : o.0 ≡ s
    pub handle : o.1 ≡ lease
    pub holder :
        (h : Holder) × (o.2 ≡ some h)
        × (h.token ≡ lease.token)
        × (mem q h.members ≡ true)
        × (o.3 ≡ ok (record { released = false; remaining = length h.members }))

  leave_with-IsKeptFor :
      (d : Delivery) (lease : Lease) (q : ℕ) (file holder : Option Holder) (l : List ℕ) (s : Server)
      → mem q l ≡ true
      → IsKeptFor q lease s (leave_with r low is_alive d lease file holder l s)
  unfolding leave_with
  leave_with-IsKeptFor d lease q file holder [] s h = cc
  leave_with-IsKeptFor d lease q file holder (m ∷ l) s h = record {
    server = refl;
    handle = refl;
    holder = (record { token = lease.token; members = m ∷ l }, refl, refl, h, refl);
  }

  siblings_of-mem :
      (pid q : ℕ) (token : Text) (h : Holder)
      → h.token ≡ token
      → mem q h.members ≡ true
      → q ≢ pid
      → is_alive q ≡ true
      → mem q (siblings_of is_alive pid token (some h)) ≡ true
  unfolding siblings_of
  siblings_of-mem pid q token h t m ne alive =
      rw ((same_iff token h.token).1 (sym t))
        (mem-filter (λ p. not (p == pid) && is_alive p) q h.members m (ground arith))

  -- A session leaves without touching the server while another live session of the machine shares
  -- the lease, and that session stays in the holder file.
  pub leave_shared :
      (d : Delivery) (lease : Lease) (pid q : ℕ) (file : Option Holder) (h : Holder) (s : Server)
      → read_holder file ≡ some h
      → h.token ≡ lease.token
      → mem q h.members ≡ true
      → q ≢ pid
      → is_alive q ≡ true
      → IsKeptFor q lease s (leave_machine_claude_lease r low is_alive d lease pid file s)
  unfolding leave_machine_claude_lease
  leave_shared d lease pid q file h s e t m ne alive =
      leave_with-IsKeptFor d lease q file (read_holder file) _ s
        (rw e (siblings_of-mem pid q lease.token h t m ne alive))

  settle_leave_ok :
      (file : Option Holder) (o : Outcome r) (l : Lease)
      → o.1 ≡ l
      → o.2 ≡ ok true
      → settle_leave r low is_alive file o
        ≡ (o.0, l, file, ok (record { released = true; remaining = 0 }))
  unfolding settle_leave
  settle_leave_ok file (s, l', ok b) l e h = ground arith
  settle_leave_ok file (s, l', err x) l e h = cc

  leave_with_nil :
      (lease : Lease) (file holder : Option Holder) (l : List ℕ) (s : Server)
      → l ≡ []
      → is_token_of lease.token holder ≡ true
      → leave_with r low is_alive delivered lease file holder l s
        ≡ settle_leave r low is_alive none (release r delivered lease s)
  unfolding leave_with
  leave_with_nil lease file holder [] s e h = rw h
  leave_with_nil lease file holder (m ∷ l) s e h = cc

  -- The last live session releases the lease: if it still owned the key, the key is free
  -- afterwards, the holder file is gone and the handle is dead.
  pub leave_last :
      (lease : Lease) (pid : ℕ) (file : Option Holder) (h : Holder) (s : Server)
      → read_holder file ≡ some h
      → h.token ≡ lease.token
      → live_others is_alive pid h.members ≡ []
      → lease.active ≡ true
      → get s lease.key ≡ some lease.token
      → (s' : Server) × (get s' lease.key ≡ none)
        × (leave_machine_claude_lease r low is_alive delivered lease pid file s
            ≡ (s', deactivate lease, none, ok (record { released = true; remaining = 0 })))
  unfolding leave_machine_claude_lease siblings_of is_token_of
  leave_last lease pid file h s e t l a owned = elim (release_cases r lease s lease.key a) [
    | inr (n, refused) ↦ absurd (n owned)
    | inl (o, handle, reply, gone) ↦ (
      (release r delivered lease s).0,
      rw (same_refl lease.key) at gone,
      leave_with_nil lease file (read_holder file) _ s
            (rw e (rw ((same_iff lease.token h.token).1 (sym t)) l))
            (rw e ((same_iff lease.token h.token).1 (sym t)))
          ∙ settle_leave_ok none (release r delivered lease s) (deactivate lease) handle reply,
    )
  ]
