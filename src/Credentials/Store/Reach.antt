-- ===== src/Credentials/Store/Reach.antt =====
-- Logins along any sequence of stored bundles (src/credentials/claude-native.js).
use aimgr.Prelude.{
  ℕ, ◌≤◌, ◌≡◌, sym, ap, ◌∙◌, subst, inl, inr, Bool, false, Option, some, Text, same, same_iff,
  LowerCase, ok, Bool-cases, lookup_text, arith,
}
use aimgr.Credentials.Bundle.{Dates, Parts, build_claude_native_bundle}
use aimgr.Credentials.Bundle.Laws.{build_claude_native_bundle_idem}
use aimgr.Credentials.Replacement.{StrictIdentity, Replacement}
use aimgr.Credentials.Replacement.Forward.{IsLogin}
use aimgr.Credentials.Store.{Store, set_entry}
use aimgr.Credentials.Store.Write.{persist_anthropic_native_bundle_for_label}
use aimgr.Credentials.Store.Laws.{lookup-set_entry, lookup-set_other}
use aimgr.Credentials.Store.Persist.{IsPersisted, persist-IsPersisted}
use aimgr.Credentials.Store.Safe.{IsSafe, persist-IsSafe, IsHeld, valid-IsForward}

module _ (low : LowerCase) (dates : Dates) where
  -- The stores that calls of `persistAnthropicNativeBundleForLabel` lead to, each at its own time. A
  -- call that throws leaves the store.
  pub data Persists : Store → Store → Type 0 where
    unchanged : {s : Store} → Persists s s
    persisted :
        {s t u : Store} (label : Text) (native : Option Parts) (allow_expired : Bool) (now : ℕ)
        (action : Replacement)
        → persist_anthropic_native_bundle_for_label low dates s label native allow_expired now
          ≡ ok (t, action)
        → Persists t u
        → Persists s u

  -- If at first no two labels hold the same complete login and all labels are normalized, then so it
  -- is after any sequence of calls.
  pub Persists-IsSafe : (s s' : Store) → Persists s s' → IsSafe low dates s → IsSafe low dates s'
  Persists-IsSafe s s' unchanged safe = safe
  Persists-IsSafe s s' (persisted {t = t} label native allow_expired now action h later) safe =
      Persists-IsSafe t s' later
        (persist-IsSafe low dates s label native allow_expired now t action safe h)

  abbrev IsHeldFrom : Store → Text → StrictIdentity → ℕ → Type 0
  IsHeldFrom s l i ms = (k : ℕ) × (ms ≤ k) × IsHeld low dates s l i k

  module _ (s : Store) (label : Text) (native : Option Parts) (allow_expired : Bool) (now : ℕ)
      (s' : Store) (action : Replacement) (l : Text) (i : StrictIdentity) (ms : ℕ)
      (p : IsPersisted low dates s label native allow_expired now s' action)
      (k : IsHeld low dates s l i ms) where
    IsHeld-elsewhere : same (p.key) l ≡ false → IsHeld low dates s' l i ms
    IsHeld-elsewhere h = record {
      credential = k.credential;
      entry =
          ap (lookup_text l) (p.stored)
          ∙ lookup-set_other (p.key) l (p.credential) (s.credentials) h
          ∙ k.entry;
      bundle = k.bundle;
      built = k.built;
      login = k.login;
    }

    IsHeld-here : p.key ≡ l → IsHeldFrom s' l i ms
    IsHeld-here e =
        let b = p.bundle in
        let again = build_claude_native_bundle_idem dates native b (p.built) in
        let held = subst (λ x. IsHeld low dates s x i ms) (sym e) k in
        let (i2, j, n, old, new, q) =
          valid-IsForward low dates s (p.key) allow_expired now b action i ms again (p.valid)
            held in
        let x : i2 ≡ i = cc (old.identity, held.login.identity) in
        let y : j ≡ ms = cc (old.expiry, held.login.expiry) in
        let g = p.holds in
        (
          n,
          subst (λ z. z ≤ n) y q,
          record {
            credential = p.credential;
            entry =
                ap (lookup_text l) (p.stored)
                ∙ subst
                    (λ z.
                      lookup_text z (set_entry (p.key) (p.credential) (s.credentials))
                      ≡ some (p.credential))
                    e (lookup-set_entry (p.key) (p.credential) (s.credentials));
            bundle = b;
            built = ap (build_claude_native_bundle dates) g ∙ again;
            login = subst (λ z. IsLogin low dates b z n) x new;
          },
        )

    held_on : IsHeldFrom s' l i ms
    held_on = elim (Bool-cases (same (p.key) l)) [
      | inl e ↦ IsHeld-here ((same_iff (p.key) l).0 e)
      | inr e ↦ (ms, omega arith, IsHeld-elsewhere e)
    ]

  -- Along any sequence of calls, whatever their labels, bundles and times, a label that holds a login
  -- keeps holding a login of the same account and organization, and its expiry time never falls.
  pub Persists-IsHeld :
      (s s' : Store) (l : Text) (i : StrictIdentity) (ms : ℕ)
      → Persists s s'
      → IsHeld low dates s l i ms
      → (k : ℕ) × (ms ≤ k) × IsHeld low dates s' l i k
  Persists-IsHeld s s' l i ms unchanged h = (ms, omega arith, h)
  Persists-IsHeld s s' l i ms (persisted {t = t} label native allow_expired now action e later) h =
      let p = persist-IsPersisted low dates s label native allow_expired now t action e in
      let (n, q, h2) = held_on s label native allow_expired now t action l i ms p h in
      let (k, r, h3) = Persists-IsHeld t s' l i n later h2 in (k, omega (arith, q, r), h3)
