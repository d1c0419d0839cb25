-- ===== src/Credentials/Store/Persist.antt =====
-- What storing a native bundle changes: `persistAnthropicNativeBundleForLabel`
-- (src/credentials/claude-native.js).
use aimgr.Prelude.{
  ℕ, ◌≡◌, refl, sym, ap, ◌∙◌, subst, Bool, true, Option, none, some, Text, LowerCase, Result, ok,
  bind_ok, then_ok, map_err, ensure, ◌>>=◌, ◌>>◌, map_err_ok, ensure_ok, lookup_text,
}
use aimgr.Core.Labels.{normalize_label}
use aimgr.Core.Labels.Laws.{normalize_label_idem}
use aimgr.Credentials.Bundle.{
  Dates, Parts, Source, Bundle, whole, bundle_source, get_claude_native_bundle,
  build_claude_native_bundle,
}
use aimgr.Credentials.Bundle.Laws.{build_claude_native_bundle_idem}
use aimgr.Credentials.Derive.{
  derive_anthropic_credential_from_claude_bundle, has_complete_claude_native_bundle,
}
use aimgr.Credentials.Derive.Laws.{derived_holds}
use aimgr.Credentials.Replacement.{Replacement, get_strict_claude_native_bundle_identity}
use aimgr.Credentials.Store.{
  Store, set_entry, bad_label, incomplete, has_identity, check_provider, configured, StoreError,
  view_source, bad_bundle, store_credential, check_replacement, no_duplicate, plan_for_label,
  find_anthropic_label_by_native_claude_bundle,
}
use aimgr.Credentials.Store.Write.{
  check_bundle, get_anthropic_credential, derive_for_label, check_complete, check_account,
  check_duplicate, plan_action, validate_built, validate_anthropic_native_bundle_for_label,
  ensure_anthropic_label_configured, write_bundle, persist_anthropic_native_bundle_for_label,
}

no_duplicate_ok : (q : Option Text) → no_duplicate q ≡ ok tt → q ≡ none
unfolding no_duplicate
no_duplicate_ok none h = refl
no_duplicate_ok (some l) h = cc

module _ (low : LowerCase) (dates : Dates) where
  -- The bundle `b` passes every check for the label.
  pub record IsValid (s : Store) (label : Text) (allow_expired : Bool) (now : ℕ) (b : Bundle)
      (action : Replacement) : Type 0 where
    pub is_complete : has_complete_claude_native_bundle low dates (bundle_source b) ≡ true
    pub found :
        find_anthropic_label_by_native_claude_bundle low dates s (some label) (bundle_source b)
        ≡ ok none
    pub planned :
        check_replacement (plan_for_label low dates s label allow_expired now b) ≡ ok action

  duplicate_ok :
      (s : Store) (label : Text) (b : Bundle)
      → check_duplicate low dates s label b ≡ ok tt
      → find_anthropic_label_by_native_claude_bundle low dates s (some label) (bundle_source b)
        ≡ ok none
  unfolding check_duplicate
  duplicate_ok s label b h =
      let found =
        find_anthropic_label_by_native_claude_bundle low dates s (some label) (bundle_source b) in
      let (q, p, n) = bind_ok (map_err bad_label found) no_duplicate tt h in
      map_err_ok bad_label found q p ∙ ap ok (no_duplicate_ok q n)

  complete_ok :
      (b : Bundle)
      → check_complete low dates b ≡ ok tt
      → has_complete_claude_native_bundle low dates (bundle_source b) ≡ true
  unfolding check_complete
  complete_ok b h =
      let c = has_complete_claude_native_bundle low dates (bundle_source b) in
      ensure_ok incomplete c
        (then_ok (ensure incomplete c)
          (has_identity (get_strict_claude_native_bundle_identity low dates (bundle_source b))) tt
          h).0

  built-IsValid :
      (s : Store) (label : Text) (allow_expired : Bool) (now : ℕ) (q : Option Bundle) (b : Bundle)
      (action : Replacement)
      → validate_built low dates s label allow_expired now q ≡ ok (b, action)
      → (q ≡ some b) × IsValid s label allow_expired now b action
  unfolding validate_built check_bundle plan_action
  built-IsValid s label allow_expired now none b action h = cc h
  built-IsValid s label allow_expired now (some a) b action h =
      let planned = plan_action low dates s label allow_expired now a in
      let first = check_complete low dates a in
      let second = check_account low dates (lookup_text label (s.accounts)) a in
      let third = check_duplicate low dates s label a in
      let (c, h1) =
        then_ok (first >> second >> third) (planned >>= (λ r. ok (a, r))) (b, action) h in
      let (r, p, e) = bind_ok planned (λ r. ok (a, r)) (b, action) h1 in
      let (c2, d) = then_ok (first >> second) third tt c in
      let x : a ≡ b = cc e in
      let y : r ≡ action = cc e in
      let v : IsValid s label allow_expired now a r = record {
        is_complete = complete_ok a (then_ok first second tt c2).0;
        found = duplicate_ok s label a d;
        planned = p;
      } in
      (
        ap some x,
        subst (λ z. IsValid s label allow_expired now z action) x
            (subst (IsValid s label allow_expired now a) y v),
      )

  -- What a successful call has done: the bundle is built and passes the checks, and one entry is set
  -- to a complete credential that holds it.
  pub record IsPersisted (s : Store) (label : Text) (native : Option Parts) (allow_expired : Bool)
      (now : ℕ) (s' : Store) (action : Replacement) : Type 0 where
    pub key : Text
    pub key_of : normalize_label low label ≡ ok key
    pub bundle : Bundle
    pub built : build_claude_native_bundle dates native ≡ some bundle
    pub valid : IsValid s key allow_expired now bundle action
    pub credential : Source
    pub holds : get_claude_native_bundle credential ≡ some (whole bundle)
    pub complete : has_complete_claude_native_bundle low dates credential ≡ true
    pub stored : s'.credentials ≡ set_entry key credential (s.credentials)

  configured_credentials :
      (s t : Store) (label : Text)
      → ensure_anthropic_label_configured low dates s label ≡ ok t
      → t.credentials ≡ s.credentials
  unfolding ensure_anthropic_label_configured configured
  configured_credentials s t label h =
      let check = check_provider low dates (lookup_text label (s.accounts)) in
      let e : configured s label ≡ t = cc (then_ok check (ok (configured s label)) t h).1 in
      sym (ap (λ x. x.credentials) e)

  written_ok :
      (s s' : Store) (label : Text) (b : Bundle) (action r : Replacement)
      → build_claude_native_bundle dates (some (whole b)) ≡ some b
      → write_bundle low dates s label (b, action) ≡ ok (s', r)
      → (action ≡ r)
        × ((c : Source) × (get_claude_native_bundle c ≡ some (whole b))
            × (has_complete_claude_native_bundle low dates c ≡ true)
            × (s'.credentials ≡ set_entry label c (s.credentials)))
  unfolding write_bundle store_credential derive_for_label
  written_ok s s' label b action r again h =
      let next : Store → Result StoreError (Store × Replacement) = λ t.
        derive_for_label low dates t label b >>= (λ c. ok (store_credential t label c, action)) in
      let (t, p, h1) =
        bind_ok (ensure_anthropic_label_configured low dates s label) next (s', r) h in
      let (c, q, e) =
        bind_ok (derive_for_label low dates t label b)
          (λ c. ok (store_credential t label c, action)) (s', r) h1 in
      let source = view_source (get_anthropic_credential low dates t label) in
      let (d, w, g, k) = derived_holds low dates source (some (whole b)) c (
        map_err_ok bad_bundle
          (derive_anthropic_credential_from_claude_bundle low dates source (some (whole b))) c q) in
      let x : d ≡ b = cc (w, again) in
      let y : store_credential t label c ≡ s' = cc e in
      (
        cc e,
        (
          c,
          subst (λ z. get_claude_native_bundle c ≡ some (whole z)) x g,
          k,
          sym (ap (λ z. z.credentials) y)
              ∙ ap (set_entry label c) (configured_credentials s t label p),
        ),
      )

  validated_ok :
      (s : Store) (label : Text) (native : Option Parts) (allow_expired : Bool) (now : ℕ)
      (b : Bundle) (action : Replacement)
      → normalize_label low label ≡ ok label
      → validate_anthropic_native_bundle_for_label low dates s label native allow_expired now
        ≡ ok (b, action)
      → (build_claude_native_bundle dates native ≡ some b)
        × IsValid s label allow_expired now b action
  unfolding validate_anthropic_native_bundle_for_label
  validated_ok s label native allow_expired now b action n h =
      built-IsValid s label allow_expired now (build_claude_native_bundle dates native) b action
        (rw n at h)

  pub persist-IsPersisted :
      (s : Store) (label : Text) (native : Option Parts) (allow_expired : Bool) (now : ℕ)
      (s' : Store) (action : Replacement)
      → persist_anthropic_native_bundle_for_label low dates s label native allow_expired now
        ≡ ok (s', action)
      → IsPersisted s label native allow_expired now s' action
  unfolding persist_anthropic_native_bundle_for_label
  persist-IsPersisted s label native allow_expired now s' action h =
      let check = λ (l : Text).
        validate_anthropic_native_bundle_for_label low dates s l native allow_expired now in
      let named = map_err bad_label (normalize_label low label) in
      let (l, p, h1) = bind_ok named (λ k. check k >>= write_bundle low dates s k) (s', action) h in
      let n = map_err_ok bad_label (normalize_label low label) l p in
      let ((b, r), v, w) = bind_ok (check l) (write_bundle low dates s l) (s', action) h1 in
      let (built, valid) =
        validated_ok s l native allow_expired now b r (normalize_label_idem low label l n) v in
      let (e, (c, g, k, stored)) =
        written_ok s s' l b r action (build_claude_native_bundle_idem dates native b built) w in
      record {
        key = l;
        key_of = n;
        bundle = b;
        built = built;
        valid = subst (IsValid s l allow_expired now b) e valid;
        credential = c;
        holds = g;
        complete = k;
        stored = stored;
      }
