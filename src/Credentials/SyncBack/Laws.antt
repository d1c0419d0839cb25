-- ===== src/Credentials/SyncBack/Laws.antt =====
-- The stages of taking rotated tokens back (src/credentials/claude-native.js).
use aimgr.Prelude.{
  ℕ, ◌≡◌, ◌≢◌, ◌⊎◌, refl, ◌∙◌, subst, inl, inr, true, Option, none, some, List, [], ◌∷◌, Text,
  LowerCase, ok, bind_ok, map_err, map_err_ok, Bool-cases, Option-cases, lookup_text,
}
use aimgr.Credentials.Bundle.{
  Dates, Parts, Source, Bundle, whole, bundle_source, get_claude_native_bundle,
  build_claude_native_bundle,
}
use aimgr.Credentials.Derive.{
  View, derive_anthropic_credential_view, has_complete_claude_native_bundle,
  derive_anthropic_credential_from_claude_bundle,
}
use aimgr.Credentials.Derive.Laws.{view_ok}
use aimgr.Credentials.Replacement.{
  Refusal, candidate_incomplete, identity_conflict, ambiguous_equal_expiry, current_incomplete,
  candidate_expired, stale_candidate, identity_mismatch, Replacement, blocked, noop, create, update,
  bundle_oauth, do_claude_native_bundle_identities_match,
}
use aimgr.Credentials.Replacement.Decide.{build_current, plan_claude_native_bundle_replacement}
use aimgr.Credentials.Replacement.Plan.{IsNewer, plan_update_iff}
use aimgr.Credentials.Replacement.Forward.{plan-ne-create}
use aimgr.Credentials.Store.{Store, bad_bundle}
use aimgr.Credentials.Store.Write.{get_anthropic_credential}
use aimgr.Credentials.SyncBack.{
  SyncState, LiveSource, RotatedField, candidate, refusal_status, is_import_newer, sync_options,
}
use aimgr.Credentials.SyncBack.Run.{
  candidate_status, status_of_plan, fields_of, parts_of, reconcile, sync_stored,
}

module _ (low : LowerCase) (dates : Dates) where
  -- A candidate for the label: the live bundle replaces the stored one of that label, and is newer.
  pub record IsRotation (s : SyncState) (native : Option Parts) (l : Text) (c : Source)
      : Type 0 where
    pub stored : Source
    pub entry : lookup_text l (s.store.credentials) ≡ some stored
    pub old : Bundle
    pub old_built : build_claude_native_bundle dates (get_claude_native_bundle stored) ≡ some old
    pub live : Bundle
    pub live_built : build_claude_native_bundle dates native ≡ some live
    pub newer : IsNewer low dates old live
    pub holds : get_claude_native_bundle c ≡ some (whole live)
    pub complete : has_complete_claude_native_bundle low dates c ≡ true

  refusal_not_candidate :
      (l k : Text) (fields : List RotatedField) (c : Source) (reason : Refusal)
      → refusal_status l reason ≢ candidate k fields c
  unfolding refusal_status
  refusal_not_candidate l k fields c identity_conflict h = cc h
  refusal_not_candidate l k fields c ambiguous_equal_expiry h = cc h
  refusal_not_candidate l k fields c current_incomplete h = cc h
  refusal_not_candidate l k fields c candidate_incomplete h = cc h
  refusal_not_candidate l k fields c candidate_expired h = cc h
  refusal_not_candidate l k fields c stale_candidate h = cc h
  refusal_not_candidate l k fields c identity_mismatch h = cc h

  status_ok :
      (l k : Text) (fs fields : List RotatedField) (stored : Option Source) (live : Bundle)
      (c : Source)
      → candidate_status low dates l fs stored live ≡ ok (candidate k fields c)
      → (l ≡ k)
        × (derive_anthropic_credential_from_claude_bundle low dates stored (some (whole live))
            ≡ ok c)
  unfolding candidate_status
  status_ok l k fs fields stored live c h =
      let derived =
        derive_anthropic_credential_from_claude_bundle low dates stored (some (whole live)) in
      let (d, p, e) =
        bind_ok (map_err bad_bundle derived) (λ x. ok (candidate l fs x)) (candidate k fields c)
          h in
      (cc e, map_err_ok bad_bundle derived d p ∙ cc e)

  plan_ok :
      (l k : Text) (fs fields : List RotatedField) (stored : Option Source) (live : Bundle)
      (c : Source) (r : Replacement)
      → status_of_plan low dates l fs stored live r ≡ ok (candidate k fields c)
      → ((r ≡ create) ⊎ (r ≡ update))
        × (l ≡ k)
        × (derive_anthropic_credential_from_claude_bundle low dates stored (some (whole live))
            ≡ ok c)
  unfolding status_of_plan
  plan_ok l k fs fields stored live c (blocked reason) h =
      absurd (refusal_not_candidate l k fields c reason (cc h))
  plan_ok l k fs fields stored live c noop h = cc h
  plan_ok l k fs fields stored live c create h =
      let q = status_ok l k fs fields stored live c h in (inl refl, q.0, q.1)
  plan_ok l k fs fields stored live c update h =
      let q = status_ok l k fs fields stored live c h in (inr refl, q.0, q.1)

  pub reconcile_ok :
      (s : SyncState) (source : LiveSource) (now : ℕ) (live : Bundle) (l : Text) (v : View)
      (fs fields : List RotatedField) (k : Text) (c : Source)
      → reconcile low dates s source now live l v fs ≡ ok (candidate k fields c)
      → let plan =
          plan_claude_native_bundle_replacement low dates
            (sync_options now)
            (parts_of low dates (get_claude_native_bundle (v.source)))
            (bundle_source live) in
        ((plan ≡ create) ⊎ (plan ≡ update))
        × (l ≡ k)
        × (derive_anthropic_credential_from_claude_bundle low dates
              (some (v.source))
              (some (whole live))
            ≡ ok c)
  unfolding reconcile
  reconcile_ok s source now live l v [] fields k c h = cc h
  reconcile_ok s source now live l v (f ∷ fs) fields k c h =
      elim (Bool-cases (is_import_newer dates (lookup_text l (s.imports)) source)) [
        | inl e ↦ cc (rw e at h)
        | inr e ↦ plan_ok l k (f ∷ fs) fields (some (v.source)) live c _ (rw e at h)
      ]

  pub stored_ok :
      (s : SyncState) (source : LiveSource) (now : ℕ) (live : Bundle) (l : Text) (q : Option View)
      (fields : List RotatedField) (k : Text) (c : Source)
      → sync_stored low dates s source now live l q ≡ ok (candidate k fields c)
      → (v : View) × (q ≡ some v)
        × (reconcile low dates s source now live l v (
              fields_of low dates
                (bundle_oauth (get_claude_native_bundle (v.source)))
                (live.claude_ai_oauth))
            ≡ ok (candidate k fields c))
  unfolding sync_stored
  stored_ok s source now live l none fields k c h = cc h
  stored_ok s source now live l (some v) fields k c h =
      elim (Bool-cases
        (do_claude_native_bundle_identities_match low dates (v.source) (bundle_source live))) [
          | inl e ↦ (v, refl, rw e at h)
          | inr e ↦ cc (rw e at h)
        ]

  pub credential_ok :
      (s : Store) (l : Text) (v : View)
      → get_anthropic_credential low dates s l ≡ some v
      → (stored : Source) × (old : Bundle) × (lookup_text l (s.credentials) ≡ some stored)
        × (build_claude_native_bundle dates (get_claude_native_bundle stored) ≡ some old)
        × (get_claude_native_bundle (v.source) ≡ some (whole old))
  unfolding get_anthropic_credential derive_anthropic_credential_view
  credential_ok s l v h = elim (Option-cases (lookup_text l (s.credentials))) [
    | inl e ↦ cc (rw (get_anthropic_credential, e) at h)
    | inr (stored, e) ↦
        let q = build_claude_native_bundle dates (get_claude_native_bundle stored) in
        let (old, p, g) = view_ok low dates stored q v (rw (get_anthropic_credential, e) at h) in
        (stored, old, e, p, g)
  ]

  pub plan-IsNewer :
      (old live : Bundle) (now : ℕ)
      → build_claude_native_bundle dates (some (whole old)) ≡ some old
      → build_claude_native_bundle dates (some (whole live)) ≡ some live
      → let plan =
          plan_claude_native_bundle_replacement low dates
            (sync_options now)
            (parts_of low dates (some (whole old)))
            (bundle_source live) in
        ((plan ≡ create) ⊎ (plan ≡ update)) → IsNewer low dates old live
  unfolding parts_of build_current get_claude_native_bundle
  plan-IsNewer old live now p q h =
      let o = sync_options now in
      let current = some (bundle_source old) in
      elim h [
        | inl e ↦ absurd (plan-ne-create low dates o current (bundle_source live) old live p q e)
        | inr e ↦
            let u = (plan_update_iff low dates o current (bundle_source live)).0 e in
            let x : u.old ≡ old = cc (u.old_built, p) in
            let y : u.new ≡ live = cc (u.new_built, q) in
            subst (IsNewer low dates old) y (subst (λ z. IsNewer low dates z (u.new)) x (u.newer))
      ]
