-- ===== src/Credentials/SyncBack/Rotation.antt =====
-- What is taken back is newer and belongs to its label (src/credentials/claude-native.js).
use aimgr.Prelude.{
  ℕ, ◌≡◌, subst, inl, inr, ◌&&◌, Option, none, some, List, Text, LowerCase, ok, bind_ok, ◌>>=◌,
  Bool-cases, Option-cases, lookup_text, is_some,
}
use aimgr.Credentials.Bundle.{
  Dates, Parts, Source, Bundle, whole, bundle_source, get_claude_native_bundle,
  build_claude_native_bundle,
}
use aimgr.Credentials.Bundle.Laws.{build_claude_native_bundle_idem}
use aimgr.Credentials.Derive.{has_complete_claude_native_bundle}
use aimgr.Credentials.Derive.Laws.{derived_holds}
use aimgr.Credentials.Replacement.{get_strict_claude_native_bundle_identity}
use aimgr.Credentials.Store.Write.{get_anthropic_credential}
use aimgr.Credentials.SyncBack.{SyncState, LiveSource, RotatedField, candidate}
use aimgr.Credentials.SyncBack.Run.{
  sync_stored, sync_label, sync_live, optional_label, given_label, matched_label,
  sync_claude_native_bundle_back_to_label,
}
use aimgr.Credentials.SyncBack.Laws.{
  IsRotation, reconcile_ok, stored_ok, credential_ok, plan-IsNewer,
}

module _ (low : LowerCase) (dates : Dates) where
  label-IsRotation :
      (s : SyncState) (source : LiveSource) (now : ℕ) (native : Option Parts) (live : Bundle)
      (l k : Text) (fields : List RotatedField) (c : Source)
      → build_claude_native_bundle dates native ≡ some live
      → sync_stored low dates s source now live l (get_anthropic_credential low dates (s.store) l)
        ≡ ok (candidate k fields c)
      → IsRotation low dates s native k c
  label-IsRotation s source now native live l k fields c built h =
      let (v, p, h1) = stored_ok low dates s source now live l _ fields k c h in
      let (stored, old, entry, old_built, g) = credential_ok low dates (s.store) l v p in
      let (plan, e, d) = reconcile_ok low dates s source now live l v _ fields k c h1 in
      let again = build_claude_native_bundle_idem dates native live built in
      let (b, x, holds, complete) =
        derived_holds low dates (some (v.source)) (some (whole live)) c d in
      let y : b ≡ live = cc (x, again) in
      let newer =
        plan-IsNewer low dates old live now (build_claude_native_bundle_idem dates _ old old_built)
          again (rw g at plan) in
      record {
        stored = stored;
        entry = subst (λ z. lookup_text z (s.store.credentials) ≡ some stored) e entry;
        old = old;
        old_built = old_built;
        live = live;
        live_built = built;
        newer = newer;
        holds = subst (λ z. get_claude_native_bundle c ≡ some (whole z)) y holds;
        complete = complete;
      }

  found-IsRotation :
      (s : SyncState) (source : LiveSource) (now : ℕ) (native : Option Parts) (live : Bundle)
      (m : Option Text) (k : Text) (fields : List RotatedField) (c : Source)
      → build_claude_native_bundle dates native ≡ some live
      → sync_label low dates s source now live m ≡ ok (candidate k fields c)
      → IsRotation low dates s native k c
  unfolding sync_label
  found-IsRotation s source now native live none k fields c built h = cc h
  found-IsRotation s source now native live (some l) k fields c built h =
      label-IsRotation s source now native live l k fields c built h

  live-IsRotation :
      (s : SyncState) (label : Option Text) (source : LiveSource) (now : ℕ) (native : Option Parts)
      (live : Bundle) (k : Text) (fields : List RotatedField) (c : Source)
      → build_claude_native_bundle dates native ≡ some live
      → sync_live low dates s label source now live ≡ ok (candidate k fields c)
      → IsRotation low dates s native k c
  unfolding sync_live sync_label
  live-IsRotation s label source now native live k fields c built h =
      let sound =
        has_complete_claude_native_bundle low dates (bundle_source live)
        && is_some (get_strict_claude_native_bundle_identity low dates (bundle_source live)) in
      let labelled = λ (last : Option Text).
        optional_label low dates (given_label low dates label) >>= (λ l.
          matched_label low dates (s.store) last l live
          >>= sync_label low dates s source now live) in
      elim (Bool-cases sound) [
        | inr e ↦ cc (rw e at h)
        | inl e ↦
            let (last, _, h1) =
              bind_ok (optional_label low dates (s.last_run_label)) labelled (candidate k fields c)
                (rw e at h) in
            let (l, _, h2) =
              bind_ok (optional_label low dates (given_label low dates label))
                (λ l.
                  matched_label low dates (s.store) last l live
                  >>= sync_label low dates s source now live)
                (candidate k fields c) h1 in
            let (m, _, h3) =
              bind_ok (matched_label low dates (s.store) last l live)
                (sync_label low dates s source now live) (candidate k fields c) h2 in
            found-IsRotation s source now native live m k fields c built h3
      ]

  -- What is taken back from the native client's files is for a label that holds a login of the same
  -- account and organization, whose expiry time is strictly earlier than that of the live bundle, and
  -- the credential to store is complete and holds the live bundle.
  pub sync-IsRotation :
      (s : SyncState) (label : Option Text) (source : LiveSource) (now : ℕ) (native : Option Parts)
      (k : Text) (fields : List RotatedField) (c : Source)
      → sync_claude_native_bundle_back_to_label low dates s label source now native
        ≡ ok (candidate k fields c)
      → IsRotation low dates s native k c
  unfolding sync_claude_native_bundle_back_to_label
  sync-IsRotation s label source now native k fields c h =
      elim (Option-cases (build_claude_native_bundle dates native)) [
        | inl e ↦ cc (rw (sync_claude_native_bundle_back_to_label, e) at h)
        | inr (live, e) ↦
            live-IsRotation s label source now native live k fields c e
              (rw (sync_claude_native_bundle_back_to_label, e) at h)
      ]
