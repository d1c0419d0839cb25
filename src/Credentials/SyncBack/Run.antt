-- ===== src/Credentials/SyncBack/Run.antt =====
-- The steps of `syncClaudeNativeBundleBackToLabel` (src/credentials/claude-native.js).
use aimgr.Prelude.{
  ℕ, Bool, false, ◌&&◌, Option, none, some, List, [], ◌∷◌, Text, LowerCase, Result, ok, ◌>>=◌,
  map_err, is_some, lookup_text, if◌then◌else◌,
}
use aimgr.Core.Labels.{normalize_label}
use aimgr.Credentials.Bundle.{
  absent, Dates, Oauth, Parts, Source, Bundle, whole, bundle_source, parts_source,
  get_claude_native_bundle, build_claude_native_bundle,
}
use aimgr.Credentials.Derive.{
  View, has_complete_claude_native_bundle, derive_anthropic_credential_from_claude_bundle,
}
use aimgr.Credentials.Replacement.{
  identity_conflict, Replacement, blocked, noop, create, update, non_empty, bundle_oauth,
  get_strict_claude_native_bundle_identity, do_claude_native_bundle_identities_match,
}
use aimgr.Credentials.Replacement.Decide.{plan_claude_native_bundle_replacement}
use aimgr.Credentials.Store.{
  Store, StoreError, bad_label, bad_bundle, find_anthropic_label_by_native_claude_bundle,
}
use aimgr.Credentials.Store.Write.{get_anthropic_credential}
use aimgr.Credentials.SyncBack.{
  SyncState, LiveSource, RotatedField, no_live_bundle, no_label_for_identity, tokens_unchanged,
  authority_import_newer, not_replaced, SyncStatus, unreadable, lineage_conflict, unchanged,
  candidate, rotated_fields, refusal_status, is_import_newer, sync_options,
}

module _ (low : LowerCase) (dates : Dates) where
  -- `activeCredential && complete && the identities match`.
  unfoldable pub is_active : Option View → Bundle → Bool
  is_active none live = false
  is_active (some v) live =
      has_complete_claude_native_bundle low dates (v.source)
      && do_claude_native_bundle_identities_match low dates (v.source) (bundle_source live)

  unfoldable pub search_label : Store → Bundle → Result StoreError (Option Text)
  search_label s live =
      map_err bad_label
        (find_anthropic_label_by_native_claude_bundle low dates s none (bundle_source live))

  -- The label of the last run where it is active, and else a search.
  unfoldable pub match_last_run : Store → Option Text → Bundle → Result StoreError (Option Text)
  unfolding is_active search_label
  match_last_run s none live = search_label s live
  match_last_run s (some l) live =
      if is_active (get_anthropic_credential low dates s l) live
      then ok (some l)
      else search_label s live

  unfoldable pub optional_label : Option Text → Result StoreError (Option Text)
  optional_label none = ok none
  optional_label (some t) = map_err bad_label (normalize_label low t) >>= (λ l. ok (some l))

  -- `label ? ... : null`.
  unfoldable pub given_label : Option Text → Option Text
  unfolding non_empty
  given_label none = none
  given_label (some t) = non_empty t

  unfoldable pub matched_label :
      Store → Option Text → Option Text → Bundle → Result StoreError (Option Text)
  unfolding match_last_run
  matched_label s last (some l) live = ok (some l)
  matched_label s last none live = match_last_run s last live

  unfoldable pub candidate_status :
      Text → List RotatedField → Option Source → Bundle → Result StoreError SyncStatus
  candidate_status l fields stored live =
      map_err bad_bundle
        (derive_anthropic_credential_from_claude_bundle low dates stored (some (whole live)))
      >>= (λ c. ok (candidate l fields c))

  unfoldable pub status_of_plan :
      Text → List RotatedField → Option Source → Bundle → Replacement → Result StoreError SyncStatus
  unfolding candidate_status refusal_status
  status_of_plan l fields stored live (blocked reason) = ok (refusal_status l reason)
  status_of_plan l fields stored live noop = ok (unchanged tokens_unchanged l)
  status_of_plan l fields stored live create = candidate_status l fields stored live
  status_of_plan l fields stored live update = candidate_status l fields stored live

  -- The rotated fields of the stored parts; a part that is missing has no fields.
  unfoldable pub fields_of : Option Oauth → Oauth → List RotatedField
  unfolding rotated_fields
  fields_of none live =
      rotated_fields
        (record {
          access_token = none;
          refresh_token = none;
          expires_at = absent;
          scopes = none;
          subscription_type = none;
          rate_limit_tier = none;
        })
        live
  fields_of (some o) live = rotated_fields o live

  unfoldable pub parts_of : Option Parts → Option Source
  parts_of none = none
  parts_of (some p) = some (parts_source p)

  unfoldable pub reconcile :
      SyncState
      → LiveSource
      → ℕ
      → Bundle
      → Text
      → View
      → List RotatedField
      → Result StoreError SyncStatus
  unfolding status_of_plan parts_of is_import_newer
  reconcile s source now live l stored [] = ok (unchanged tokens_unchanged l)
  reconcile s source now live l stored (f ∷ fields) =
      if is_import_newer dates (lookup_text l (s.imports)) source
      then ok (unchanged authority_import_newer l)
      else status_of_plan l (f ∷ fields) (some (stored.source)) live (
          plan_claude_native_bundle_replacement low dates (sync_options now)
            (parts_of (get_claude_native_bundle (stored.source))) (bundle_source live))

  unfoldable pub sync_stored :
      SyncState → LiveSource → ℕ → Bundle → Text → Option View → Result StoreError SyncStatus
  unfolding reconcile fields_of
  sync_stored s source now live l none =
      ok (lineage_conflict (not_replaced identity_conflict) (some l))
  sync_stored s source now live l (some stored) =
      let fields =
        fields_of (bundle_oauth (get_claude_native_bundle (stored.source)))
          (live.claude_ai_oauth) in
      if do_claude_native_bundle_identities_match low dates (stored.source) (bundle_source live)
      then reconcile s source now live l stored fields
      else ok (lineage_conflict (not_replaced identity_conflict) (some l))

  unfoldable pub sync_label :
      SyncState → LiveSource → ℕ → Bundle → Option Text → Result StoreError SyncStatus
  unfolding sync_stored
  sync_label s source now live none = ok (lineage_conflict no_label_for_identity none)
  sync_label s source now live (some l) =
      sync_stored s source now live l (get_anthropic_credential low dates (s.store) l)

  unfoldable pub sync_live :
      SyncState → Option Text → LiveSource → ℕ → Bundle → Result StoreError SyncStatus
  unfolding sync_label optional_label matched_label given_label
  sync_live s label source now live =
      if has_complete_claude_native_bundle low dates (bundle_source live)
        && is_some (get_strict_claude_native_bundle_identity low dates (bundle_source live))
      then optional_label (s.last_run_label) >>= (λ last.
        optional_label (given_label label)
        >>= (λ l. matched_label (s.store) last l live >>= sync_label s source now live))
      else ok (unreadable no_live_bundle none)

  -- `syncClaudeNativeBundleBackToLabel`.
  unfoldable pub sync_claude_native_bundle_back_to_label :
      SyncState → Option Text → LiveSource → ℕ → Option Parts → Result StoreError SyncStatus
  unfolding sync_live
  sync_claude_native_bundle_back_to_label s label source now native =
      elim (build_claude_native_bundle dates native) [
        | none ↦ ok (unreadable no_live_bundle none)
        | some live ↦ sync_live s label source now live
      ]
