-- ===== src/Credentials/Derive/Laws.antt =====
-- What is stored is complete and is read back as it was built, and when completeness is answered
-- (src/credentials/claude-bundle.js).
use aimgr.Prelude.{
  ◌≡◌, refl, subst, sym, ◌∙◌, inl, inr, true, ℕ, List, Text, Option, none, some, ◌++◌, LowerCase,
  ok, err, ◌>>=◌, Bool-cases, Bool, false, not, leb, if◌then◌else◌, arith,
}
use aimgr.Credentials.Bundle.{
  Stamp, Dates, Parts, Source, Bundle, whole, bundle_source, get_claude_native_bundle,
  build_claude_native_bundle, build_claude_credential_summary_from_bundle, summary_of_bundle,
  both_parts, parts_bundle, to_iso_from_expires_ms, shown_instant, last_instant, invalid_time_value,
  summary_at, summary_or_error, parse_timestamp_like_to_ms,
}
use aimgr.Credentials.Bundle.Laws.{build_claude_native_bundle_idem}
use aimgr.Credentials.Derive.{
  completeness, View, is_complete_summary, with_bundle, summary_keys, spread, without_summary_keys,
  has_complete_claude_native_bundle, store_bundle, derive_anthropic_credential_from_claude_bundle,
  view_of, derive_anthropic_credential_view,
}

-- `ms` denotes no date.
abbrev pub is_past : Option ℕ → Bool
is_past none = false
is_past (some n) = not (leb n last_instant)

-- The same bundle with another expiry time.
abbrev pub with_expiry : Bundle → Stamp → Bundle
with_expiry b e =
    let o = b.claude_ai_oauth in
    record {
      claude_ai_oauth = record {
        access_token = o.access_token;
        refresh_token = o.refresh_token;
        expires_at = e;
        scopes = o.scopes;
        subscription_type = o.subscription_type;
        rate_limit_tier = o.rate_limit_tier;
      };
      oauth_account = b.oauth_account;
    }

get-with_bundle :
    (s : Source) (b : Bundle) (keys : List Text)
    → get_claude_native_bundle (with_bundle s b keys) ≡ some (whole b)
unfolding get_claude_native_bundle with_bundle
get-with_bundle s b keys = refl

get_whole : (b : Bundle) → get_claude_native_bundle (bundle_source b) ≡ some (whole b)
unfolding get_claude_native_bundle
get_whole b = refl

module _ (low : LowerCase) (dates : Dates) where
  pub complete_of_bundle :
      (s : Source) (b : Bundle)
      → get_claude_native_bundle s ≡ some (whole b)
      → has_complete_claude_native_bundle low dates s
        ≡ is_complete_summary (summary_of_bundle low dates b)
  unfolding has_complete_claude_native_bundle build_claude_credential_summary_from_bundle
      parts_bundle both_parts
  complete_of_bundle s b h =
      rw (has_complete_claude_native_bundle, build_claude_credential_summary_from_bundle, h) refl

  completeness-get :
      (s : Source) (b : Bundle)
      → get_claude_native_bundle s ≡ some (whole b)
      → completeness low dates s
        ≡ (summary_or_error low dates b >>= (λ summary. ok (is_complete_summary summary)))
  unfolding completeness parts_bundle both_parts
  completeness-get s b h = rw (completeness, h) refl

  shown_some : (q : Option ℕ) → (n : ℕ) × (shown_instant q ≡ some n)
  unfolding shown_instant
  shown_some none = (0, refl)
  shown_some (some n) = (n, refl)

  -- A missing expiry time is shown as the instant 0, so any instant of the calendar counts alike.
  shown-IsComplete :
      (b : Bundle) (q : Option ℕ) (instant : ℕ)
      → (to_iso_from_expires_ms q
          >>= (λ expiry. ok (summary_at low dates b expiry))
          >>= (λ summary. ok (is_complete_summary summary)))
        ≡ (if is_past q
            then err invalid_time_value
            else ok (is_complete_summary (summary_at low dates b (some instant))))
  unfolding to_iso_from_expires_ms is_complete_summary summary_at
  shown-IsComplete b none instant = refl
  shown-IsComplete b (some n) instant = ground arith

  -- Whether a bundle is complete is answered for every expiry time that the calendar has, a missing
  -- one included, and with the same answer; past the last instant of the calendar the error of the
  -- date is thrown instead.
  pub complete-with_expiry :
      (b : Bundle) (e : Stamp)
      → completeness low dates (bundle_source (with_expiry b e)) ≡ (
          if is_past (parse_timestamp_like_to_ms dates e)
          then err invalid_time_value
          else ok (has_complete_claude_native_bundle low dates (bundle_source b)))
  unfolding get_claude_native_bundle summary_or_error summary_of_bundle summary_at
  complete-with_expiry b e =
      let q = parse_timestamp_like_to_ms dates (b.claude_ai_oauth.expires_at) in
      let c = complete_of_bundle (bundle_source b) b refl in
      let (instant, k) = shown_some q in
      completeness-get (bundle_source (with_expiry b e)) (with_expiry b e) refl
      ∙ shown-IsComplete (with_expiry b e) (parse_timestamp_like_to_ms dates e) instant
      ∙ rw (c, summary_of_bundle, k) refl

  store_ok :
      (existing : Option Source) (q : Option Bundle) (c : Source)
      → store_bundle low dates existing q ≡ ok c
      → (b : Bundle) × (q ≡ some b)
        × (has_complete_claude_native_bundle low dates (bundle_source b) ≡ true)
        × (get_claude_native_bundle c ≡ some (whole b))
  unfolding store_bundle
  store_ok existing none c h = cc
  store_ok existing (some b) c h =
      elim (Bool-cases (has_complete_claude_native_bundle low dates (bundle_source b))) [
        | inl e ↦
            let next = spread existing in
            let p : with_bundle next b (without_summary_keys (next.other_keys)) ≡ c =
              cc (rw (store_bundle, e) at h) in
            (
              b,
              refl,
              e,
              subst (λ x. get_claude_native_bundle x ≡ some (whole b)) p (get-with_bundle next b _),
            )
        | inr e ↦ cc (rw (store_bundle, e) at h)
      ]

  -- A credential that is derived from a bundle holds that bundle as it was built, and is complete.
  pub derived_holds :
      (existing : Option Source) (native : Option Parts) (c : Source)
      → derive_anthropic_credential_from_claude_bundle low dates existing native ≡ ok c
      → (b : Bundle) × (build_claude_native_bundle dates native ≡ some b)
        × (get_claude_native_bundle c ≡ some (whole b))
        × (has_complete_claude_native_bundle low dates c ≡ true)
  unfolding derive_anthropic_credential_from_claude_bundle
  derived_holds existing native c h =
      let (b, p, complete, g) = store_ok existing _ c h in
      (
        b,
        p,
        g,
        complete_of_bundle c b g
            ∙ sym (complete_of_bundle (bundle_source b) b (get_whole b))
            ∙ complete,
      )

  view_holds :
      (s : Source) (b : Bundle) (q : Option Bundle)
      → q ≡ some b
      → (v : View) × (view_of low dates s q ≡ some v)
        × (v.summary ≡ summary_of_bundle low dates b)
        × (get_claude_native_bundle (v.source) ≡ some (whole b))
  unfolding view_of get_claude_native_bundle with_bundle
  view_holds s b q h = rw h (_, refl, refl, refl)

  -- The view of a stored credential shows the bundle that was stored, and its summary.
  pub view-derive :
      (existing : Option Source) (native : Option Parts) (c : Source)
      → derive_anthropic_credential_from_claude_bundle low dates existing native ≡ ok c
      → (b : Bundle) × (build_claude_native_bundle dates native ≡ some b)
        × ((v : View) × (derive_anthropic_credential_view low dates c ≡ some v)
            × (v.summary ≡ summary_of_bundle low dates b)
            × (get_claude_native_bundle (v.source) ≡ some (whole b)))
  unfolding derive_anthropic_credential_view
  view-derive existing native c h =
      let (b, p, g, k) = derived_holds existing native c h in
      let again : build_claude_native_bundle dates (get_claude_native_bundle c) ≡ some b =
        rw g (build_claude_native_bundle_idem dates native b p) in
      (b, p, view_holds c b _ again)

  -- A view shows a bundle that is built from the credential.
  pub view_ok :
      (s : Source) (q : Option Bundle) (v : View)
      → view_of low dates s q ≡ some v
      → (b : Bundle) × (q ≡ some b) × (get_claude_native_bundle (v.source) ≡ some (whole b))
  unfolding view_of
  view_ok s none v h = cc h
  view_ok s (some b) v h =
      let w : View = record {
        source = with_bundle s b (s.other_keys ++ summary_keys);
        summary = summary_of_bundle low dates b;
      } in
      let e : w ≡ v = cc h in
      (
        b,
        refl,
        subst (λ x. get_claude_native_bundle (x.source) ≡ some (whole b)) e (get-with_bundle s b _),
      )
