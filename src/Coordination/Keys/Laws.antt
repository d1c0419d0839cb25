-- ===== src/Coordination/Keys/Laws.antt =====
-- Distinct accounts have distinct keys, and the families of keys do not meet.
use aimgr.Prelude.{
  ℕ, ◌≡◌, refl, sym, ◌∙◌, ap, ◌≢◌, true, [], ◌∷◌, ◌++◌, Text, codes, trim, trim_idem, LowerCase,
  All, All-of_all, ok, arith,
}
use aimgr.Core.Labels.{is_label_start, normalize_label}
use aimgr.Core.Providers.{normalize_provider_id}
use aimgr.Coordination.Keys.{
  normalize_key_prefix, credential_key, meta_key, credentials_key, credentials_by_provider_key,
  lease_suffix, is_provider_unit, is_provider_text, normalize_lease_provider, lift_label,
  build_credential_lease_key,
}

append_cancel : (p s t : Text) → p ++ s ≡ p ++ t → s ≡ t
append_cancel [] s t h = h
append_cancel (c ∷ p) s t h = append_cancel p s t (cc h)

provider_unit_ne_colon : (c : ℕ) → is_provider_unit c ≡ true → c ≢ b':'
unfolding is_provider_unit
provider_unit_ne_colon c h = ground arith

-- A text without a colon is read back from what precedes the first colon.
colon_split :
    (p q s t : Text)
    → All (λ c. is_provider_unit c ≡ true) p
    → All (λ c. is_provider_unit c ≡ true) q
    → p ++ (codes ":" ++ s) ≡ q ++ (codes ":" ++ t)
    → (p ≡ q) × (s ≡ t)
colon_split [] [] s t hp hq h = (refl, cc h)
colon_split [] (d ∷ q) s t hp hq h = absurd (provider_unit_ne_colon d hq.0 (cc h))
colon_split (c ∷ p) [] s t hp hq h = absurd (provider_unit_ne_colon c hp.0 (cc h))
colon_split (c ∷ p) (d ∷ q) s t hp hq h =
    let r = colon_split p q s t hp.1 hq.1 (cc h) in (cc (r.0), r.1)

-- The steps of a successful build.
pub build_parts :
    (l : LowerCase) (key_prefix provider label : Text) {k : Text}
    → build_credential_lease_key l key_prefix provider label ≡ ok k
    → (label' : Text) × (normalize_label l label ≡ ok label')
      × (is_provider_text (normalize_provider_id l provider) ≡ true)
      × (k
          ≡ normalize_key_prefix (trim key_prefix)
            ++ lease_suffix (normalize_provider_id l provider) label')
unfolding build_credential_lease_key normalize_lease_provider lift_label
build_parts l key_prefix provider label h = ground arith

provider_start_unit : (c : ℕ) → is_label_start c ≡ true → is_provider_unit c ≡ true
unfolding is_provider_unit
provider_start_unit c h = ground arith

provider_text_units :
    (t : Text) → is_provider_text t ≡ true → All (λ c. is_provider_unit c ≡ true) t
unfolding is_provider_text
provider_text_units [] h = cc
provider_text_units (c ∷ t) h =
    (provider_start_unit c (ground arith), All-of_all is_provider_unit t (ground arith))

-- Two accounts never share a lease: under one prefix, requests that build the same lease key agree
-- on the normalized provider and on the normalized label.
pub build_key_inj :
    (l : LowerCase) (key_prefix p q x y : Text) {k : Text}
    → build_credential_lease_key l key_prefix p x ≡ ok k
    → build_credential_lease_key l key_prefix q y ≡ ok k
    → (normalize_provider_id l p ≡ normalize_provider_id l q)
      × (normalize_label l x ≡ normalize_label l y)
unfolding lease_suffix
build_key_inj l key_prefix p q x y h g =
    let (x', lx, px, kx) = build_parts l key_prefix p x h in
    let (y', ly, py, ky) = build_parts l key_prefix q y g in
    let r =
      colon_split _ _ x' y' (provider_text_units _ px) (provider_text_units _ py)
        (append_cancel (codes "lease:credential:") _ _ (append_cancel _ _ _ (sym kx ∙ ky))) in
    (r.0, lx ∙ ap ok r.1 ∙ sym ly)

normalize_key_prefix-trim : (t : Text) → normalize_key_prefix (trim t) ≡ normalize_key_prefix t
unfolding normalize_key_prefix
normalize_key_prefix-trim t = rw (trim_idem t)

append_head_ne : (p : Text) (a b : ℕ) (s t : Text) → a ≢ b → p ++ (a ∷ s) ≢ p ++ (b ∷ t)
append_head_ne p a b s t h e = h (cc (append_cancel p (a ∷ s) (b ∷ t) e))

-- Under one prefix a lease key is never the key of a record or of an index, whatever the providers
-- and the labels are.
pub lease_key-ne-record_key :
    (l : LowerCase) (key_prefix p x provider label : Text) {k : Text}
    → build_credential_lease_key l key_prefix p x ≡ ok k
    → (k ≢ credential_key key_prefix provider label)
      × (k ≢ meta_key key_prefix)
      × (k ≢ credentials_key key_prefix)
      × (k ≢ credentials_by_provider_key key_prefix provider)
unfolding lease_suffix credential_key meta_key credentials_key credentials_by_provider_key
lease_key-ne-record_key l key_prefix p x provider label {k} h =
    let (x', lx, px, kx) = build_parts l key_prefix p x h in
    let w = rw (normalize_key_prefix-trim key_prefix) at kx in
    let apart =
      λ (b : ℕ) (t : Text) (d : b'l' ≢ b) (e : k ≡ normalize_key_prefix key_prefix ++ (b ∷ t)).
        append_head_ne (normalize_key_prefix key_prefix) b'l' b _ t d (sym w ∙ e) in
    (
      apart _ _ (omega arith),
      apart _ _ (omega arith),
      apart _ _ (omega arith),
      apart _ _ (omega arith),
    )
