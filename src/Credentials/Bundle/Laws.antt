-- ===== src/Credentials/Bundle/Laws.antt =====
-- Building a native bundle normalizes it, and a second time changes nothing
-- (src/credentials/claude-bundle.js).
use aimgr.Prelude.{
  ℕ, ◌≡◌, subst, All-append, refl, sym, ap, inl, inr, true, false, Option, none, some, List, [],
  ◌∷◌, ◌++◌, map, Text, same_iff, includes, trim, trim_idem, filter, filter_id, filter_passes, All,
  All-map, All-filter, arith, Bool-cases, ltb,
}
use mathlib.Core.List.{append_assoc, append-nil}
use aimgr.Pool.Cycle.{add_text, add_all, distinct}
use aimgr.Pool.Cycle.Laws.{IsDistinct, distinct-IsDistinct, includes-append}
use aimgr.Credentials.Bundle.{
  Stamp, number, Dates, Oauth, Parts, Bundle, whole, truthy, positive, number_of,
  parse_timestamp_like_to_ms, kept_stamp, normalize_non_empty_string_array, normalized_scopes,
  normalized_oauth, normalized_bundle, both_parts, parts_bundle, build_claude_native_bundle,
}

All-snoc {κ} :
    (P : Text → Type κ) (xs : List Text) (x : Text) → All P xs → P x → All P (xs ++ (x ∷ []))
All-snoc P xs x h p = All-append P xs (x ∷ []) h (p, tt)

All-add_all {κ} :
    (P : Text → Type κ) (set xs : List Text) → All P set → All P xs → All P (add_all set xs)
unfolding add_all add_text
All-add_all P set [] h k = h
All-add_all P set (x ∷ xs) h k = elim (Bool-cases (includes x set)) [
  | inl e ↦ rw e (All-add_all P set xs h k.1)
  | inr e ↦ rw e (All-add_all P (set ++ (x ∷ [])) xs (All-snoc P set x h k.0) k.1)
]

not_before : (x : Text) (set xs : List Text) → IsDistinct (set ++ (x ∷ xs)) → includes x set ≡ false
unfolding includes
not_before x [] xs d = refl
not_before x (y ∷ set) xs d = ground (
  arith,
  d.0,
  includes-append y set (x ∷ xs),
  same_iff x y,
  same_iff y x,
  not_before x set xs d.1,
)

add_all_fixed : (set xs : List Text) → IsDistinct (set ++ xs) → add_all set xs ≡ set ++ xs
unfolding add_all add_text
add_all_fixed set [] d = sym (append-nil set)
add_all_fixed set (x ∷ xs) d =
    let e = append_assoc set (x ∷ []) xs in
    rw (not_before x set xs d, add_all_fixed (set ++ (x ∷ [])) xs (subst IsDistinct (sym e) d)) e

map-trim_fixed : (xs : List Text) → All (λ t. trim t ≡ t) xs → map trim xs ≡ xs
map-trim_fixed [] h = refl
map-trim_fixed (x ∷ xs) h = rw (h.0, map-trim_fixed xs h.1)

trim_all : (l : List Text) → All (λ x. trim (trim x) ≡ trim x) l
trim_all [] = tt
trim_all (x ∷ l) = (trim_idem x, trim_all l)

-- The array of a built bundle is as the code would leave it.
scopes_idem :
    (s : Option (List Text)) → normalized_scopes (normalized_scopes s) ≡ normalized_scopes s
unfolding normalized_scopes normalize_non_empty_string_array distinct
scopes_idem none = refl
scopes_idem (some l) =
    let kept = filter truthy (map trim l) in
    let t : All (λ x. trim x ≡ x) (distinct kept) =
      All-add_all _ [] kept tt (All-filter _ truthy (map trim l) (All-map trim _ l (trim_all l))) in
    let p : All (λ x. truthy x ≡ true) (distinct kept) =
      All-add_all _ [] kept tt (filter_passes truthy (map trim l)) in
    ap some (
      rw (map-trim_fixed (distinct kept) t, filter_id truthy (distinct kept) p)
        (add_all_fixed [] (distinct kept) (distinct-IsDistinct kept)))

kept_none :
    (dates : Dates) (e : Stamp)
    → parse_timestamp_like_to_ms dates e ≡ none
    → kept_stamp (kept_stamp e none) (parse_timestamp_like_to_ms dates (kept_stamp e none))
      ≡ kept_stamp e none
unfolding kept_stamp
kept_none dates e h = rw h refl

kept_positive : (e : Stamp) (n : ℕ) → ltb 0 n ≡ true → kept_stamp e (some n) ≡ number n
unfolding kept_stamp
kept_positive e n h = rw h refl

kept_zero : (e : Stamp) (n : ℕ) → ltb 0 n ≡ false → kept_stamp e (some n) ≡ e
unfolding kept_stamp
kept_zero e n h = rw h refl

parse_number :
    (dates : Dates) (n : ℕ) → ltb 0 n ≡ true → parse_timestamp_like_to_ms dates (number n) ≡ some n
unfolding parse_timestamp_like_to_ms number_of positive
parse_number dates n h = rw (parse_timestamp_like_to_ms, h) refl

-- An expiry time that is kept is read the same way again.
kept_again :
    (dates : Dates) (e : Stamp) (q : Option ℕ)
    → parse_timestamp_like_to_ms dates e ≡ q
    → kept_stamp (kept_stamp e q) (parse_timestamp_like_to_ms dates (kept_stamp e q))
      ≡ kept_stamp e q
kept_again dates e none h = kept_none dates e h
kept_again dates e (some n) h = elim (Bool-cases (ltb 0 n)) [
  | inl t ↦ rw (kept_positive e n t, parse_number dates n t) (kept_positive (number n) n t)
  | inr t ↦ rw (kept_zero e n t, h) (kept_zero e n t)
]

normalized_oauth_idem :
    (dates : Dates) (o : Oauth)
    → normalized_oauth dates (normalized_oauth dates o) ≡ normalized_oauth dates o
unfolding normalized_oauth
normalized_oauth_idem dates o =
    rw (kept_again dates (o.expires_at) _ refl, scopes_idem (o.scopes)) refl

normalized_idem :
    (dates : Dates) (q : Option Bundle) (b : Bundle)
    → normalized_bundle dates q ≡ some b
    → normalized_bundle dates (some b) ≡ some b
unfolding normalized_bundle
normalized_idem dates none b h = cc
normalized_idem dates (some a) b h =
    let w : Oauth → Bundle = λ o. record { claude_ai_oauth = o; oauth_account = a.oauth_account } in
    let e : w (normalized_oauth dates (a.claude_ai_oauth)) ≡ b = cc h in
    subst (λ x. normalized_bundle dates (some x) ≡ some x) e
      (ap (λ o. some (w o)) (normalized_oauth_idem dates (a.claude_ai_oauth)))

-- What is built from a built bundle is that bundle.
pub build_claude_native_bundle_idem :
    (dates : Dates) (p : Option Parts) (b : Bundle)
    → build_claude_native_bundle dates p ≡ some b
    → build_claude_native_bundle dates (some (whole b)) ≡ some b
unfolding build_claude_native_bundle normalized_bundle parts_bundle both_parts
build_claude_native_bundle_idem dates p b h = normalized_idem dates (parts_bundle p) b h
