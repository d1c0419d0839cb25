-- ===== src/Core/Labels/Laws.antt =====
-- What a normalized label or identifier is (src/core/labels.js).
use aimgr.Prelude.{
  ℕ, ◌≡◌, ◌↔◌, true, false, [], ◌∷◌, Text, same, includes, trim, LowerCase, lower-trim_fixed,
  trim_fixed, is_space, lower_unit, IsPlainUnit, All, All-imp, All-of_all, ok, arith,
}
use aimgr.Core.Labels.{
  is_label_start, is_label_unit, is_label_text, reserved, default_name, check_label,
  normalize_label, is_id_start, is_id_unit, check_id, normalize_agent_id, normalize_hermes_home_id,
}

-- What the rest of the program relies on: the pattern holds, and no reserved word is taken.
pub record IsLabel (t : Text) : Type 0 where
  pub matches : is_label_text t ≡ true
  pub free : includes t reserved ≡ false
  pub named : same t default_name ≡ false

check_label_sound : (t u : Text) → check_label t ≡ ok u → (t ≡ u) × IsLabel u
unfolding check_label
check_label_sound [] u h = cc
check_label_sound (c ∷ t) u h = ground arith

check_label_complete : (t : Text) → IsLabel t → check_label t ≡ ok t
unfolding check_label is_label_text
check_label_complete [] v = cc (v.matches)
check_label_complete (c ∷ t) v = ground (arith, v.matches, v.free, v.named)

label_unit_plain : (c : ℕ) → is_label_unit c ≡ true → IsPlainUnit c
unfolding is_label_unit is_space lower_unit
label_unit_plain c h = (ground arith, ground arith, ground arith)

label_start_unit : (c : ℕ) → is_label_start c ≡ true → is_label_unit c ≡ true
unfolding is_label_unit
label_start_unit c h = ground arith

pub label_text_units : (t : Text) → is_label_text t ≡ true → All (λ c. is_label_unit c ≡ true) t
unfolding is_label_text
label_text_units [] h = tt
label_text_units (c ∷ t) h =
    (label_start_unit c (ground arith), All-of_all is_label_unit t (ground arith))

label_text_plain : (t : Text) → is_label_text t ≡ true → All IsPlainUnit t
label_text_plain t h = All-imp _ _ t label_unit_plain (label_text_units t h)

-- `normalizeLabel` returns exactly the valid labels, and what it returns is the trimmed and
-- lowered input.
pub normalize_label_iff :
    (l : LowerCase) (input u : Text)
    → (normalize_label l input ≡ ok u) ↔ ((l.lower (trim input) ≡ u) × IsLabel u)
unfolding normalize_label
normalize_label_iff l input u =
    (check_label_sound (l.lower (trim input)) u, λ h. rw h.0 (check_label_complete u h.1))

-- A normalized label is a fixed point: it passes through `normalizeLabel` unchanged.
pub normalize_label_idem :
    (l : LowerCase) (input u : Text) → normalize_label l input ≡ ok u → normalize_label l u ≡ ok u
normalize_label_idem l input u h =
    let v = ((normalize_label_iff l input u).0 h).1 in
    (normalize_label_iff l u u).1 (lower-trim_fixed l u (label_text_plain u v.matches), v)

id_unit_space : (c : ℕ) → is_id_unit c ≡ true → is_space c ≡ false
unfolding is_id_unit is_space
id_unit_space c h = ground arith

id_start_unit : (c : ℕ) → is_id_start c ≡ true → is_id_unit c ≡ true
unfolding is_id_unit
id_start_unit c h = ground arith

check_id_sound : (t u : Text) → check_id t ≡ ok u → (t ≡ u) × All (λ c. is_id_unit c ≡ true) t
unfolding check_id
check_id_sound [] u h = cc
check_id_sound (c ∷ t) u h =
    (ground arith, (id_start_unit c (ground arith), All-of_all is_id_unit t (ground arith)))

check_id-trim : (t u : Text) → check_id t ≡ ok u → check_id (trim u) ≡ ok u
check_id-trim t u h =
    let v = check_id_sound t u h in
    let e : check_id u ≡ ok u = rw v.0 at h in
    rw (trim_fixed u (rw v.0 at (All-imp _ _ t id_unit_space v.1))) e

-- A normalized agent id or Hermes home id is a fixed point of both normalizers, which agree.
pub normalize_id_idem :
    (input u : Text)
    → normalize_agent_id input ≡ ok u
    → (normalize_agent_id u ≡ ok u) × (normalize_hermes_home_id u ≡ ok u)
unfolding normalize_agent_id normalize_hermes_home_id
normalize_id_idem input u h = (check_id-trim (trim input) u h, check_id-trim (trim input) u h)
