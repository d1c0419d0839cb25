-- ===== src/Core/Providers/Laws.antt =====
-- Normalizing a provider twice (src/core/providers.js).
use aimgr.Prelude.{
  ℕ, ◌<◌, ◌≡◌, refl, ap, ◌∙◌, ◌⊎◌, [], ◌∷◌, map, Text, codes, same, trim, trim_idem, trim-map,
  LowerCase, IsAscii, is_space, lower_unit, arith, inl, inr,
}
use aimgr.Core.Providers.{dash_unit, provider_alias, normalize_provider_id}

unit_space : (c : ℕ) → is_space (dash_unit (lower_unit c)) ≡ is_space c
unfolding is_space dash_unit lower_unit
unit_space c = ground arith

lower_space : (c : ℕ) → is_space (lower_unit c) ≡ is_space c
unfolding is_space lower_unit
lower_space c = ground arith

dash_space : (c : ℕ) → is_space (dash_unit c) ≡ is_space c
unfolding is_space dash_unit
dash_space c = ground arith

normal_unit : (c : ℕ) → dash_unit (lower_unit (dash_unit (lower_unit c))) ≡ dash_unit (lower_unit c)
unfolding dash_unit lower_unit
normal_unit c = ground arith

unit_ascii : (c : ℕ) → c < 128 → dash_unit (lower_unit c) < 128
unfolding dash_unit lower_unit
unit_ascii c h = ground arith

-- What the two replacements give on ASCII.
abbrev dashed : Text → Text
dashed t = map dash_unit (map lower_unit t)

dashed_idem : (t : Text) → dashed (dashed t) ≡ dashed t
dashed_idem [] = refl
dashed_idem (c ∷ t) = cc (normal_unit c, dashed_idem t)

dashed-IsAscii : (t : Text) → IsAscii t → IsAscii (dashed t)
dashed-IsAscii [] h = tt
dashed-IsAscii (c ∷ t) h = (unit_ascii c h.0, dashed-IsAscii t h.1)

trim-dashed : (t : Text) → trim (dashed t) ≡ dashed (trim t)
trim-dashed t = simp (trim-map dash_unit dash_space, trim-map lower_unit lower_space)

normalize_dashed :
    (l : LowerCase) (t : Text)
    → IsAscii t
    → trim t ≡ t
    → normalize_provider_id l (dashed t) ≡ provider_alias (dashed t)
unfolding normalize_provider_id
normalize_dashed l t a e =
    rw (trim-dashed t, e, l.lower_ascii _ (dashed-IsAscii t a), dashed_idem t)

normalize_xai : (l : LowerCase) → normalize_provider_id l (codes "xai") ≡ codes "xai"
unfolding normalize_provider_id provider_alias same trim lower_unit dash_unit
normalize_xai l = rw (l.lower_ascii (codes "xai") (omega arith))

provider_alias_cases : (t : Text) → (provider_alias t ≡ codes "xai") ⊎ (provider_alias t ≡ t)
unfolding provider_alias
provider_alias_cases t = ground arith

normalize_at :
    (l : LowerCase) (input : Text)
    → IsAscii (trim input)
    → normalize_provider_id l input ≡ provider_alias (dashed (trim input))
unfolding normalize_provider_id
normalize_at l input a = rw (l.lower_ascii (trim input) a)

alias_again :
    (l : LowerCase) (t : Text)
    → IsAscii t
    → trim t ≡ t
    → normalize_provider_id l (provider_alias (dashed t)) ≡ provider_alias (dashed t)
alias_again l t a e = elim (provider_alias_cases (dashed t)) [
  | inl x ↦ rw x (normalize_xai l)
  | inr x ↦ ap (normalize_provider_id l) x ∙ normalize_dashed l t a e
]

-- On ASCII input `normalizeProviderId` is idempotent: a second call changes nothing, also where the
-- first one resolved an alias.
pub normalize_provider_id_idem :
    (l : LowerCase) (input : Text)
    → IsAscii (trim input)
    → normalize_provider_id l (normalize_provider_id l input) ≡ normalize_provider_id l input
normalize_provider_id_idem l input a =
    rw (normalize_at l input a) (alias_again l (trim input) a (trim_idem input))

pub normalize_anthropic :
    (l : LowerCase) → normalize_provider_id l (codes "anthropic") ≡ codes "anthropic"
unfolding normalize_provider_id provider_alias same trim lower_unit dash_unit
normalize_anthropic l = rw (l.lower_ascii (codes "anthropic") (omega arith))
