-- ===== src/Prelude/Trim.antt =====
-- `trim` removes the white space at both ends, and a second call finds none.
use mathlib.Core.Path.{◌≡◌, refl, sym, ◌∙◌, ap, subst}
use mathlib.Core.Bool.{false}
use mathlib.Core.Logic.{inl, inr}
use mathlib.Core.List.{
  [], ◌∷◌, ◌++◌, map, reverse, reverse-append, reverse-cons, reverse-reverse, map-append,
}
use native.Mathlib.Omega.{arith}
use aimgr.Prelude.Tests.{Bool-cases}
use aimgr.Prelude.Texts.{Text, is_space, trim_start, trim}
use Prim.Native.Nat.{ℕ}

-- No white space at the front.
abbrev IsTrimmed : Text → Type 0
IsTrimmed [] = Unit
IsTrimmed (c ∷ t) = is_space c ≡ false

trim_start-IsTrimmed : (t : Text) → IsTrimmed (trim_start t)
unfolding trim_start
trim_start-IsTrimmed [] = tt
trim_start-IsTrimmed (c ∷ t) = elim (Bool-cases (is_space c)) [
  | inl e ↦ rw e (trim_start-IsTrimmed t)
  | inr e ↦ rw e e
]

trim_start_of_IsTrimmed : (t : Text) → IsTrimmed t → trim_start t ≡ t
unfolding trim_start
trim_start_of_IsTrimmed [] h = refl
trim_start_of_IsTrimmed (c ∷ t) h = rw h

IsTrimmed-prefix : (s t : Text) → IsTrimmed (s ++ t) → IsTrimmed s
IsTrimmed-prefix [] t h = tt
IsTrimmed-prefix (c ∷ s) t h = h

-- What `trim_start` removes is a prefix.
trim_start_split : (t : Text) → (s : Text) × (t ≡ s ++ trim_start t)
unfolding trim_start
trim_start_split [] = ([], refl)
trim_start_split (c ∷ t) = elim (Bool-cases (is_space c)) [
  | inl e ↦ let (s, p) = trim_start_split t in (c ∷ s, rw e (ap (◌∷◌ c) p))
  | inr e ↦ ([], rw e)
]

trim_end-IsTrimmed : (w : Text) → IsTrimmed w → IsTrimmed (reverse (trim_start (reverse w)))
trim_end-IsTrimmed w h =
    let (s, p) = trim_start_split (reverse w) in
    let e : w ≡ reverse (trim_start (reverse w)) ++ reverse s =
      sym (reverse-reverse w) ∙ ap reverse p ∙ reverse-append s (trim_start (reverse w)) in
    IsTrimmed-prefix _ (reverse s) (subst IsTrimmed e h)

pub trim_idem : (t : Text) → trim (trim t) ≡ trim t
unfolding trim
trim_idem t =
    let w = trim_start t in
    rw (
      trim_start_of_IsTrimmed _ (trim_end-IsTrimmed w (trim_start-IsTrimmed t)),
      reverse-reverse (trim_start (reverse w)),
      trim_start_of_IsTrimmed _ (trim_start-IsTrimmed (reverse w)),
    )

-- A change of units that keeps white space apart from the rest commutes with `trim`.
module _ (f : ℕ → ℕ) (keeps : (c : ℕ) → is_space (f c) ≡ is_space c) where
  trim_start-map : (t : Text) → trim_start (map f t) ≡ map f (trim_start t)
  unfolding trim_start
  trim_start-map [] = refl
  trim_start-map (c ∷ t) = ground (arith, keeps c, trim_start-map t)

  reverse-map : (t : Text) → reverse (map f t) ≡ map f (reverse t)
  reverse-map [] = refl
  reverse-map (c ∷ t) =
      rw (reverse-cons (f c) (map f t), reverse-cons c t, reverse-map t, map-append f (reverse t))

  pub trim-map : (t : Text) → trim (map f t) ≡ map f (trim t)
  unfolding trim
  trim-map t = simp (trim_start-map, reverse-map)
