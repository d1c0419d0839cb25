-- ===== src/Pool/Cycle/Fresh.antt =====
-- A list without repetitions that is longer than a set has an element outside the set.
use aimgr.Prelude.{
  suc, ◌≤◌, ◌<◌, ◌≡◌, ◌⊎◌, inl, inr, true, false, List, [], ◌∷◌, Text, same, same_iff, same_refl,
  includes, length, arith, Bool-cases, if◌then◌else◌,
}
use aimgr.Pool.Cycle.Laws.{IsDistinct, includes-same}

unfoldable remove : Text → List Text → List Text
remove x [] = []
remove x (y ∷ ys) = if same y x then ys else y ∷ remove x ys

length-remove :
    (x : Text) (ys : List Text) → includes x ys ≡ true → suc (length (remove x ys)) ≡ length ys
unfolding remove includes
length-remove x [] h = ground arith
length-remove x (y ∷ ys) h = ground (arith, length-remove x ys)

includes-remove :
    (z x : Text) (ys : List Text)
    → same x z ≡ false
    → includes z ys ≡ true
    → includes z (remove x ys) ≡ true
unfolding remove includes
includes-remove z x [] n h = h
includes-remove z x (y ∷ ys) n h =
    ground (arith, includes-remove z x ys, same_iff y x, same_iff y z, same_iff x z)

-- A list without repetitions is at most as long as a set that has all its elements.
pub length-le_of_subset :
    (xs ys : List Text)
    → IsDistinct xs
    → ((z : Text) → includes z xs ≡ true → includes z ys ≡ true)
    → length xs ≤ length ys
unfolding includes
length-le_of_subset [] ys d sub = omega arith
length-le_of_subset (x ∷ xs) ys d sub =
    let smaller = length-le_of_subset xs (remove x ys) d.1 (λ z m.
      includes-remove z x ys (ground (arith, d.0, includes-same x z xs)) (sub z (ground arith))) in
    ground (arith, smaller, length-remove x ys, sub x, same_refl x)

-- Either all elements are in the set, or one is not.
find_outside :
    (xs ys : List Text)
    → ((z : Text) → includes z xs ≡ true → includes z ys ≡ true)
      ⊎ ((z : Text) × (includes z xs ≡ true) × (includes z ys ≡ false))
unfolding includes
find_outside [] ys = inl (λ z m. ground arith)
find_outside (x ∷ xs) ys = elim (Bool-cases (includes x ys)) [
  | inl e ↦ elim (find_outside xs ys) [
    | inl f ↦ inl (λ z m. ground (arith, f z, same_iff x z, includes-same x z ys))
    | inr w ↦ inr (w.0, ground (arith, w.1), w.2)
  ]
  | inr e ↦ inr (x, ground (arith, same_refl x), e)
]

pub fresh :
    (xs ys : List Text)
    → IsDistinct xs
    → length ys < length xs
    → (z : Text) × (includes z xs ≡ true) × (includes z ys ≡ false)
fresh xs ys d h = elim (find_outside xs ys) [
  | inl f ↦ absurd (ground (arith, length-le_of_subset xs ys d f))
  | inr w ↦ w
]
