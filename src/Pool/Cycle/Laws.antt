-- ===== src/Pool/Cycle/Laws.antt =====
-- The avoided labels are alternatives, fewer than there are, and the newest one is among them.
use aimgr.Prelude.{
  subst, ◌≡◌, refl, ap, inl, inr, true, false, ◌||◌, List, [], ◌∷◌, ◌++◌, Text, same, same_iff,
  same_refl, includes, All, arith, Bool-cases,
}
use aimgr.Pool.Cycle.{add_text, add_all, distinct}

-- No text stands twice.
abbrev pub IsDistinct : List Text → Type 0
IsDistinct [] = Unit
IsDistinct (x ∷ xs) = (includes x xs ≡ false) × IsDistinct xs

abbrev Subset : List Text → List Text → Type 0
Subset xs ys = (x : Text) → includes x xs ≡ true → includes x ys ≡ true

pub includes-append :
    (x : Text) (xs ys : List Text) → includes x (xs ++ ys) ≡ (includes x xs || includes x ys)
unfolding includes
includes-append x [] ys = refl
includes-append x (y ∷ xs) ys = ground (arith, includes-append x xs ys)

IsDistinct-snoc :
    (x : Text) (xs : List Text)
    → IsDistinct xs
    → includes x xs ≡ false
    → IsDistinct (xs ++ (x ∷ []))
unfolding includes
IsDistinct-snoc x [] d h = (refl, tt)
IsDistinct-snoc x (y ∷ xs) d h = (
  ground (arith, includes-append y xs (x ∷ []), same_iff x y, same_iff y x),
  IsDistinct-snoc x xs d.1 (ground arith),
)

pub includes-same : (x y : Text) (xs : List Text) → same x y ≡ true → includes x xs ≡ includes y xs
includes-same x y xs h = let e : x ≡ y = (same_iff x y).0 h in ap (λ z. includes z xs) e

pub add_text-IsDistinct : (x : Text) (xs : List Text) → IsDistinct xs → IsDistinct (add_text x xs)
unfolding add_text
add_text-IsDistinct x xs d = elim (Bool-cases (includes x xs)) [
  | inl e ↦ rw e d
  | inr e ↦ rw e (IsDistinct-snoc x xs d e)
]

add_all-IsDistinct : (set xs : List Text) → IsDistinct set → IsDistinct (add_all set xs)
unfolding add_all
add_all-IsDistinct set [] d = d
add_all-IsDistinct set (x ∷ xs) d =
    add_all-IsDistinct (add_text x set) xs (add_text-IsDistinct x set d)

pub distinct-IsDistinct : (xs : List Text) → IsDistinct (distinct xs)
unfolding distinct
distinct-IsDistinct xs = add_all-IsDistinct [] xs tt

pub includes-add_text :
    (y x : Text) (xs : List Text) → includes y (add_text x xs) ≡ (includes y xs || same x y)
unfolding add_text includes
includes-add_text y x xs = elim (Bool-cases (includes x xs)) [
  | inl e ↦ rw e (ground (arith, same_iff x y, includes-same x y xs))
  | inr e ↦ rw e (ground (arith, includes-append y xs (x ∷ [])))
]

includes-add_all :
    (t : Text) (set xs : List Text)
    → includes t (add_all set xs) ≡ (includes t set || includes t xs)
unfolding add_all includes
includes-add_all t set [] = ground arith
includes-add_all t set (x ∷ xs) =
    ground (arith, includes-add_all t (add_text x set) xs, includes-add_text t x set)

-- A set has the elements of its list.
pub includes-distinct : (t : Text) (xs : List Text) → includes t (distinct xs) ≡ includes t xs
unfolding distinct includes
includes-distinct t xs = includes-add_all t [] xs

-- What holds of the members of a list holds of all its elements.
pub All-of_includes {κ} :
    (P : Text → Type κ) (xs : List Text) → ((t : Text) → includes t xs ≡ true → P t) → All P xs
unfolding includes
All-of_includes P [] f = tt
All-of_includes P (x ∷ xs) f =
    (f x (ground (arith, same_refl x)), All-of_includes P xs (λ t h. f t (ground arith)))

-- What holds of all elements holds of a member.
pub All-includes {κ} :
    (P : Text → Type κ) (xs : List Text) (t : Text) → All P xs → includes t xs ≡ true → P t
unfolding includes
All-includes P [] t h m = ground arith
All-includes P (x ∷ xs) t h m = elim (Bool-cases (same x t)) [
  | inl e ↦ subst P ((same_iff x t).0 e) h.0
  | inr e ↦ All-includes P xs t h.1 (ground arith)
]
