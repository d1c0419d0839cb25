-- ===== src/Pool/Select/Sorted.antt =====
-- The labels of a list of candidates do not depend on the order it is sorted in.
use aimgr.Prelude.{
  ◌≡◌, refl, ap, ◌∙◌, inl, inr, Bool, true, false, ◌||◌, ◌&&◌, List, [], ◌∷◌, map, Text, same,
  same_iff, includes, Preorder, insert_by, sort_by, filter, arith, Bool-cases,
}
use aimgr.Pool.Cycle.Laws.{IsDistinct}

module _ {A : Type 0} (o : Preorder A) (f : A → Text) where
  includes-insert_by :
      (t : Text) (x : A) (xs : List A)
      → includes t (map f (insert_by o x xs)) ≡ (same (f x) t || includes t (map f xs))
  unfolding insert_by includes
  includes-insert_by t x [] = refl
  includes-insert_by t x (y ∷ ys) = elim (Bool-cases (o.le x y)) [
    | inl e ↦ rw e refl
    | inr e ↦ rw e (ground (arith, includes-insert_by t x ys))
  ]

  pub includes-sort_by :
      (t : Text) (xs : List A) → includes t (map f (sort_by o xs)) ≡ includes t (map f xs)
  unfolding sort_by includes
  includes-sort_by t [] = refl
  includes-sort_by t (x ∷ xs) =
      ground (arith, includes-insert_by t x (sort_by o xs), includes-sort_by t xs)

  insert_by-IsDistinct :
      (x : A) (xs : List A)
      → includes (f x) (map f xs) ≡ false
      → IsDistinct (map f xs)
      → IsDistinct (map f (insert_by o x xs))
  unfolding insert_by includes
  insert_by-IsDistinct x [] h d = (refl, tt)
  insert_by-IsDistinct x (y ∷ ys) h d = elim (Bool-cases (o.le x y)) [
    | inl e ↦ rw e (h, d)
    | inr e ↦ rw e (
      ground (arith, includes-insert_by (f y) x ys, same_iff (f y) (f x), same_iff (f x) (f y)),
      insert_by-IsDistinct x ys (ground arith) d.1,
    )
  ]

  pub sort_by-IsDistinct : (xs : List A) → IsDistinct (map f xs) → IsDistinct (map f (sort_by o xs))
  unfolding sort_by
  sort_by-IsDistinct [] d = tt
  sort_by-IsDistinct (x ∷ xs) d =
      insert_by-IsDistinct x (sort_by o xs) (includes-sort_by (f x) xs ∙ d.0)
        (sort_by-IsDistinct xs d.1)

test_same : (p : Text → Bool) (s t : Text) → same s t ≡ true → p s ≡ p t
test_same p s t h = ap p ((same_iff s t).0 h)

-- A filter keeps the texts that pass it.
pub includes-filter :
    (p : Text → Bool) (t : Text) (xs : List Text)
    → includes t (filter p xs) ≡ (includes t xs && p t)
unfolding includes
includes-filter p t [] = refl
includes-filter p t (x ∷ xs) = elim (Bool-cases (p x)) [
  | inl e ↦ rw e (ground (arith, includes-filter p t xs, test_same p x t))
  | inr e ↦ rw e (ground (arith, includes-filter p t xs, test_same p x t))
]

pub filter-IsDistinct :
    (p : Text → Bool) (xs : List Text) → IsDistinct xs → IsDistinct (filter p xs)
filter-IsDistinct p [] d = tt
filter-IsDistinct p (x ∷ xs) d = elim (Bool-cases (p x)) [
  | inl e ↦ rw e (ground (arith, includes-filter p x xs, d.0), filter-IsDistinct p xs d.1)
  | inr e ↦ rw e (filter-IsDistinct p xs d.1)
]
