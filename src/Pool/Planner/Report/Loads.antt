-- ===== src/Pool/Planner/Report/Loads.antt =====
-- Every assignment is counted in the load of exactly one label.
use aimgr.Prelude.{
  ℕ, ◌+◌, ◌≡◌, refl, ap, ◌∙◌, inl, inr, true, false, List, [], ◌∷◌, map, Text, same, includes,
  Preorder, insert_by, sort_by, All, arith, Bool-cases, if◌then◌else◌, length, length-map,
}
use aimgr.Pool.Usage.{Numbers}
use aimgr.Pool.Cycle.Laws.{IsDistinct, includes-same}
use aimgr.Pool.Planner.Weights.{Arithmetic}
use aimgr.Pool.Planner.Loop.{Setting, Progress}
use aimgr.Pool.Planner.Loop.Books.{count_of}
use aimgr.Pool.Planner.Report.{Load, load_of, build_weighted_per_account_load}

abbrev sum_by {ℓ} : {A : Type ℓ} → (A → ℕ) → List A → ℕ
sum_by f [] = 0
sum_by f (x ∷ xs) = f x + sum_by f xs

sum_by-insert_by :
    {A : Type 0} (o : Preorder A) (f : A → ℕ) (x : A) (xs : List A)
    → sum_by f (insert_by o x xs) ≡ f x + sum_by f xs
unfolding insert_by
sum_by-insert_by o f x [] = refl
sum_by-insert_by o f x (y ∷ ys) = elim (Bool-cases (o.le x y)) [
  | inl e ↦ rw e refl
  | inr e ↦ rw e (omega (arith, sum_by-insert_by o f x ys))
]

sum_by-sort_by :
    {A : Type 0} (o : Preorder A) (f : A → ℕ) (xs : List A) → sum_by f (sort_by o xs) ≡ sum_by f xs
unfolding sort_by
sum_by-sort_by o f [] = refl
sum_by-sort_by o f (x ∷ xs) =
    omega (arith, sum_by-insert_by o f x (sort_by o xs), sum_by-sort_by o f xs)

sum_by-map :
    {A B : Type 0} (f : B → ℕ) (h : A → B) (xs : List A)
    → sum_by f (map h xs) ≡ sum_by (λ x. f (h x)) xs
sum_by-map f h [] = refl
sum_by-map f h (x ∷ xs) = ap (◌+◌ (f (h x))) (sum_by-map f h xs)

sum_by-ext :
    {A : Type 0} (f h : A → ℕ) (xs : List A) → ((x : A) → f x ≡ h x) → sum_by f xs ≡ sum_by h xs
sum_by-ext f h [] e = refl
sum_by-ext f h (x ∷ xs) e = omega (arith, e x, sum_by-ext f h xs e)

abbrev indicator : Text → Text → ℕ
indicator t l = if same l t then 1 else 0

sum_by-absent : (t : Text) (ls : List Text) → includes t ls ≡ false → sum_by (indicator t) ls ≡ 0
unfolding includes
sum_by-absent t [] h = refl
sum_by-absent t (l ∷ ls) h = ground (arith, sum_by-absent t ls)

-- In a list without repetitions a member is met once.
sum_by-member :
    (t : Text) (ls : List Text) → IsDistinct ls → includes t ls ≡ true → sum_by (indicator t) ls ≡ 1
unfolding includes
sum_by-member t [] d h = ground arith
sum_by-member t (l ∷ ls) d h =
    ground (arith, sum_by-member t ls d.1, sum_by-absent t ls, d.0, includes-same l t ls)

sum_by-count_of-cons :
    (s t : Text) (pairs : List (Text × Text)) (ls : List Text)
    → sum_by (λ l. count_of l ((s, t) ∷ pairs)) ls
      ≡ sum_by (indicator t) ls + sum_by (λ l. count_of l pairs) ls
sum_by-count_of-cons s t pairs [] = refl
sum_by-count_of-cons s t pairs (l ∷ ls) = ground (arith, sum_by-count_of-cons s t pairs ls)

sum_by-none : {A : Type 0} (ls : List A) → sum_by (λ l. 0) ls ≡ 0
sum_by-none [] = refl
sum_by-none (l ∷ ls) = omega (arith, sum_by-none ls)

-- The counts of all labels add up to the number of assignments.
sum_by-count_of :
    (pairs : List (Text × Text)) (ls : List Text)
    → IsDistinct ls
    → All (λ a. includes a.1 ls ≡ true) pairs
    → sum_by (λ l. count_of l pairs) ls ≡ length pairs
sum_by-count_of [] ls d h = sum_by-none ls
sum_by-count_of ((s, t) ∷ pairs) ls d h = omega (
  arith,
  sum_by-count_of-cons s t pairs ls,
  sum_by-member t ls d h.0,
  sum_by-count_of pairs ls d h.1,
)

module _ (num : Numbers) (ar : Arithmetic num) (locale : Preorder Text) where
  -- The agents that all accounts carry.
  abbrev pub total_agents : List (Load num ar locale) → ℕ
  total_agents = sum_by (λ (l : Load num ar locale). l.carried_agent_count)

  pub total_agents-load :
      (g : Setting num ar locale) (p : Progress num ar locale)
      → IsDistinct g.labels
      → All (λ a. includes a.1 g.labels ≡ true) p.assignments
      → total_agents (build_weighted_per_account_load num ar locale g p) ≡ length p.assignments
  unfolding build_weighted_per_account_load
  total_agents-load g p d h =
      sum_by-sort_by _ (λ (l : Load num ar locale). l.carried_agent_count) _
      ∙ sum_by-map _ (load_of num ar locale g p) g.labels
      ∙ sum_by-ext _ (λ l. count_of l p.assignments) g.labels (λ l. length-map _ (λ a. a.0))
      ∙ sum_by-count_of p.assignments g.labels d h
