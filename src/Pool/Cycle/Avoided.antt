-- ===== src/Pool/Cycle/Avoided.antt =====
-- What the loop over the recent labels collects.
use aimgr.Prelude.{
  ℕ, suc, ◌-◌, ◌≤◌, ◌≡◌, inl, inr, Bool, true, false, List, [], ◌∷◌, ◌++◌, reverse, Text, same_refl,
  includes, ltb, length, length-append, arith, Bool-cases, lt→ltb,
}
use mathlib.Core.List.{reverse-append}
use aimgr.Pool.Cycle.{add_text, add_if, avoid_loop, cycle_avoid}
use aimgr.Pool.Cycle.Laws.{includes-add_text}

length-add_text : (x : Text) (xs : List Text) → length (add_text x xs) ≤ suc (length xs)
unfolding add_text
length-add_text x xs = ground (arith, length-append xs (x ∷ []))

length-add_if : (b : Bool) (x : Text) (xs : List Text) → length (add_if b x xs) ≤ suc (length xs)
unfolding add_if
length-add_if true x xs = length-add_text x xs
length-add_if false x xs = omega arith

-- The loop keeps below its limit.
length-avoid_loop :
    (alternatives : List Text) (limit : ℕ) (recent avoided : List Text)
    → length avoided ≤ limit
    → length (avoid_loop alternatives limit recent avoided) ≤ limit
unfolding avoid_loop
length-avoid_loop alternatives limit [] avoided h = h
length-avoid_loop alternatives limit (x ∷ older) avoided h =
    elim (Bool-cases (ltb (length avoided) limit)) [
      | inl e ↦ rw e (
          length-avoid_loop alternatives limit older _
            (ground (arith, length-add_if (includes x alternatives) x avoided)))
      | inr e ↦ rw e h
    ]

includes-add_if :
    (b : Bool) (y x : Text) (xs : List Text)
    → includes y xs ≡ true
    → includes y (add_if b x xs) ≡ true
unfolding add_if
includes-add_if true y x xs h = ground (arith, includes-add_text y x xs)
includes-add_if false y x xs h = h

-- What the loop has collected it keeps.
avoid_loop_keeps :
    (alternatives : List Text) (limit : ℕ) (recent avoided : List Text) (y : Text)
    → includes y avoided ≡ true
    → includes y (avoid_loop alternatives limit recent avoided) ≡ true
unfolding avoid_loop
avoid_loop_keeps alternatives limit [] avoided y h = h
avoid_loop_keeps alternatives limit (x ∷ older) avoided y h =
    elim (Bool-cases (ltb (length avoided) limit)) [
      | inl e ↦
          rw e (avoid_loop_keeps alternatives limit older _ y (includes-add_if _ y x avoided h))
      | inr e ↦ rw e h
    ]

-- There are fewer avoided labels than alternatives.
pub length-cycle_avoid :
    (alternatives recent : List Text)
    → length (cycle_avoid alternatives recent) ≤ length alternatives - 1
unfolding cycle_avoid
length-cycle_avoid alternatives recent =
    length-avoid_loop alternatives _ (reverse recent) [] (omega arith)

-- The newest label is avoided where it is one of two or more alternatives.
pub cycle_avoid_newest :
    (alternatives recent : List Text) (x : Text)
    → includes x alternatives ≡ true
    → 2 ≤ length alternatives
    → includes x (cycle_avoid alternatives (recent ++ (x ∷ []))) ≡ true
unfolding cycle_avoid avoid_loop add_if add_text includes
cycle_avoid_newest alternatives recent x h two =
    rw (reverse-append recent (x ∷ []), h, lt→ltb 0 (length alternatives - 1) (omega arith))
      (avoid_loop_keeps alternatives _ (reverse recent) (x ∷ []) x (ground (arith, same_refl x)))
