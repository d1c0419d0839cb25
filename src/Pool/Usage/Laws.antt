-- ===== src/Pool/Usage/Laws.antt =====
-- The bounds of the percentages of src/pool/token-usage.js.
use aimgr.Prelude.{
  ◌≡◌, Bool, true, false, Option, none, some, List, [], ◌∷◌, Bool-cases, inl, inr, arith,
  if◌then◌else◌,
}
use aimgr.Pool.Usage.{
  Numbers, math_max, math_min, clamp_percent, Snapshot, window_percents, get_codex_usage_percents,
  Capacity, capacity_of, build_label_capacity_info,
}

module _ (num : Numbers) where
  open num use {Number, order, of_ℕ, minus, of_ℕ-le}

  abbrev IsPercent : Number → Type 0
  IsPercent n = (order.le (of_ℕ 0) n ≡ true) × (order.le n (of_ℕ 100) ≡ true)

  zero-IsPercent : IsPercent (of_ℕ 0)
  zero-IsPercent = (of_ℕ-le 0 0, of_ℕ-le 0 100)

  hundred-IsPercent : IsPercent (of_ℕ 100)
  hundred-IsPercent = (of_ℕ-le 0 100, of_ℕ-le 100 100)

  if-IsPercent :
      (b : Bool) (m n : Number) → IsPercent m → IsPercent n → IsPercent (if b then m else n)
  if-IsPercent true m n p q = p
  if-IsPercent false m n p q = q

  math_max-IsPercent : (m n : Number) → IsPercent m → IsPercent n → IsPercent (math_max num m n)
  unfolding math_max
  math_max-IsPercent m n p q = if-IsPercent (order.le m n) n m q p

  clamp_percent-IsPercent : (n : Option Number) → IsPercent (clamp_percent num n)
  unfolding clamp_percent math_max math_min
  clamp_percent-IsPercent none = zero-IsPercent
  clamp_percent-IsPercent (some n) = ground (
    arith,
    order.total (of_ℕ 100) n,
    order.total (of_ℕ 0) n,
    order.total (of_ℕ 0) (of_ℕ 100),
    of_ℕ-le 0 100,
    of_ℕ-le 0 0,
    of_ℕ-le 100 100,
  )

  window_percents-IsPercent :
      (ws : List (Option Number))
      → IsPercent (window_percents num ws).0 × IsPercent (window_percents num ws).1
  unfolding window_percents
  window_percents-IsPercent [] = (zero-IsPercent, zero-IsPercent)
  window_percents-IsPercent (p ∷ []) = (clamp_percent-IsPercent p, zero-IsPercent)
  window_percents-IsPercent (p ∷ q ∷ rest) = (clamp_percent-IsPercent p, clamp_percent-IsPercent q)

  get_percents-IsPercent :
      (s : Option (Snapshot num))
      → IsPercent (get_codex_usage_percents num s).0 × IsPercent (get_codex_usage_percents num s).1
  unfolding get_codex_usage_percents
  get_percents-IsPercent none = (hundred-IsPercent, hundred-IsPercent)
  get_percents-IsPercent (some s) = elim (Bool-cases s.is_ok) [
    | inl e ↦ rw e (window_percents-IsPercent s.windows)
    | inr e ↦ rw e (hundred-IsPercent, hundred-IsPercent)
  ]

  -- All percentages of a capacity lie between 0 and 100.
  pub record IsBounded (c : Capacity num) : Type 0 where
    pub primary_used : IsPercent c.primary_used_pct
    pub secondary_used : IsPercent c.secondary_used_pct
    pub primary_remaining : IsPercent c.primary_remaining_pct
    pub secondary_remaining : IsPercent c.secondary_remaining_pct
    pub planning_used : IsPercent c.planning_used_pct
    pub planning_remaining : IsPercent c.planning_remaining_pct
    pub bottleneck_used : IsPercent c.bottleneck_used_pct

  capacity_of-IsBounded :
      (two : Bool) (p : Number × Number)
      → IsPercent p.0
      → IsPercent p.1
      → IsBounded (capacity_of num two p)
  unfolding capacity_of
  capacity_of-IsBounded two (m, n) p q =
      let primary = clamp_percent-IsPercent (some (minus (of_ℕ 100) m)) in
      let secondary =
        if-IsPercent two _ _ (clamp_percent-IsPercent (some (minus (of_ℕ 100) n))) primary in
      record {
        primary_used = p;
        secondary_used = q;
        primary_remaining = primary;
        secondary_remaining = secondary;
        planning_used = if-IsPercent two n m q p;
        planning_remaining = if-IsPercent two _ _ secondary primary;
        bottleneck_used = math_max-IsPercent m _ p (if-IsPercent two n m q p);
      }

  -- Whatever snapshot there is, or none, and whatever numbers it reports, every percentage that
  -- planning works with is a number from 0 to 100.
  pub build_capacity-IsBounded :
      (s : Option (Snapshot num)) → IsBounded (build_label_capacity_info num s)
  unfolding build_label_capacity_info
  build_capacity-IsBounded s =
      capacity_of-IsBounded _ (get_codex_usage_percents num s) (get_percents-IsPercent s).0
        (get_percents-IsPercent s).1
