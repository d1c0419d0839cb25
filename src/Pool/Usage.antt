-- ===== src/Pool/Usage.antt =====
-- The usage that a provider reports for an account: src/core/numbers.js, `getCodexUsagePercents` of
-- src/pool/usage.js, `buildLabelCapacityInfo` of src/pool/token-usage.js, and the tests for an
-- exhausted account of src/pool/account-status.js.
pub mod Laws
use aimgr.Prelude.{
  ℕ, ◌≡◌, Bool, true, false, ◌||◌, not, Option, none, some, List, [], ◌∷◌, map, Text, codes, trim,
  contains, lower_unit, leb, ltb, ◌==◌, length, Preorder, if◌then◌else◌,
}
use aimgr.Coordination.Keys.{is_empty}

-- The finite double-precision numbers, as far as the pool uses them. No value is NaN.
pub record Numbers : Type 1 where
  pub Number : Type 0
  pub order : Preorder Number
  pub of_ℕ : ℕ → Number
  pub minus : Number → Number → Number
  pub of_ℕ-le : (m n : ℕ) → order.le (of_ℕ m) (of_ℕ n) ≡ leb m n

module _ (num : Numbers) where
  open num use {Number, order, of_ℕ, minus}

  -- `Math.max` and `Math.min`.
  unfoldable pub math_max : Number → Number → Number
  math_max a b = if order.le a b then b else a

  unfoldable pub math_min : Number → Number → Number
  math_min a b = if order.le a b then a else b

  -- `none` is a value that `Number` does not turn into a finite number.
  unfoldable pub clamp_percent : Option Number → Number
  unfolding math_max math_min
  clamp_percent none = of_ℕ 0
  clamp_percent (some n) = math_max (of_ℕ 0) (math_min (of_ℕ 100) n)

  -- A window is its `usedPercent`; `none` also where that is missing.
  pub record Snapshot : Type 0 where
    pub is_ok : Bool
    pub status : Option ℕ
    pub error : Text
    pub allowed : Option Bool
    pub limit_reached : Option Bool
    pub rate_limit_reached_type : Option Text
    pub windows : List (Option Number)

  -- `windows[0]` and `windows[1]`, clamped.
  unfoldable pub window_percents : List (Option Number) → Number × Number
  unfolding clamp_percent
  window_percents [] = (of_ℕ 0, of_ℕ 0)
  window_percents (p ∷ []) = (clamp_percent p, of_ℕ 0)
  window_percents (p ∷ q ∷ rest) = (clamp_percent p, clamp_percent q)

  unfoldable pub get_codex_usage_percents : Option Snapshot → Number × Number
  unfolding window_percents
  get_codex_usage_percents none = (of_ℕ 100, of_ℕ 100)
  get_codex_usage_percents (some snapshot) =
      if snapshot.is_ok then window_percents snapshot.windows else (of_ℕ 100, of_ℕ 100)

  pub record Capacity : Type 0 where
    pub primary_used_pct : Number
    pub secondary_used_pct : Number
    pub primary_remaining_pct : Number
    pub secondary_remaining_pct : Number
    pub planning_used_pct : Number
    pub planning_remaining_pct : Number
    pub bottleneck_used_pct : Number

  unfoldable pub windows_of : Option Snapshot → List (Option Number)
  windows_of none = []
  windows_of (some snapshot) = snapshot.windows

  unfoldable pub capacity_of : Bool → Number × Number → Capacity
  unfolding clamp_percent math_max
  capacity_of two (primary, secondary) =
      let primary_remaining = clamp_percent (some (minus (of_ℕ 100) primary)) in
      let secondary_remaining =
        if two then clamp_percent (some (minus (of_ℕ 100) secondary)) else primary_remaining in
      record {
        primary_used_pct = primary;
        secondary_used_pct = secondary;
        primary_remaining_pct = primary_remaining;
        secondary_remaining_pct = secondary_remaining;
        planning_used_pct = if two then secondary else primary;
        planning_remaining_pct = if two then secondary_remaining else primary_remaining;
        bottleneck_used_pct = math_max primary (if two then secondary else primary);
      }

  unfoldable pub build_label_capacity_info : Option Snapshot → Capacity
  unfolding capacity_of windows_of get_codex_usage_percents
  build_label_capacity_info snapshot =
      capacity_of (ltb 1 (length (windows_of snapshot))) (get_codex_usage_percents snapshot)

  -- `/rate limit|usage limit|too many requests|exhaust/i`.
  unfoldable pub is_limit_text : Text → Bool
  unfolding contains
  is_limit_text error =
      let t = map lower_unit error in
      contains (codes "rate limit") t
      || contains (codes "usage limit") t
      || contains (codes "too many requests") t
      || contains (codes "exhaust") t

  unfoldable pub is_status : Option ℕ → ℕ → Bool
  is_status none n = false
  is_status (some m) n = m == n

  unfoldable pub is_flag : Option Bool → Bool → Bool
  is_flag none b = false
  is_flag (some true) b = b
  is_flag (some false) b = not b

  unfoldable pub is_filled : Option Text → Bool
  is_filled none = false
  is_filled (some t) = not (is_empty (trim t))

  -- One of the two percentages reaches the limit.
  unfoldable pub reaches : ℕ → Number × Number → Bool
  reaches n (primary, secondary) = order.le (of_ℕ n) primary || order.le (of_ℕ n) secondary

  unfoldable pub is_usage_snapshot_hard_rate_limited : Option Snapshot → Bool
  unfolding is_status is_flag is_filled is_limit_text reaches get_codex_usage_percents
  is_usage_snapshot_hard_rate_limited none = false
  is_usage_snapshot_hard_rate_limited (some snapshot) =
      if snapshot.is_ok
      then is_flag snapshot.allowed false
        || is_flag snapshot.limit_reached true
        || is_filled snapshot.rate_limit_reached_type
        || reaches 100 (get_codex_usage_percents (some snapshot))
      else is_status snapshot.status 429
        || is_status snapshot.status 409
        || is_limit_text snapshot.error

  unfoldable pub is_usage_snapshot_exhausted : Option Snapshot → Bool
  unfolding is_usage_snapshot_hard_rate_limited reaches get_codex_usage_percents
  is_usage_snapshot_exhausted none = false
  is_usage_snapshot_exhausted (some snapshot) =
      if is_usage_snapshot_hard_rate_limited (some snapshot)
      then true
      else if snapshot.is_ok
      then reaches 95 (get_codex_usage_percents (some snapshot))
      else false
