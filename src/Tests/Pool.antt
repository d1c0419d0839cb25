-- ===== src/Tests/Pool.antt =====
-- A pool of accounts with whole percentages, on which the theorems of src/pool are run.
use aimgr.Prelude.{
  ℕ, ◌-◌, ◌≡◌, refl, true, false, Option, none, some, List, [], ◌∷◌, ◌++◌, Text, codes, same,
  includes, length, ℕ_order, Preorder, on, ascii_lower, trim, lower_unit, sort_by, ok,
  if◌then◌else◌,
}
use aimgr.Coordination.Records.Cas.{or_else}
use aimgr.Core.Labels.{normalize_label, is_label_text}
use aimgr.Pool.Usage.{
  clamp_percent, Numbers, Snapshot, is_usage_snapshot_exhausted, build_label_capacity_info,
}
use aimgr.Pool.Usage.Laws.{IsBounded, build_capacity-IsBounded}
use aimgr.Pool.Select.{
  Selection, lowest_weekly_used, normalize_all, normalize_avoided, is_selectable,
  pick_least_used_codex_pool_label,
}
use aimgr.Pool.Select.Laws.{IsAnswer, pick_least_used-IsAnswer}
use aimgr.Pool.Select.Rotation.{pick_least_used_rotates}
use aimgr.Pool.NextBest.{Ranked, NextBest, keep_others, pick_next_best_local_cli_pool_label}
use aimgr.Pool.NextBest.Laws.{IsChoice, pick_next_best-IsChoice}
use aimgr.Pool.Account.{
  AccountFacts, Credential, openai_codex, manual_callback, derive_pool_account_status,
}
use aimgr.Pool.Account.Laws.{IsConsistent, is_usable_account, derive_status-IsConsistent}

abbrev pub whole : Numbers
whole = record {
  Number = ℕ;
  order = ℕ_order;
  of_ℕ = λ n. n;
  minus = λ m n. m - n;
  of_ℕ-le = λ m n. refl;
}

abbrev pub locale : Preorder Text
locale = on ℕ_order length

abbrev pub snapshot_of : ℕ → Snapshot whole
snapshot_of used = record {
  is_ok = true;
  status = none;
  error = [];
  allowed = some true;
  limit_reached = some false;
  rate_limit_reached_type = none;
  windows = some used ∷ [];
}

abbrev pub usage : Text → Option (Snapshot whole)
usage label = if same label (codes "a") then some (snapshot_of 10) else some (snapshot_of 40)

abbrev pub pool : List Text
pool = codes "a" ∷ codes "b" ∷ []

build_capacity-IsBounded_example :
    IsBounded whole (build_label_capacity_info whole (some (snapshot_of 40)))
build_capacity-IsBounded_example = build_capacity-IsBounded whole (some (snapshot_of 40))

pick_least_used-IsAnswer_example :
    (a : Option Selection) × (pick_least_used_codex_pool_label whole locale ascii_lower pool usage
        none []
      ≡ ok a)
    × IsAnswer whole locale usage none pool [] a
unfolding normalize_avoided normalize_all normalize_label trim is_label_text lower_unit includes
    same
pick_least_used-IsAnswer_example =
    pick_least_used-IsAnswer whole locale usage ascii_lower pool none none pool [] refl refl

pick_least_used_rotates_example :
    (s : Selection) × (pick_least_used_codex_pool_label whole locale ascii_lower pool usage none
        ([] ++ (codes "a" ∷ []))
      ≡ ok (some s))
    × (same s.label (codes "a") ≡ false)
unfolding normalize_avoided normalize_all normalize_label trim is_label_text lower_unit includes
    same is_selectable is_usage_snapshot_exhausted
pick_least_used_rotates_example =
    pick_least_used_rotates whole locale usage ascii_lower pool none none pool [] (codes "a")
      (codes "b") refl refl refl refl refl refl refl

abbrev stored : Credential
stored = record {
  access = codes "t";
  refresh = codes "r";
  account_id = codes "i";
  expires_ms = some 20;
  email = [];
  is_complete_bundle = false;
}

abbrev account : AccountFacts
account = record {
  provider = openai_codex;
  reauth_mode = some manual_callback;
  binding_mode = none;
  blocked_reason = [];
  conflict_reason = [];
  expected_email = codes "A@b";
  browser_email = codes " a@B ";
  binding_present = false;
  browser_exists = false;
  seeded_at = [];
  verified_at = [];
  credential = some stored;
}

derive_status-IsConsistent_example :
    IsConsistent
      (is_usable_account ascii_lower 10 account)
      (derive_pool_account_status ascii_lower 10 account)
derive_status-IsConsistent_example = derive_status-IsConsistent ascii_lower 10 account

-- The account is usable: the addresses differ only in case and white space.
usable : is_usable_account ascii_lower 10 account ≡ true
unfolding trim same lower_unit
usable = refl

-- The least used account is chosen first.
first_pick :
    pick_least_used_codex_pool_label whole locale ascii_lower pool usage none []
    ≡ ok (
        some
          (record { label = codes "a"; kept_current = false; reasons = lowest_weekly_used ∷ [] }))
unfolding normalize_avoided normalize_all normalize_label trim is_label_text lower_unit includes
    same is_selectable is_usage_snapshot_exhausted pick_least_used_codex_pool_label or_else sort_by
    build_label_capacity_info
first_pick = refl

-- Two ranked candidates: only the second keeps the reserve of eighty percent.
abbrev ranked : List (Ranked whole locale)
ranked =
    record { label = codes "a"; primary_used_pct = 30; primary_remaining_pct = some 70 }
    ∷ record { label = codes "b"; primary_used_pct = 10; primary_remaining_pct = some 90 }
    ∷ []

pick_next_best-IsChoice_example :
    (a : Option (NextBest whole locale)) × (pick_next_best_local_cli_pool_label whole locale
        ascii_lower ranked
        (some 80)
        none
      ≡ ok a)
    × IsChoice whole locale (clamp_percent whole (some 80)) ranked a
unfolding normalize_avoided keep_others
pick_next_best-IsChoice_example =
    pick_next_best-IsChoice whole locale ascii_lower ranked ranked (some 80) none none refl refl
