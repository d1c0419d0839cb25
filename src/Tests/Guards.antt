-- ===== src/Tests/Guards.antt =====
-- The egress policy and a schedule at concrete inputs.
use aimgr.Prelude.{
  ℕ, true, ◌≡◌, refl, Bool, false, not, ◌&&◌, ◌+◌, ◌*◌, ◌/◌, leb, arith, Option, none, some, List,
  [], ◌∷◌, Text, codes, same, ascii_lower, ok, pos, is_none, trim, lower_unit, includes, ends_with,
}
use aimgr.Core.Labels.{is_label_start}
use aimgr.Coordination.Keys.{is_provider_unit}
use aimgr.Network.Egress.{
  Account, RawProfile, claude_egress_policy, resolve_optional_claude_egress_profile,
}
use aimgr.Network.Egress.Laws.{IsFailClosed, resolve_optional-IsFailClosed}
use aimgr.Routines.Schedule.{
  CalendarEntry, Calendar, yesterday, today, all_candidates, derive_routine_occurrence,
}
use aimgr.Routines.Schedule.Laws.{IsDerived, IsManual, derive_routine-IsDerived}

abbrev account : Account
account = record {
  egress = some (record { profile_ref = some (codes " Home-1 ") });
  policy_egress = none;
}

abbrev home : RawProfile
home = record {
  socks_host = none;
  socks_port = some (pos 1080);
  expected_exits = some (codes "192.0.2.7" ∷ []);
}

abbrev profiles : Text → Option RawProfile
profiles ref = some home

abbrev is_ip : Text → Bool
is_ip t = same t (codes "192.0.2.7")

resolve_optional-IsFailClosed_example :
    IsFailClosed ascii_lower is_ip
      (codes "boss")
      (is_none (claude_egress_policy account) && not false)
      (resolve_optional_claude_egress_profile ascii_lower is_ip false
        (codes "boss")
        account
        profiles)
resolve_optional-IsFailClosed_example =
    resolve_optional-IsFailClosed ascii_lower is_ip false (codes "boss") account profiles

-- The profile is found under its normalized name.
home_route :
    resolve_optional_claude_egress_profile ascii_lower is_ip false (codes "boss") account profiles
    ≡ ok (
        some (record {
          label = codes "boss";
          profile_ref = codes "home-1";
          socks_host = codes "127.0.0.1";
          socks_port = 1080;
          expected_exits = codes "192.0.2.7" ∷ [];
        }))
unfolding resolve_optional_claude_egress_profile trim is_label_start lower_unit is_provider_unit
    includes same ends_with
home_route = refl

leb_refl : (n : ℕ) → leb n n ≡ true
leb_refl n = ground arith

-- Two days of a calendar that counts minutes.
abbrev minutes : Calendar
minutes = record {
  date_at = λ now d h m. elim d [ yesterday ↦ h * 60 + m | today ↦ 1440 + (h * 60 + m) ];
  day_of_week = λ t. t / 1440;
  minute_start = λ t. t;
  minute_start-le = leb_refl;
}

abbrev daily : List CalendarEntry
daily =
    record { hour = 8; minute = 0; weekday = none }
    ∷ record { hour = 20; minute = 0; weekday = some 0 }
    ∷ []

derive_routine-IsDerived_example :
    IsDerived 2000
      (all_candidates minutes daily 2000)
      (derive_routine_occurrence minutes daily 2000 false)
    × IsManual 2000 (derive_routine_occurrence minutes daily 2000 true)
derive_routine-IsDerived_example = derive_routine-IsDerived minutes daily 2000

-- At 2000 the occurrence of 8:00 today is the latest one.
morning :
    derive_routine_occurrence minutes daily 2000 false
    ≡ ok (record { manual = false; admitted = true; delay_ms = 80; scheduled_at = 1920 })
unfolding derive_routine_occurrence
morning = refl
