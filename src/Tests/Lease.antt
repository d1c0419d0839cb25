-- ===== src/Tests/Lease.antt =====
-- Leases.
use aimgr.Prelude.{
  ◌≡◌, ◌≢◌, ◌⊎◌, refl, none, some, true, [], ◌∷◌, List, Text, codes, ok, err, ascii_lower, trim,
  lower_unit, includes, same, arith, ends_with, ◌-◌,
}
use aimgr.Core.Labels.{is_label_text, normalize_label}
use aimgr.Core.Providers.{normalize_provider_id}
use aimgr.Coordination.Redis.Memory.{Cells, memory, blank}
use aimgr.Coordination.Keys.{normalize_key_prefix, build_credential_lease_key, is_provider_text}
use aimgr.Coordination.Keys.Laws.{build_key_inj}
use aimgr.Coordination.Lease.Handle.{
  Lease, delivered, reply_lost, acquire, join_lease, renew_or_reacquire, release,
  create_credential_lease, deactivate, failed, release_op,
}
use aimgr.Coordination.Lease.Calls.{Call, acquires, passes, elapsed, run}
use aimgr.Coordination.Lease.Exclusion.{run_held}
use aimgr.Coordination.Lease.Mutex.{acquire_excludes}
use aimgr.Coordination.Lease.Behaviour.{
  IsRenewed, IsRefused, renew_or_reacquire_cases, release_retry,
}

abbrev pub prefix : Text
prefix = codes "aimgr:v1:"

abbrev pub boss_key : Text
boss_key = codes "aimgr:v1:lease:credential:anthropic:boss"

-- What machine A is granted, and a server that holds it.
abbrev pub boss_lease : Lease
boss_lease = record {
  key = boss_key;
  token = codes "uuid-a";
  ttl_ms = 30_000;
  key_prefix = prefix;
  active = true;
}

abbrev pub after_grant : Cells
after_grant =
    (acquire memory ascii_lower delivered prefix (codes "Anthropic") (codes "boss") 30_000
      (codes "uuid-a") blank).0

-- To unfold it is to unfold all that the building of a key computes with.
unfoldable pub key_building : Text
unfolding build_credential_lease_key trim is_provider_text normalize_provider_id same lower_unit
    normalize_label is_label_text includes normalize_key_prefix ends_with
key_building = []

pub boss_key_built :
    build_credential_lease_key ascii_lower prefix (codes "Anthropic") (codes "boss") ≡ ok boss_key
unfolding key_building
boss_key_built = refl

boss_granted :
    acquire memory ascii_lower delivered prefix
      (codes "Anthropic")
      (codes "boss")
      30_000
      (codes "uuid-a")
      blank
    ≡ (after_grant, ok (some boss_lease))
unfolding acquire create_credential_lease key_building
boss_granted = refl

build_key_inj_example :
    (normalize_provider_id ascii_lower (codes "Anthropic")
      ≡ normalize_provider_id ascii_lower (codes " anthropic"))
    × (normalize_label ascii_lower (codes "boss") ≡ normalize_label ascii_lower (codes "BOSS"))
unfolding key_building
build_key_inj_example =
    build_key_inj ascii_lower prefix (codes "Anthropic") (codes " anthropic") (codes "boss")
      (codes "BOSS") {k = boss_key} boss_key_built refl

-- Ten seconds pass, a rival tries, and the owner's clock goes on.
abbrev rivalry : List Call
rivalry =
    passes 10_000
    ∷ acquires delivered prefix (codes "anthropic") (codes "boss") 60_000 (codes "uuid-b")
    ∷ passes 5_000
    ∷ []

rival_foreign : codes "uuid-b" ≢ codes "uuid-a"
rival_foreign h = ground arith

run_held_example :
    (memory.get (run memory ascii_lower rivalry after_grant) boss_key ≡ some (codes "uuid-a"))
    × (memory.pttl (run memory ascii_lower rivalry after_grant) boss_key
        ≡ some (30_000 - elapsed rivalry))
unfolding elapsed acquire key_building
run_held_example =
    run_held memory ascii_lower boss_key (codes "uuid-a") rivalry after_grant 30_000 refl refl
      (tt, (rival_foreign, (tt, tt))) (omega arith)

acquire_excludes_example :
    ((acquire memory ascii_lower delivered prefix
        (codes "anthropic")
        (codes "boss")
        30_000
        (codes "uuid-b")
        (run memory ascii_lower rivalry after_grant)).1
      ≢ ok (some boss_lease))
    × ((join_lease memory ascii_lower delivered prefix
          (codes "anthropic")
          (codes "boss")
          30_000
          (codes "uuid-b")
          (run memory ascii_lower rivalry after_grant)).1
        ≢ ok (some boss_lease))
unfolding elapsed key_building
acquire_excludes_example =
    acquire_excludes memory ascii_lower delivered prefix (codes "Anthropic") (codes "boss") 30_000
      (codes "uuid-a") blank after_grant boss_lease boss_granted rivalry
      (tt, (rival_foreign, (tt, tt))) (omega arith) delivered prefix (codes "anthropic")
      (codes "boss") 30_000 (codes "uuid-b") refl rival_foreign boss_lease

renew_or_reacquire_cases_example :
    (((memory.get blank boss_key ≡ none) ⊎ (memory.get blank boss_key ≡ some (codes "uuid-a")))
      × IsRenewed memory boss_lease (renew_or_reacquire memory delivered boss_lease blank))
    ⊎ ((t : Text) × (memory.get blank boss_key ≡ some t)
        × (t ≢ codes "uuid-a")
        × IsRefused memory boss_lease blank (renew_or_reacquire memory delivered boss_lease blank))
renew_or_reacquire_cases_example =
    renew_or_reacquire_cases memory boss_lease blank refl (omega arith)

release_retry_example :
    ((release memory reply_lost boss_lease after_grant).1 ≡ boss_lease)
    × ((release memory reply_lost boss_lease after_grant).2 ≡ err (failed release_op))
    × ((release memory delivered boss_lease (release memory reply_lost boss_lease after_grant).0).1
        ≡ deactivate boss_lease)
    × (memory.get
          (release memory delivered boss_lease
            (release memory reply_lost boss_lease after_grant).0).0
          boss_key
        ≡ memory.get (release memory delivered boss_lease after_grant).0 boss_key)
release_retry_example = release_retry memory boss_lease after_grant boss_key refl
