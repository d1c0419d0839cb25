-- ===== src/Tests/Machine.antt =====
-- Sessions of one machine.
use aimgr.Prelude.{
  ℕ, ◌≡◌, ◌≢◌, refl, none, some, true, Bool, [], ◌∷◌, codes, ok, ascii_lower, arith, length,
}
use aimgr.Coordination.Redis.Memory.{memory, blank}
use aimgr.Coordination.Lease.Handle.{
  acquire, delivered, deactivate, default_lease_ttl_ms, create_credential_lease,
}
use aimgr.Targets.MachineLease.{
  Holder, read_holder, live_others, joined_holder, join_machine_claude_lease,
  leave_machine_claude_lease, is_token_of, siblings_of,
}
use aimgr.Targets.MachineLease.Laws.{IsKeptFor, leave_shared, leave_last}
use aimgr.Targets.MachineLease.Joins.{IsJoined, join_machine-IsJoined, join_machine_refused}
use aimgr.Targets.MachineLease.Sharing.{join_machine_shares}
use aimgr.Tests.Lease.{prefix, boss_key, boss_lease, after_grant, boss_key_built, key_building}

-- Process 42 is alive besides the ones that run the operations.
abbrev alive : ℕ → Bool
alive n = true

abbrev holder : Holder
holder = record { token = codes "uuid-a"; members = 41 ∷ 42 ∷ [] }

holder_read : read_holder (some holder) ≡ some holder
unfolding read_holder
holder_read = refl

leave_shared_example : IsKeptFor memory ascii_lower alive 42 boss_lease after_grant (
    leave_machine_claude_lease memory ascii_lower alive delivered boss_lease 41
      (some holder)
      after_grant)
leave_shared_example =
    leave_shared memory ascii_lower alive delivered boss_lease 41 42 (some holder) holder
      after_grant holder_read refl refl (omega arith) refl

abbrev alone : Holder
alone = record { token = codes "uuid-a"; members = 41 ∷ [] }

alone_read : read_holder (some alone) ≡ some alone
unfolding read_holder
alone_read = refl

leave_last_example :
    (s' : memory.Server) × (memory.get s' boss_key ≡ none)
    × (leave_machine_claude_lease memory ascii_lower alive delivered boss_lease 41
          (some alone)
          after_grant
        ≡ (s', deactivate boss_lease, none, ok (record { released = true; remaining = 0 })))
unfolding live_others acquire key_building
leave_last_example =
    leave_last memory ascii_lower alive boss_lease 41 (some alone) alone after_grant alone_read refl
      refl refl refl

join_machine-IsJoined_example : IsJoined memory ascii_lower alive boss_key 41 boss_lease (
    join_machine_claude_lease memory ascii_lower alive delivered delivered prefix
      (codes "Anthropic")
      (codes "boss")
      (codes "uuid-a")
      41
      none
      blank)
unfolding join_machine_claude_lease read_holder acquire create_credential_lease key_building
    siblings_of
join_machine-IsJoined_example =
    join_machine-IsJoined memory ascii_lower alive delivered delivered prefix (codes "Anthropic")
      (codes "boss") boss_key boss_key_built (codes "uuid-a") 41 none blank boss_lease 0 refl

join_machine_refused_example :
    ((join_machine_claude_lease memory ascii_lower alive delivered delivered prefix
        (codes "Anthropic")
        (codes "boss")
        (codes "uuid-b")
        50
        none
        after_grant).2
      ≢ ok (some (boss_lease, 0)))
    × ((join_machine_claude_lease memory ascii_lower alive delivered delivered prefix
          (codes "Anthropic")
          (codes "boss")
          (codes "uuid-b")
          50
          none
          after_grant).1
        ≡ none)
unfolding read_holder is_token_of acquire key_building
join_machine_refused_example =
    join_machine_refused memory ascii_lower alive delivered delivered prefix (codes "Anthropic")
      (codes "boss") boss_key boss_key_built (codes "uuid-b") 50 (codes "uuid-a") after_grant refl
      none refl (boss_lease, 0)

join_machine_shares_example :
    (s' : memory.Server) × (memory.get s' boss_key ≡ some (codes "uuid-a"))
    × (join_machine_claude_lease memory ascii_lower alive delivered delivered prefix
          (codes "Anthropic")
          (codes "boss")
          (codes "uuid-b")
          43
          (some holder)
          after_grant
        ≡ (
          s',
          some (joined_holder 43 (codes "uuid-a") (live_others alive 43 (41 ∷ 42 ∷ []))),
          ok (
              some (
                create_credential_lease prefix boss_key (codes "uuid-a") default_lease_ttl_ms,
                length (live_others alive 43 (41 ∷ 42 ∷ [])),
              )),
        ))
unfolding acquire key_building
join_machine_shares_example =
    join_machine_shares memory ascii_lower alive delivered prefix (codes "Anthropic") (codes "boss")
      boss_key boss_key_built (codes "uuid-b") 43 (some holder) holder after_grant holder_read refl
