-- ===== src/Tests/Records.antt =====
-- The record store.
use aimgr.Prelude.{ℕ, ◌≡◌, refl, none, some, [], Text, codes, ok, includes, arith}
use aimgr.Coordination.Records.Server.{StoredRecord}
use aimgr.Coordination.Records.Memory.{State, memory, flat, blank}
use aimgr.Coordination.Records.Cas.{
  written, stale_version, build_written_record, parse_json_record, cas_put_json_record,
  next_version, is_expected,
}
use aimgr.Coordination.Records.Commit.{IsCommit, written-IsCommit}
use aimgr.Coordination.Records.Races.{quiet_written, second_writer_stale}
use aimgr.Coordination.Lease.Handle.{delivered}

abbrev meta : Text
meta = codes "aimgr:v1:meta"

abbrev next : StoredRecord ℕ
next = record {
  version = none;
  created_at = none;
  updated_at = none;
  updated_by = some (codes "m3");
  body = 7;
}

abbrev first : StoredRecord ℕ
first = record {
  version = some 1;
  created_at = some (codes "now");
  updated_at = some (codes "now");
  updated_by = some (codes "m3");
  body = 7;
}

abbrev idle : State → State
idle s = s

pub idle_later : (u : State) → memory.Later u (idle u)
idle_later u = λ k. (omega arith, λ e. refl)

abbrev after_first : State
after_first = memory.commit blank meta (flat.print first) []

pub first_written :
    cas_put_json_record memory flat delivered idle idle idle meta [] none next none
      (codes "now")
      blank
    ≡ (after_first, ok (written first))
unfolding cas_put_json_record
first_written = refl

quiet_written_example :
    cas_put_json_record memory flat delivered idle idle idle meta [] none next none
      (codes "now")
      blank
    ≡ (
      memory.commit blank meta
          (flat.print (build_written_record none none next none (codes "now")))
          [],
      ok (written (build_written_record none none next none (codes "now"))),
    )
unfolding parse_json_record is_expected
quiet_written_example =
    quiet_written memory flat meta [] none next none (codes "now") idle blank none refl refl

written-IsCommit_example :
    IsCommit memory flat meta [] none next none (codes "now") blank after_first first
    × (memory.stamp blank meta ≡ memory.stamp blank meta)
written-IsCommit_example =
    written-IsCommit memory flat idle idle idle meta [] none next none (codes "now") delivered blank
      idle_later idle_later after_first first first_written

-- Another client writes between GET and EXEC.
abbrev intrude : State → State
intrude s = memory.commit s meta (flat.print first) []

intrude_later : (u : State) → memory.Later u (intrude u)
intrude_later u = λ k. (ground arith, λ e. ground arith)

second_writer_stale_example :
    cas_put_json_record memory flat delivered idle idle idle meta [] none next none
      (codes "later")
      after_first
    ≡ (after_first, ok (stale_version (some (next_version none)) (some first)))
unfolding includes
second_writer_stale_example =
    second_writer_stale memory flat meta [] delivered delivered idle idle idle idle idle none next
      next none none (codes "now") (codes "later") blank after_first first refl idle_later
      idle_later first_written
