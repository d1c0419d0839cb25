-- ===== src/Coordination/Records/Cas.antt =====
-- `parseJsonRecord`, `buildWrittenRecord` and `casPutJsonRecord` (src/coordination/redis-store.js).
use aimgr.Prelude.{
  ℕ, ◌+◌, Bool, true, false, Option, none, some, List, Text, Result, ok, err, ◌==◌, if◌then◌else◌,
}
use aimgr.Coordination.Records.Server.{StoredRecord, StoreError, exec_failed, Json, RecordServer}
use aimgr.Coordination.Lease.Handle.{Delivery, delivered, request_lost, reply_lost}

-- `a ?? b`.
unfoldable pub or_else {ℓ} : {A : Type ℓ} → Option A → Option A → Option A
or_else none b = b
or_else (some a) b = some a

-- `version === expectedVersion`.
unfoldable pub is_version : Option ℕ → ℕ → Bool
is_version none n = false
is_version (some v) n = v == n

-- `current?.createdAt`.
unfoldable pub created_of : {B : Type 0} → Option (StoredRecord B) → Option Text
created_of none = none
created_of (some c) = c.created_at

-- `current?.version ?? null`.
unfoldable pub version_of : {B : Type 0} → Option (StoredRecord B) → Option ℕ
version_of none = none
version_of (some c) = c.version

unfoldable pub next_version : Option ℕ → ℕ
next_version none = 1
next_version (some n) = n + 1

unfoldable pub build_written_record :
    {B : Type 0}
    → Option (StoredRecord B)
    → Option ℕ
    → StoredRecord B
    → Option Text
    → Text
    → StoredRecord B
unfolding or_else created_of next_version
build_written_record current expected next updated_by observed_at = record {
  version = some (next_version expected);
  created_at = or_else (created_of current) (or_else next.created_at (some observed_at));
  updated_at = some observed_at;
  updated_by = or_else updated_by next.updated_by;
  body = next.body;
}

pub data CasOutcome (B : Type 0) : Type 0 where
  written : StoredRecord B → CasOutcome B
  -- The version and the record that the caller is told of.
  stale_version : Option ℕ → Option (StoredRecord B) → CasOutcome B

-- Whether the record read matches what the caller expects: nothing for a creation, and the same
-- version for an update.
unfoldable pub is_expected : {B : Type 0} → Option ℕ → Option (StoredRecord B) → Bool
unfolding is_version
is_expected none none = true
is_expected none (some c) = false
is_expected (some n) none = false
is_expected (some n) (some c) = is_version c.version n

module _ {B : Type 0} (r : RecordServer) (json : Json B) where
  open r use {Server, get, stamp, exec}

  unfoldable pub parse_json_record : Option Text → Result StoreError (Option (StoredRecord B))
  parse_json_record none = ok none
  parse_json_record (some raw) = json.parse raw

  abbrev pub Put : Type 0
  Put = Server × Result StoreError (CasOutcome B)

  -- After an aborted EXEC: the latest record is read and reported.
  unfoldable pub report_stale : Result StoreError (Option (StoredRecord B)) → Server → Put
  unfolding version_of
  report_stale (err e) s = (s, err e)
  report_stale (ok latest) s = (s, ok (stale_version (version_of latest) latest))

  unfoldable pub settle_exec : (Server → Server) → Text → StoredRecord B → Server × Bool → Put
  unfolding report_stale parse_json_record
  settle_exec later key w (s, true) = (s, ok (written w))
  settle_exec later key w (s, false) =
      let t = later s in report_stale (parse_json_record (get t key)) t

  -- EXEC may fail on the way, and then it is unknown whether it was carried out.
  unfoldable pub send_exec :
      Delivery → (Server → Server) → ℕ → Text → List Text → StoredRecord B → Server → Put
  unfolding settle_exec
  send_exec delivered later n key ix w s = settle_exec later key w (exec s n key (json.print w) ix)
  send_exec request_lost later n key ix w s = (s, err exec_failed)
  send_exec reply_lost later n key ix w s = ((exec s n key (json.print w) ix).0, err exec_failed)

  -- The record has been read at the state `s`; `n` is what WATCH remembers.
  unfoldable pub put_current :
      Delivery
      → (Server → Server)
      → (Server → Server)
      → ℕ
      → Text
      → List Text
      → Option ℕ
      → StoredRecord B
      → Option Text
      → Text
      → Result StoreError (Option (StoredRecord B))
      → Server
      → Put
  unfolding send_exec build_written_record version_of is_expected
  put_current d env later n key ix expected next updated_by observed_at (err e) s = (s, err e)
  put_current d env later n key ix expected next updated_by observed_at (ok current) s =
      if is_expected expected current
      then send_exec d later n key ix
          (build_written_record current expected next updated_by observed_at) (env s)
      else (s, ok (stale_version (version_of current) current))

  -- `casPutJsonRecord`. The three functions are what other clients do between WATCH and GET, between
  -- GET and EXEC, and between an aborted EXEC and the second GET.
  unfoldable pub cas_put_json_record :
      Delivery
      → (Server → Server)
      → (Server → Server)
      → (Server → Server)
      → Text
      → List Text
      → Option ℕ
      → StoredRecord B
      → Option Text
      → Text
      → Server
      → Put
  unfolding put_current parse_json_record
  cas_put_json_record d before_get before_exec before_report key ix expected next updated_by
        observed_at s =
      let t = before_get s in
      put_current d before_exec before_report (stamp s key) key ix expected next updated_by
        observed_at (parse_json_record (get t key)) t
