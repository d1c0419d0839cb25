-- ===== src/Coordination/Records/Races.antt =====
-- Races between clients that write the same record (src/coordination/redis-store.js).
use aimgr.Prelude.{ℕ, ◌≡◌, refl, ap, ◌≢◌, true, false, Option, some, List, Text, includes, ok}
use aimgr.Coordination.Records.Server.{StoredRecord, Json, RecordServer}
use aimgr.Coordination.Records.Cas.{
  written, stale_version, is_expected, build_written_record, next_version, parse_json_record,
  put_current, cas_put_json_record,
}
use aimgr.Coordination.Records.Commit.{IsCommit, written-IsCommit, next_version_unexpected}
use aimgr.Coordination.Lease.Handle.{Delivery, delivered}

module _ {B : Type 0} (r : RecordServer) (json : Json B) (key : Text) (ix : List Text) where
  open r use {
    Server, get, stamp, commit, exec, Later, exec_unmodified, exec_modified, stamp-Later, get-Later,
    get-commit,
  }

  module _ (expected : Option ℕ) (next : StoredRecord B) (updated_by : Option Text)
      (observed_at : Text) where
    -- Without interference the compare-and-set of an expected record succeeds.
    pub quiet_written :
        (before_report : Server → Server) (s : Server) (current : Option (StoredRecord B))
        → parse_json_record r json (get s key) ≡ ok current
        → is_expected expected current ≡ true
        → let w = build_written_record current expected next updated_by observed_at in
          cas_put_json_record r json delivered
            (λ u. u)
            (λ u. u)
            before_report
            key
            ix
            expected
            next
            updated_by
            observed_at
            s
          ≡ (commit s key (json.print w) ix, ok (written w))
    unfolding cas_put_json_record
    quiet_written before_report s current read e =
        rw read (rw e (rw (exec_unmodified s (stamp s key) key _ ix refl) refl))

    -- A key that anyone modifies between WATCH and EXEC is never overwritten: the compare-and-set
    -- does not report success.
    pub conflict_not_written :
        (d : Delivery) (before_get before_exec before_report : Server → Server) (s : Server)
        → ((u : Server) → Later u (before_get u))
        → ((u : Server) → Later u (before_exec u))
        → stamp (before_exec (before_get s)) key ≢ stamp s key
        → (s' : Server) (w : StoredRecord B)
        → cas_put_json_record r json d before_get before_exec before_report key ix expected next
            updated_by observed_at s
          ≢ (s', ok (written w))
    conflict_not_written d f g h s lf lg moved s' w e =
        moved
          (written-IsCommit r json f g h key ix expected next updated_by observed_at d s lf lg s' w
            e).1

  -- What was written is read back.
  read_written :
      (expected : Option ℕ) (next : StoredRecord B) (updated_by : Option Text) (observed_at : Text)
      (u s' : Server) (w : StoredRecord B)
      → includes key ix ≡ false
      → IsCommit r json key ix expected next updated_by observed_at u s' w
      → parse_json_record r json (get s' key) ≡ ok (some w)
  unfolding parse_json_record
  read_written expected next updated_by observed_at u s' w free c =
      rw (c.stored, get-commit u key (json.print w) ix free) (json.parse-print w)

  written_version :
      (expected : Option ℕ) (next : StoredRecord B) (updated_by : Option Text) (observed_at : Text)
      (u s' : Server) (w : StoredRecord B)
      → IsCommit r json key ix expected next updated_by observed_at u s' w
      → w.version ≡ some (next_version expected)
  unfolding build_written_record
  written_version expected next updated_by observed_at u s' w c = ap (λ z. z.version) c.record_built

  refuse_some :
      (e : Delivery) (f g : Server → Server) (n : ℕ) (expected v : Option ℕ)
      (next w : StoredRecord B) (updated_by : Option Text) (observed_at : Text) (s : Server)
      → is_expected expected (some w) ≡ false
      → w.version ≡ v
      → put_current r json e f g n key ix expected next updated_by observed_at (ok (some w)) s
        ≡ (s, ok (stale_version v (some w)))
  unfolding put_current
  refuse_some e f g n expected v next w updated_by observed_at s h p =
      rw h (ap (λ z. (s, ok (stale_version z (some w)))) p)

  -- No update is lost. Two clients expect the same version: once one of them has written, the
  -- other's compare-and-set changes nothing, and tells it the version and the record that won.
  pub second_writer_stale :
      (d e : Delivery) (before_get before_exec before_report f g : Server → Server)
      (expected : Option ℕ) (next next' : StoredRecord B) (updated_by updated_by' : Option Text)
      (observed_at observed_at' : Text) (s s' : Server) (w : StoredRecord B)
      → includes key ix ≡ false
      → ((u : Server) → Later u (before_get u))
      → ((u : Server) → Later u (before_exec u))
      → cas_put_json_record r json d before_get before_exec before_report key ix expected next
          updated_by observed_at s
        ≡ (s', ok (written w))
      → cas_put_json_record r json e (λ u. u) f g key ix expected next' updated_by' observed_at' s'
        ≡ (s', ok (stale_version (some (next_version expected)) (some w)))
  unfolding cas_put_json_record
  second_writer_stale d e before_get before_exec before_report f g expected next next' updated_by
        updated_by' observed_at observed_at' s s' w free lf lg h =
      let c =
        (written-IsCommit r json before_get before_exec before_report key ix expected next
          updated_by observed_at d s lf lg s' w h).0 in
      let v = written_version expected next updated_by observed_at _ s' w c in
      rw (read_written expected next updated_by observed_at _ s' w free c) (
        refuse_some e f g (stamp s' key) expected (some (next_version expected)) next' w updated_by'
          observed_at' s' (next_version_unexpected expected w v) v)
