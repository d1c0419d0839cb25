-- ===== src/Coordination/Records/Commit.antt =====
-- What a compare-and-set guarantees (src/coordination/redis-store.js): it is atomic at the moment of
-- EXEC, and it never overwrites what another client has written since.
use native.Mathlib.Decide.{ℕ_discrete}
use aimgr.Prelude.{
  ℕ, ◌≡◌, refl, sym, ap, ◌∙◌, ◌≢◌, inl, inr, Bool, true, false, Option, none, some, List, Text,
  Result, ok, err, arith, Bool-cases,
}
use aimgr.Coordination.Records.Server.{StoredRecord, StoreError, Json, RecordServer}
use aimgr.Coordination.Records.Cas.{
  written, is_expected, build_written_record, next_version, parse_json_record, report_stale,
  settle_exec, send_exec, put_current, cas_put_json_record,
}
use aimgr.Coordination.Lease.Handle.{Delivery, delivered, request_lost, reply_lost}

-- A next version is never the expected one.
pub next_version_unexpected :
    {B : Type 0} (expected : Option ℕ) (w : StoredRecord B)
    → w.version ≡ some (next_version expected)
    → is_expected expected (some w) ≡ false
unfolding is_expected next_version
next_version_unexpected none w h = refl
next_version_unexpected (some n) w h = rw h (ground arith)

module _ {B : Type 0} (r : RecordServer) (json : Json B) where
  open r use {
    Server, get, stamp, commit, exec, Later, exec_unmodified, exec_modified, stamp-Later, get-Later,
    get-commit,
  }

  -- The state `u` at EXEC holds the record that the caller expects, and the outcome is one commit of
  -- the next record onto `u`.
  pub record IsCommit (key : Text) (ix : List Text) (expected : Option ℕ) (next : StoredRecord B)
      (updated_by : Option Text) (observed_at : Text) (u s' : Server) (w : StoredRecord B)
      : Type 0 where
    pub current : Option (StoredRecord B)
    pub read : parse_json_record r json (get u key) ≡ ok current
    pub matches : is_expected expected current ≡ true
    pub record_built : w ≡ build_written_record current expected next updated_by observed_at
    pub stored : s' ≡ commit u key (json.print w) ix

  report_not_written :
      (q : Result StoreError (Option (StoredRecord B))) (s s' : Server) (w : StoredRecord B)
      → report_stale r json q s ≢ (s', ok (written w))
  unfolding report_stale
  report_not_written (ok c) s s' w h = cc
  report_not_written (err e) s s' w h = cc

  settle_written :
      (later : Server → Server) (key : Text) (w v : StoredRecord B) (p : Server × Bool)
      (s' : Server)
      → settle_exec r json later key w p ≡ (s', ok (written v))
      → (p ≡ (s', true)) × (w ≡ v)
  unfolding settle_exec
  settle_written later key w v (s, true) s' h = (cc, cc)
  settle_written later key w v (s, false) s' h =
      absurd (report_not_written (parse_json_record r json (get (later s) key)) (later s) s' v h)

  send_written :
      (d : Delivery) (later : Server → Server) (n : ℕ) (key : Text) (ix : List Text)
      (w v : StoredRecord B) (s s' : Server)
      → send_exec r json d later n key ix w s ≡ (s', ok (written v))
      → (stamp s key ≡ n) × (s' ≡ commit s key (json.print v) ix) × (w ≡ v)
  unfolding send_exec
  send_written request_lost later n key ix w v s s' h = cc
  send_written reply_lost later n key ix w v s s' h = cc
  send_written delivered later n key ix w v s s' h =
      let q = settle_written later key w v (exec s n key (json.print w) ix) s' h in
      elim (ℕ_discrete (stamp s key) n) [
        | yes e ↦ (e, cc (q.0, q.1, exec_unmodified s n key (json.print w) ix e), q.1)
        | no e ↦ cc (q.0, exec_modified s n key (json.print w) ix e)
      ]

  module _ (before_get before_exec before_report : Server → Server) (key : Text) (ix : List Text)
      (expected : Option ℕ) (next : StoredRecord B) (updated_by : Option Text) (observed_at : Text)
      (d : Delivery) (s : Server) where
    abbrev at_exec : Server
    at_exec = before_exec (before_get s)

    put_written :
        (q : Result StoreError (Option (StoredRecord B))) (s' : Server) (w : StoredRecord B)
        → put_current r json d before_exec before_report
            (stamp s key)
            key
            ix
            expected
            next
            updated_by
            observed_at
            q
            (before_get s)
          ≡ (s', ok (written w))
        → (current : Option (StoredRecord B)) × (q ≡ ok current)
          × (is_expected expected current ≡ true)
          × (stamp at_exec key ≡ stamp s key)
          × (s' ≡ commit at_exec key (json.print w) ix)
          × (w ≡ build_written_record current expected next updated_by observed_at)
    unfolding put_current
    put_written (err e) s' w h = cc
    put_written (ok c) s' w h = elim (Bool-cases (is_expected expected c)) [
      | inl e ↦
          let f = send_written d before_report (stamp s key) key ix _ w at_exec s' (rw e at h) in
          (c, refl, e, f.0, f.1, sym f.2)
      | inr e ↦ cc (rw e at h)
    ]

    -- A successful compare-and-set is atomic: at the moment of EXEC the key holds the record that
    -- the caller expects, and the only effect is to store its successor there. In between nobody
    -- has modified the key.
    pub written-IsCommit :
        ((u : Server) → Later u (before_get u))
        → ((u : Server) → Later u (before_exec u))
        → (s' : Server) (w : StoredRecord B)
        → cas_put_json_record r json d before_get before_exec before_report key ix expected next
            updated_by observed_at s
          ≡ (s', ok (written w))
        → IsCommit key ix expected next updated_by observed_at at_exec s' w
          × (stamp at_exec key ≡ stamp s key)
    unfolding cas_put_json_record
    written-IsCommit later_get later_exec s' w h =
        let (c, q, e, m, st, b) = put_written _ s' w h in
        let t = before_get s in
        let a = stamp-Later s t key (later_get s) in
        let z = stamp-Later t at_exec key (later_exec t) in
        (
          record {
            current = c;
            read =
                ap (parse_json_record r json)
                  (sym (get-Later t at_exec key (later_exec t) (omega arith)))
                ∙ q;
            matches = e;
            record_built = b;
            stored = st;
          },
          m,
        )
