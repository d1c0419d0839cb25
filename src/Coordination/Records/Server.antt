-- ===== src/Coordination/Records/Server.antt =====
-- What the record store uses of the server and of JSON. Neither is part of the program; the laws
-- are their documented behaviour.
use aimgr.Prelude.{
  ℕ, ◌≤◌, ◌<◌, ◌≡◌, ◌≢◌, Bool, true, false, ◌&&◌, ◌||◌, Option, some, List, Text, same, includes,
  Result, ok,
}

-- A stored record: the fields that the store itself reads and writes, and the others.
pub record StoredRecord (B : Type 0) : Type 0 where
  pub version : Option ℕ
  pub created_at : Option Text
  pub updated_at : Option Text
  pub updated_by : Option Text
  pub body : B

pub data StoreError : Type 0 where
  malformed_json exec_failed : StoreError

-- JSON.parse, where `ok none` is the text `null`, and JSON.stringify.
pub record Json (B : Type 0) : Type 0 where
  pub parse : Text → Result StoreError (Option (StoredRecord B))
  pub print : StoredRecord B → Text
  pub parse-print : (r : StoredRecord B) → parse (print r) ≡ ok (some r)

pub record RecordServer : Type 1 where
  pub Server : Type 0
  -- GET and SISMEMBER.
  pub get : Server → Text → Option Text
  pub is_member : Server → Text → Text → Bool
  -- How often a key has been modified, which WATCH remembers.
  pub stamp : Server → Text → ℕ
  -- SET key value and SADD index key, for each index, as one step.
  pub commit : Server → Text → Text → List Text → Server
  -- EXEC of that transaction under a WATCH of the key, and whether it was carried out.
  pub exec : Server → ℕ → Text → Text → List Text → Server × Bool
  -- One state is a later one: what any clients can do in between.
  pub Later : Server → Server → Type 0
  pub exec_unmodified :
      (s : Server) (n : ℕ) (k v : Text) (ix : List Text)
      → stamp s k ≡ n
      → exec s n k v ix ≡ (commit s k v ix, true)
  pub exec_modified :
      (s : Server) (n : ℕ) (k v : Text) (ix : List Text)
      → stamp s k ≢ n
      → exec s n k v ix ≡ (s, false)
  pub get-commit :
      (s : Server) (k v : Text) (ix : List Text)
      → includes k ix ≡ false
      → get (commit s k v ix) k ≡ some v
  pub get-commit_ne :
      (s : Server) (k v j : Text) (ix : List Text)
      → same k j ≡ false
      → includes j ix ≡ false
      → get (commit s k v ix) j ≡ get s j
  pub member-commit :
      (s : Server) (k v i x : Text) (ix : List Text)
      → is_member (commit s k v ix) i x ≡ ((includes i ix && same k x) || is_member s i x)
  pub stamp-commit :
      (s : Server) (k v : Text) (ix : List Text) → stamp s k < stamp (commit s k v ix) k
  -- The count of modifications never falls, and a key that is not modified keeps its value.
  pub stamp-Later : (s t : Server) (k : Text) → Later s t → stamp s k ≤ stamp t k
  pub get-Later : (s t : Server) (k : Text) → Later s t → stamp s k ≡ stamp t k → get s k ≡ get t k
