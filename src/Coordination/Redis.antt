-- ===== src/Coordination/Redis.antt =====
-- The commands of the Redis server that the program's scripts and clients send. The server is not
-- part of the program: it is a type with operations, and the laws are its documented behaviour.
pub mod Memory
use aimgr.Prelude.{
  ℕ, ◌-◌, ◌<◌, ◌≡◌, Bool, true, false, Option, none, some, Text, same, if◌then◌else◌,
}

pub record Redis : Type 1 where
  pub Server : Type 0
  -- GET, and PTTL: `none` for a key that never expires.
  pub get : Server → Text → Option Text
  pub pttl : Server → Text → Option ℕ
  -- SET key value PX ttl.
  pub set_px : Server → Text → Text → ℕ → Server
  -- SET key value NX PX ttl, and whether it answers "OK".
  pub set_nx_px : Server → Text → Text → ℕ → Server × Bool
  -- PEXPIRE and DEL, with the number that they answer.
  pub pexpire : Server → Text → ℕ → Server × ℕ
  pub del : Server → Text → Server × ℕ
  -- Milliseconds pass on the server.
  pub wait : ℕ → Server → Server
  pub get-set_px :
      (s : Server) (k v : Text) (n : ℕ) (j : Text)
      → 0 < n
      → get (set_px s k v n) j ≡ (if same k j then some v else get s j)
  pub pttl-set_px :
      (s : Server) (k v : Text) (n : ℕ) (j : Text)
      → 0 < n
      → pttl (set_px s k v n) j ≡ (if same k j then some n else pttl s j)
  pub set_nx_px_free :
      (s : Server) (k v : Text) (n : ℕ)
      → get s k ≡ none
      → set_nx_px s k v n ≡ (set_px s k v n, true)
  pub set_nx_px_taken :
      (s : Server) (k v : Text) (n : ℕ) (w : Text)
      → get s k ≡ some w
      → set_nx_px s k v n ≡ (s, false)
  pub pexpire_reply :
      (s : Server) (k : Text) (n : ℕ) (w : Text) → get s k ≡ some w → (pexpire s k n).1 ≡ 1
  pub get-pexpire :
      (s : Server) (k : Text) (n : ℕ) (j : Text) → 0 < n → get (pexpire s k n).0 j ≡ get s j
  pub pttl-pexpire :
      (s : Server) (k : Text) (n : ℕ) (j w : Text)
      → 0 < n
      → get s k ≡ some w
      → pttl (pexpire s k n).0 j ≡ (if same k j then some n else pttl s j)
  pub del_reply : (s : Server) (k w : Text) → get s k ≡ some w → (del s k).1 ≡ 1
  pub get-del : (s : Server) (k j : Text) → get (del s k).0 j ≡ (if same k j then none else get s j)
  pub pttl-del : (s : Server) (k j : Text) → same k j ≡ false → pttl (del s k).0 j ≡ pttl s j
  -- A key lives on while its remaining time is not used up, and is gone afterwards.
  pub get-wait_live :
      (s : Server) (d n : ℕ) (j : Text) → pttl s j ≡ some n → d < n → get (wait d s) j ≡ get s j
  pub pttl-wait :
      (s : Server) (d n : ℕ) (j : Text)
      → pttl s j ≡ some n
      → d < n
      → pttl (wait d s) j ≡ some (n - d)
