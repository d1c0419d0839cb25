-- ===== src/Coordination/Redis/Memory.antt =====
-- A server that meets the laws: a function from keys to a value and its remaining milliseconds.
use aimgr.Prelude.{
  ℕ, ◌-◌, ◌<◌, ◌≡◌, refl, Bool, true, false, Option, none, some, Text, same, same_iff, ltb,
  if◌then◌else◌, arith,
}
use aimgr.Coordination.Redis.{Redis}

abbrev pub Cells : Type 0
Cells = Text → Option (Text × ℕ)

abbrev value_of : Option (Text × ℕ) → Option Text
value_of none = none
value_of (some (v, n)) = some v

abbrev time_of : Option (Text × ℕ) → Option ℕ
time_of none = none
time_of (some (v, n)) = some n

abbrev put : Cells → Text → Option (Text × ℕ) → Cells
put s k c j = if same k j then c else s j

abbrev set_if_free : Cells → Text → Text → ℕ → Option (Text × ℕ) → Cells × Bool
set_if_free s k v n none = (put s k (some (v, n)), true)
set_if_free s k v n (some c) = (s, false)

abbrev expire_at : Cells → Text → ℕ → Option (Text × ℕ) → Cells × ℕ
expire_at s k n none = (s, 0)
expire_at s k n (some (v, m)) = (put s k (some (v, n)), 1)

abbrev del_at : Cells → Text → Option (Text × ℕ) → Cells × ℕ
del_at s k none = (s, 0)
del_at s k (some c) = (put s k none, 1)

abbrev age : ℕ → Option (Text × ℕ) → Option (Text × ℕ)
age d none = none
age d (some (v, n)) = if ltb d n then some (v, n - d) else none

pub value_put :
    (s : Cells) (k v j : Text) (n : ℕ)
    → value_of (put s k (some (v, n)) j) ≡ (if same k j then some v else value_of (s j))
value_put s k v j n = ground arith

pub time_put :
    (s : Cells) (k v j : Text) (n : ℕ)
    → time_of (put s k (some (v, n)) j) ≡ (if same k j then some n else time_of (s j))
time_put s k v j n = ground arith

nx_free_at :
    (s : Cells) (k v : Text) (n : ℕ) (o : Option (Text × ℕ))
    → value_of o ≡ none
    → set_if_free s k v n o ≡ (put s k (some (v, n)), true)
nx_free_at s k v n none h = refl
nx_free_at s k v n (some (w, m)) h = cc

pub nx_free :
    (s : Cells) (k v : Text) (n : ℕ)
    → value_of (s k) ≡ none
    → set_if_free s k v n (s k) ≡ (put s k (some (v, n)), true)
nx_free s k v n h = nx_free_at s k v n (s k) h

pub nx_taken :
    (s : Cells) (k v : Text) (n : ℕ) (w : Text)
    → value_of (s k) ≡ some w
    → set_if_free s k v n (s k) ≡ (s, false)
nx_taken s k v n w h = ground arith

pub expire_reply :
    (s : Cells) (k : Text) (n : ℕ) (w : Text)
    → value_of (s k) ≡ some w
    → (expire_at s k n (s k)).1 ≡ 1
expire_reply s k n w h = ground arith

pub value_expire :
    (s : Cells) (k : Text) (n : ℕ) (j : Text)
    → value_of ((expire_at s k n (s k)).0 j) ≡ value_of (s j)
value_expire s k n j = ground (arith, same_iff k j)

pub time_expire :
    (s : Cells) (k : Text) (n : ℕ) (j w : Text)
    → value_of (s k) ≡ some w
    → time_of ((expire_at s k n (s k)).0 j) ≡ (if same k j then some n else time_of (s j))
time_expire s k n j w h = ground arith

pub del_one : (s : Cells) (k w : Text) → value_of (s k) ≡ some w → (del_at s k (s k)).1 ≡ 1
del_one s k w h = ground arith

pub value_del :
    (s : Cells) (k j : Text)
    → value_of ((del_at s k (s k)).0 j) ≡ (if same k j then none else value_of (s j))
value_del s k j = ground (arith, same_iff k j)

pub time_del :
    (s : Cells) (k j : Text) → same k j ≡ false → time_of ((del_at s k (s k)).0 j) ≡ time_of (s j)
time_del s k j h = ground arith

pub value_age :
    (s : Cells) (d n : ℕ) (j : Text)
    → time_of (s j) ≡ some n
    → d < n
    → value_of (age d (s j)) ≡ value_of (s j)
value_age s d n j h lt = ground arith

pub time_age :
    (s : Cells) (d n : ℕ) (j : Text)
    → time_of (s j) ≡ some n
    → d < n
    → time_of (age d (s j)) ≡ some (n - d)
time_age s d n j h lt = ground arith

abbrev pub memory : Redis
memory = record {
  Server = Cells;
  get = λ s k. value_of (s k);
  pttl = λ s k. time_of (s k);
  set_px = λ s k v n. put s k (some (v, n));
  set_nx_px = λ s k v n. set_if_free s k v n (s k);
  pexpire = λ s k n. expire_at s k n (s k);
  del = λ s k. del_at s k (s k);
  wait = λ d s j. age d (s j);
  get-set_px = λ s k v n j _. value_put s k v j n;
  pttl-set_px = λ s k v n j _. time_put s k v j n;
  set_nx_px_free = nx_free;
  set_nx_px_taken = nx_taken;
  pexpire_reply = expire_reply;
  get-pexpire = λ s k n j _. value_expire s k n j;
  pttl-pexpire = λ s k n j w _ h. time_expire s k n j w h;
  del_reply = del_one;
  get-del = value_del;
  pttl-del = time_del;
  get-wait_live = value_age;
  pttl-wait = time_age;
}

-- A server with no key.
abbrev pub blank : Cells
blank j = none
