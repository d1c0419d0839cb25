-- ===== src/Coordination/Records/Memory.antt =====
-- A server and a text format that meet the laws of the record store.
use aimgr.Prelude.{
  ℕ, zero, suc, ◌≤◌, ◌<◌, ◌≡◌, refl, ◌≢◌, Bool, true, false, ◌&&◌, ◌||◌, Option, none, some, List,
  [], ◌∷◌, ◌++◌, Text, same, same_refl, includes, length, ==_iff, ◌==◌, Result, ok, err,
  if◌then◌else◌, arith,
}
use aimgr.Coordination.Records.Server.{StoredRecord, StoreError, malformed_json, Json, RecordServer}

pub record State : Type 0 where
  pub value : Text → Option Text
  pub count : Text → ℕ
  pub members : Text → Text → Bool

abbrev commit_to : State → Text → Text → List Text → State
commit_to s k v ix = record {
  value = λ j. if same k j then some v else s.value j;
  count = λ j. if same k j then suc (s.count j) else s.count j;
  members = λ i x. (includes i ix && same k x) || s.members i x;
}

abbrev exec_to : State → ℕ → Text → Text → List Text → State × Bool
exec_to s n k v ix = if s.count k == n then (commit_to s k v ix, true) else (s, false)

abbrev NotEarlier : State → State → Type 0
NotEarlier s t =
    (k : Text) → (s.count k ≤ t.count k) × (s.count k ≡ t.count k → s.value k ≡ t.value k)

pub unmodified :
    (s : State) (n : ℕ) (k v : Text) (ix : List Text)
    → s.count k ≡ n
    → exec_to s n k v ix ≡ (commit_to s k v ix, true)
unmodified s n k v ix h = rw ((==_iff (s.count k) n).1 h)

pub modified :
    (s : State) (n : ℕ) (k v : Text) (ix : List Text)
    → s.count k ≢ n
    → exec_to s n k v ix ≡ (s, false)
modified s n k v ix h = ground arith

pub count_commit :
    (s : State) (k v : Text) (ix : List Text) → s.count k < (commit_to s k v ix).count k
count_commit s k v ix = rw (same_refl k) (omega arith)

pub value_commit : (s : State) (k v : Text) (ix : List Text) → (commit_to s k v ix).value k ≡ some v
value_commit s k v ix = rw (same_refl k)

pub value_commit_ne :
    (s : State) (k v j : Text) (ix : List Text)
    → same k j ≡ false
    → (commit_to s k v ix).value j ≡ s.value j
value_commit_ne s k v j ix h = rw h

abbrev pub memory : RecordServer
memory = record {
  Server = State;
  get = λ s. s.value;
  is_member = λ s. s.members;
  stamp = λ s. s.count;
  commit = commit_to;
  exec = exec_to;
  Later = NotEarlier;
  exec_unmodified = unmodified;
  exec_modified = modified;
  get-commit = λ s k v ix _. value_commit s k v ix;
  get-commit_ne = λ s k v j ix h _. value_commit_ne s k v j ix h;
  member-commit = λ s k v i x ix. refl;
  stamp-commit = count_commit;
  stamp-Later = λ s t k h. (h k).0;
  get-Later = λ s t k h e. (h k).1 e;
}

-- A text preceded by its length, and what follows it.
abbrev put_text : Option Text → Text → Text
put_text none rest = 0 ∷ rest
put_text (some t) rest = suc (length t) ∷ (t ++ rest)

abbrev put_number : Option ℕ → Text → Text
put_number none rest = 0 ∷ rest
put_number (some n) rest = suc n ∷ rest

abbrev print_flat : StoredRecord ℕ → Text
print_flat r =
    put_number r.version
      (put_text r.created_at (put_text r.updated_at (put_text r.updated_by (r.body ∷ []))))

-- The first `n` units and the others.
abbrev split_at : ℕ → Text → Text × Text
split_at zero t = ([], t)
split_at (suc n) [] = ([], [])
split_at (suc n) (c ∷ t) = let (a, b) = split_at n t in (c ∷ a, b)

abbrev take_text :
    Text
    → (Option Text → Text → Result StoreError (Option (StoredRecord ℕ)))
    → Result StoreError (Option (StoredRecord ℕ))
take_text [] k = err malformed_json
take_text (zero ∷ t) k = k none t
take_text (suc n ∷ t) k = let (a, b) = split_at n t in k (some a) b

abbrev take_number :
    Text
    → (Option ℕ → Text → Result StoreError (Option (StoredRecord ℕ)))
    → Result StoreError (Option (StoredRecord ℕ))
take_number [] k = err malformed_json
take_number (zero ∷ t) k = k none t
take_number (suc n ∷ t) k = k (some n) t

abbrev finish :
    Option ℕ
    → Option Text
    → Option Text
    → Option Text
    → Text
    → Result StoreError (Option (StoredRecord ℕ))
finish v c u b [] = err malformed_json
finish v c u b (n ∷ t) =
    ok (some (record { version = v; created_at = c; updated_at = u; updated_by = b; body = n }))

abbrev parse_flat : Text → Result StoreError (Option (StoredRecord ℕ))
parse_flat t =
    take_number t
      (λ v t. take_text t (λ c t. take_text t (λ u t. take_text t (λ b t. finish v c u b t))))

split_at-append : (a b : Text) → split_at (length a) (a ++ b) ≡ (a, b)
split_at-append [] b = refl
split_at-append (c ∷ a) b = rw (split_at-append a b)

take-put_text :
    (o : Option Text) (t : Text)
    (k : Option Text → Text → Result StoreError (Option (StoredRecord ℕ)))
    → take_text (put_text o t) k ≡ k o t
take-put_text none t k = refl
take-put_text (some a) t k = rw (split_at-append a t)

take-put_number :
    (o : Option ℕ) (t : Text) (k : Option ℕ → Text → Result StoreError (Option (StoredRecord ℕ)))
    → take_number (put_number o t) k ≡ k o t
take-put_number none t k = refl
take-put_number (some a) t k = refl

pub parse_print_flat : (r : StoredRecord ℕ) → parse_flat (print_flat r) ≡ ok (some r)
parse_print_flat r = simp (take-put_number, take-put_text)

abbrev pub flat : Json ℕ
flat = record { parse = parse_flat; print = print_flat; parse-print = parse_print_flat }

abbrev pub blank : State
blank = record { value = λ k. none; count = λ k. 0; members = λ i x. false }
