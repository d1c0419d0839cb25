-- ===== src/Prelude/Results.antt =====
-- Fallible computations: a thrown error or an awaited rejection is `err`.
use mathlib.Core.Path.{◌≡◌, refl}
use mathlib.Core.Bool.{Bool, true, false}

pub data Result {ℓ κ} (E : Type ℓ) (A : Type κ) : Type (ℓ ⊔ κ) where
  ok : A → Result E A
  err : E → Result E A

-- `if (!test) throw error`.
abbrev pub ensure {ℓ} : {E : Type ℓ} → E → Bool → Result E (Unit {0})
ensure e b = elim b [ false ↦ err e | true ↦ ok tt ]

-- The first error of a chain of steps is its result.
infixl 5 ◌>>=◌ ◌>>◌
abbrev pub ◌>>=◌ {ℓ κ μ} :
    {E : Type ℓ} {A : Type κ} {B : Type μ} → Result E A → (A → Result E B) → Result E B
◌>>=◌ step next = elim step [ err e ↦ err e | ok a ↦ next a ]

abbrev pub ◌>>◌ {ℓ κ} : {E : Type ℓ} {B : Type κ} → Result E (Unit {0}) → Result E B → Result E B
◌>>◌ check next = elim check [ err e ↦ err e | ok _ ↦ next ]

-- The error of a part, as an error of the whole.
abbrev pub map_err {ℓ κ μ} :
    {E : Type ℓ} {F : Type κ} {A : Type μ} → (E → F) → Result E A → Result F A
map_err f (ok a) = ok a
map_err f (err e) = err (f e)

-- What a chain that succeeds went through.
module _ {ℓ κ} {E : Type ℓ} {A : Type κ} where
  pub bind_ok {μ} :
      {B : Type μ} (m : Result E A) (f : A → Result E B) (b : B)
      → (m >>= f) ≡ ok b
      → (a : A) × (m ≡ ok a) × (f a ≡ ok b)
  bind_ok (ok a) f b h = (a, refl, h)
  bind_ok (err e) f b h = cc h

  pub then_ok :
      (c : Result E (Unit {0})) (n : Result E A) (a : A)
      → (c >> n) ≡ ok a
      → (c ≡ ok tt) × (n ≡ ok a)
  then_ok (ok u) n a h = (refl, h)
  then_ok (err e) n a h = cc h

  pub map_err_ok {μ} :
      {F : Type μ} (f : E → F) (m : Result E A) (a : A) → map_err f m ≡ ok a → m ≡ ok a
  map_err_ok f (ok b) a h = cc h
  map_err_ok f (err e) a h = cc h

pub ensure_ok {ℓ} : {E : Type ℓ} (e : E) (b : Bool) → ensure e b ≡ ok tt → b ≡ true
ensure_ok e true h = refl
ensure_ok e false h = cc h
