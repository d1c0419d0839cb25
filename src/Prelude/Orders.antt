-- ===== src/Prelude/Orders.antt =====
-- Comparison functions, built the way the program's `sort` callbacks chain them.
use mathlib.Core.Path.{◌≡◌}
use mathlib.Core.Bool.{Bool, true, false}
use mathlib.Core.Logic.{inl, inr}
use native.Mathlib.Omega.{arith}
use aimgr.Prelude.Tests.{if◌then◌else◌, leb, Bool-cases}
use Prim.Native.Nat.{ℕ}

-- `le a b` says that the comparison of `a` with `b` is not positive.
pub record Preorder {ℓ} (A : Type ℓ) : Type ℓ where
  pub le : A → A → Bool
  pub total : (a b : A) → le a b ≡ false → le b a ≡ true
  pub trans : (a b c : A) → le a b ≡ true → le b c ≡ true → le a c ≡ true

pub le_refl {ℓ} : {A : Type ℓ} (o : Preorder A) (a : A) → o.le a a ≡ true
le_refl o a = elim (Bool-cases (o.le a a)) [ inl e ↦ e | inr e ↦ o.total a a e ]

-- `f(a) - f(b)`.
abbrev pub on {ℓ κ} : {A : Type ℓ} {K : Type κ} → Preorder K → (A → K) → Preorder A
on o f = record {
  le = λ a b. o.le (f a) (f b);
  total = λ a b. o.total (f a) (f b);
  trans = λ a b c. o.trans (f a) (f b) (f c);
}

-- `f(b) - f(a)`.
abbrev pub down {ℓ} : {A : Type ℓ} → Preorder A → Preorder A
down o = record {
  le = λ a b. o.le b a;
  total = λ a b. o.total b a;
  trans = λ a b c h k. o.trans c b a k h;
}

-- `first(a, b) || second(a, b)`: the second decides where the first sees no difference.
abbrev pub lex_le {ℓ} : {A : Type ℓ} → Preorder A → Preorder A → A → A → Bool
lex_le o p a b = if o.le a b then (if o.le b a then p.le a b else true) else false

pub lex_total {ℓ} :
    {A : Type ℓ} (o p : Preorder A) (a b : A) → lex_le o p a b ≡ false → lex_le o p b a ≡ true
lex_total o p a b h = ground (arith, o.total a b, p.total a b)

pub lex_trans {ℓ} :
    {A : Type ℓ} (o p : Preorder A) (a b c : A)
    → lex_le o p a b ≡ true
    → lex_le o p b c ≡ true
    → lex_le o p a c ≡ true
lex_trans o p a b c h k = ground (arith, o.trans a b c, o.trans c a b, o.trans b c a, p.trans a b c)

infixr 55 ◌then_by◌
abbrev pub ◌then_by◌ {ℓ} : {A : Type ℓ} → Preorder A → Preorder A → Preorder A
o then_by p = record { le = lex_le o p; total = lex_total o p; trans = lex_trans o p }

pub leb_total : (a b : ℕ) → leb a b ≡ false → leb b a ≡ true
leb_total a b h = ground arith

pub leb_trans : (a b c : ℕ) → leb a b ≡ true → leb b c ≡ true → leb a c ≡ true
leb_trans a b c h k = ground arith

abbrev pub ℕ_order : Preorder ℕ
ℕ_order = record { le = leb; total = leb_total; trans = leb_trans }
