-- ===== src/Prelude/Texts.antt =====
-- Texts as lists of UTF-16 code units, the strings of the program.
use Prim.Native.Nat.{ℕ, ◌+◌, ◌<◌}
use Prim.Native.Char.{code}
use Prim.Native.String.{String}
use mathlib.Core.Path.{◌≡◌, refl}
use mathlib.Core.Logic.{◌↔◌}
use mathlib.Core.Bool.{Bool, true, false, ◌&&◌, ◌||◌}
use mathlib.Core.Option.{Option, none, some}
use mathlib.Core.List.{List, [], ◌∷◌, ◌++◌, map, reverse, reverse-cons, reverse-reverse}
use native.Mathlib.Omega.{arith}
use aimgr.Prelude.Tests.{◌==◌, leb, if◌then◌else◌}
use aimgr.Prelude.Lists.{All, All-append, All-imp}

abbrev pub Text : Type 0
Text = List ℕ

-- The code units of an ASCII literal.
abbrev pub codes : String → Text
codes String.[] = []
codes (String.◌∷◌ c s) = code c ∷ codes s

-- `a === b` on strings.
unfoldable pub same : Text → Text → Bool
same [] [] = true
same [] (b ∷ t) = false
same (a ∷ s) [] = false
same (a ∷ s) (b ∷ t) = a == b && same s t

pub same_refl : (s : Text) → same s s ≡ true
unfolding same
same_refl [] = refl
same_refl (a ∷ s) = ground (arith, same_refl s)

eq_of_same : (s t : Text) → same s t ≡ true → s ≡ t
unfolding same
eq_of_same [] [] h = refl
eq_of_same [] (b ∷ t) h = cc
eq_of_same (a ∷ s) [] h = cc
eq_of_same (a ∷ s) (b ∷ t) h = ground (arith, eq_of_same s t)

pub same_iff : (s t : Text) → (same s t ≡ true) ↔ (s ≡ t)
same_iff s t = (eq_of_same s t, λ e. rw (← e) (same_refl s))

-- `list.includes(text)`, and `set.has(text)` for a set kept as a list.
unfoldable pub includes : Text → List Text → Bool
includes t [] = false
includes t (s ∷ l) = same s t || includes t l

-- `object[key]`, for an object kept as the list of its entries.
unfoldable pub lookup_text {ℓ} : {A : Type ℓ} → Text → List (Text × A) → Option A
lookup_text k [] = none
lookup_text k ((j, a) ∷ rest) = if same j k then some a else lookup_text k rest

-- `text.startsWith(prefix)`.
unfoldable pub starts_with : Text → Text → Bool
starts_with [] t = true
starts_with (p ∷ ps) [] = false
starts_with (p ∷ ps) (c ∷ t) = p == c && starts_with ps t

pub starts_with-append : (p t : Text) → starts_with p (p ++ t) ≡ true
unfolding starts_with
starts_with-append [] t = refl
starts_with-append (c ∷ p) t = ground (arith, starts_with-append p t)

-- Whether the pattern occurs in the text.
unfoldable pub contains : Text → Text → Bool
unfolding starts_with
contains p [] = starts_with p []
contains p (c ∷ t) = starts_with p (c ∷ t) || contains p t

-- `text.endsWith(suffix)`.
unfoldable pub ends_with : Text → Text → Bool
unfolding starts_with
ends_with suffix t = starts_with (reverse suffix) (reverse t)

-- White space and line terminators, the code units that `trim` removes.
unfoldable pub is_space : ℕ → Bool
is_space c =
    (leb 9 c && leb c 13)
    || c == 32
    || c == 0xa0
    || c == 0x1680
    || (leb 0x2000 c && leb c 0x200a)
    || c == 0x2028
    || c == 0x2029
    || c == 0x202f
    || c == 0x205f
    || c == 0x3000
    || c == 0xfeff

unfoldable pub trim_start : Text → Text
unfolding is_space
trim_start [] = []
trim_start (c ∷ t) = if is_space c then trim_start t else c ∷ t

-- `text.trim()`.
unfoldable pub trim : Text → Text
unfolding trim_start
trim t = reverse (trim_start (reverse (trim_start t)))

abbrev pub HasNoSpace : Text → Type 0
HasNoSpace = All (λ c. is_space c ≡ false)

pub All-reverse {κ} : (P : ℕ → Type κ) (t : Text) → All P t → All P (reverse t)
All-reverse P [] h = tt
All-reverse P (c ∷ t) h =
    rw (reverse-cons c t) (All-append P (reverse t) (c ∷ []) (All-reverse P t h.1) (h.0, tt))

trim_start_fixed : (t : Text) → HasNoSpace t → trim_start t ≡ t
unfolding trim_start
trim_start_fixed [] h = refl
trim_start_fixed (c ∷ t) h = rw h.0

pub trim_fixed : (t : Text) → HasNoSpace t → trim t ≡ t
unfolding trim
trim_fixed t h =
    rw (trim_start_fixed t h, trim_start_fixed (reverse t) (All-reverse _ t h)) (reverse-reverse t)

-- A to Z become a to z; every other ASCII unit stays.
unfoldable pub lower_unit : ℕ → ℕ
lower_unit c = if leb 65 c && leb c 90 then c + 32 else c

abbrev pub IsAscii : Text → Type 0
IsAscii = All (λ c. c < 128)

-- `text.toLowerCase()` of the language's library: the Unicode table stays open, and its effect on
-- ASCII text is the documented one.
pub record LowerCase : Type 0 where
  pub lower : Text → Text
  pub lower_ascii : (t : Text) → IsAscii t → lower t ≡ map lower_unit t

-- The table restricted to ASCII meets the law.
abbrev pub ascii_lower : LowerCase
ascii_lower = record { lower = map lower_unit; lower_ascii = λ t _. refl }

pub map_fixed : (f : ℕ → ℕ) (t : Text) → All (λ c. f c ≡ c) t → map f t ≡ t
map_fixed f [] h = refl
map_fixed f (c ∷ t) h = ground (arith, map_fixed f t h.1)

-- A text of units that are ASCII, no capitals and no space passes through both unchanged.
abbrev pub IsPlainUnit : ℕ → Type 0
IsPlainUnit c = (c < 128) × (lower_unit c ≡ c) × (is_space c ≡ false)

pub lower-trim_fixed : (l : LowerCase) (t : Text) → All IsPlainUnit t → l.lower (trim t) ≡ t
lower-trim_fixed l t h =
    rw (trim_fixed t (All-imp _ _ t (λ c p. p.2) h), l.lower_ascii t (All-imp _ _ t (λ c p. p.0) h))
      (map_fixed lower_unit t (All-imp _ _ t (λ c p. p.1) h))
