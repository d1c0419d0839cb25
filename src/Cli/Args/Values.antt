-- ===== src/Cli/Args/Values.antt =====
-- What the checks of option values let through.
use aimgr.Prelude.{
  ◌≡◌, refl, ◌⊎◌, inl, inr, Bool, true, false, Bool-cases, Option, none, some, List, Text, codes,
  starts_with, Result, ok, err, All, arith, if◌then◌else◌,
}
use mathlib.Core.Logic.{ite}
use aimgr.Coordination.Keys.{is_empty}
use aimgr.Cli.Names.{Field, Flag, Field-discrete, Flag-discrete, codex_resume_fresh_max_copy_mb}
use aimgr.Cli.Options.{
  is_codex_resume_fresh, is_field_allowed, is_flag_allowed, Numerals, Parsed, put, raise, initial,
}
use aimgr.Cli.Presets.{is_claude_model_preset}
use aimgr.Cli.Args.{
  ArgError, Check, anything, something, preset, megabytes, check_of, is_missing, requires_positive,
  put_number, put_megabytes, put_value,
}

ite-cases : {A P : Type 0} (d : Dec P) (a b c : A) → ite d a b ≡ c → (P × (a ≡ c)) ⊎ (b ≡ c)
ite-cases (yes p) a b c e = inl (p, e)
ite-cases (no n) a b c e = inr e

-- The values that a check lets through.
abbrev pub IsAccepted : Check → Text → Type 0
IsAccepted anything v = Unit
IsAccepted something v = (is_empty v ≡ false) × (starts_with (codes "--") v ≡ false)
IsAccepted preset v = is_claude_model_preset (some v) ≡ true
IsAccepted megabytes v = Unit

megabytes-allowed :
    (argv : List Text) (f : Field)
    → check_of f ≡ megabytes
    → is_field_allowed argv f ≡ true
    → is_codex_resume_fresh argv ≡ true
unfolding check_of is_field_allowed
megabytes-allowed argv codex_resume_fresh_max_copy_mb e a = a
megabytes-allowed argv _ e a = absurd (cc e)

module _ (nt : Numerals) where
  open nt use {number, is_positive}

  -- The options that stand belong to the command, their values are accepted, and no word of the
  -- command begins with a dash.
  pub record IsScoped (argv : List Text) (o : Parsed nt) : Type 0 where
    pub flags : (f : Flag) → o.flag f ≡ true → is_flag_allowed argv f ≡ true
    pub values :
        (f : Field) (v : Text)
        → o.value f ≡ some v
        → (is_field_allowed argv f ≡ true) × IsAccepted (check_of f) v
    pub words : All (λ t. starts_with (codes "-") t ≡ false) o.positional
    pub copy_limit :
        (n : nt.Number)
        → o.max_copy_mb ≡ some n
        → (is_codex_resume_fresh argv ≡ true) × (is_positive n ≡ true)

  pub initial-IsScoped :
      (argv : List Text) (b : Bool) (p : Option Text) → IsScoped argv (initial nt b p)
  unfolding initial
  initial-IsScoped argv b p = record {
    flags = λ f e. absurd (cc e);
    values = λ f v e. absurd (cc e);
    words = tt;
    copy_limit = λ n e. absurd (cc e);
  }

  pub raise-IsScoped :
      (argv : List Text) (f : Flag) (o : Parsed nt)
      → is_flag_allowed argv f ≡ true
      → IsScoped argv o
      → IsScoped argv (raise nt f o)
  unfolding raise
  raise-IsScoped argv f o a h = record {
    flags = λ g e. elim (ite-cases (Flag-discrete g f) true (o.flag g) true e) [
      | inl p ↦ rw p.0 a
      | inr p ↦ h.flags g p
    ];
    values = h.values;
    words = h.words;
    copy_limit = h.copy_limit;
  }

  put-IsScoped :
      (argv : List Text) (f : Field) (v : Option Text) (o : Parsed nt)
      → is_field_allowed argv f ≡ true
      → ((t : Text) → v ≡ some t → IsAccepted (check_of f) t)
      → IsScoped argv o
      → IsScoped argv (put nt f v o)
  unfolding put
  put-IsScoped argv f v o a k h = record {
    flags = h.flags;
    values = λ g t e. elim (ite-cases (Field-discrete g f) v (o.value g) (some t) e) [
      | inl p ↦ rw p.0 (a, k t p.1)
      | inr p ↦ h.values g t p
    ];
    words = h.words;
    copy_limit = h.copy_limit;
  }

  positive-IsScoped :
      (argv : List Text) (n : nt.Number) (b : Bool) (o p : Parsed nt)
      → is_positive n ≡ b
      → is_codex_resume_fresh argv ≡ true
      → IsScoped argv o
      → ◌≡◌ {A = Result ArgError (Parsed nt)}
          (if b then ok (record o { max_copy_mb = some n }) else err requires_positive)
          (ok p)
      → IsScoped argv p
  positive-IsScoped argv n false o p e a h k = absurd (cc k)
  positive-IsScoped argv n true o p e a h k =
      let q : record o { max_copy_mb = some n } ≡ p = cc k in
      rw (← q) (record {
        flags = h.flags;
        values = h.values;
        words = h.words;
        copy_limit = λ m g. let same_number : n ≡ m = cc g in rw (← same_number) (a, e);
      })

  number-IsScoped :
      (argv : List Text) (found : Option nt.Number) (o p : Parsed nt)
      → is_codex_resume_fresh argv ≡ true
      → IsScoped argv o
      → put_number nt found o ≡ ok p
      → IsScoped argv p
  unfolding put_number
  number-IsScoped argv none o p a h k = absurd (cc k)
  number-IsScoped argv (some n) o p a h k = positive-IsScoped argv n (is_positive n) o p refl a h k

  megabytes-IsScoped :
      (argv : List Text) (v : Option Text) (o p : Parsed nt)
      → is_codex_resume_fresh argv ≡ true
      → IsScoped argv o
      → put_megabytes nt v o ≡ ok p
      → IsScoped argv p
  unfolding put_megabytes
  megabytes-IsScoped argv none o p a h k = absurd (cc k)
  megabytes-IsScoped argv (some v) o p a h k = number-IsScoped argv (number v) o p a h k

  checked-IsAccepted : (t : Text) → is_missing (some t) ≡ false → IsAccepted something t
  unfolding is_missing
  checked-IsAccepted t h = (ground (arith, h), ground (arith, h))

  -- What is accepted of a value is in the options, and nothing else changes.
  pub put_value-IsScoped :
      (argv : List Text) (f : Field) (c : Check) (v : Option Text) (o p : Parsed nt)
      → check_of f ≡ c
      → is_field_allowed argv f ≡ true
      → IsScoped argv o
      → put_value nt c f v o ≡ ok p
      → IsScoped argv p
  unfolding put_value
  put_value-IsScoped argv f anything v o p e a h k =
      let q : put nt f v o ≡ p = cc k in rw (← q) (put-IsScoped argv f v o a (λ t _. rw e tt) h)
  put_value-IsScoped argv f something v o p e a h k = elim (Bool-cases (is_missing v)) [
    | inl b ↦ absurd (cc (rw b at k))
    | inr b ↦
        let q : put nt f v o ≡ p = cc (rw b at k) in
        rw (← q) (put-IsScoped argv f v o a (λ t g. rw e (checked-IsAccepted t (rw g at b))) h)
  ]
  put_value-IsScoped argv f preset v o p e a h k = elim (Bool-cases (is_claude_model_preset v)) [
    | inr b ↦ absurd (cc (rw b at k))
    | inl b ↦
        let q : put nt f v o ≡ p = cc (rw b at k) in
        rw (← q) (put-IsScoped argv f v o a (λ t g. rw e (rw g at b)) h)
  ]
  put_value-IsScoped argv f megabytes v o p e a h k = elim (Bool-cases (is_missing v)) [
    | inl b ↦ absurd (cc (rw b at k))
    | inr b ↦ megabytes-IsScoped argv v o p (megabytes-allowed argv f e a) h (rw b at k)
  ]
