-- ===== src/Cli/Args/Scope.antt =====
-- What the loop of `parseArgs` lets through.
use aimgr.Prelude.{
  ◌≡◌, refl, sym, ◌∙◌, ◌⊎◌, inl, inr, true, not, Bool-cases, ◌&&◌, Option, none, some, List, [],
  ◌∷◌, Text, codes, same, Result, ok, err, All-append,
}
use aimgr.Coordination.Keys.{is_empty}
use aimgr.Cli.Names.{Field, Flag, prime_resume_rotate, codex_resume_fresh_max_copy_mb}
use aimgr.Cli.Options.{is_field_allowed, is_flag_allowed, Numerals, Parsed}
use aimgr.Cli.Presets.{
  claude_run_preset_args, explicit_preset, expand_run, expand_claude_run_preset,
}
use aimgr.Cli.Args.{
  ArgError, Kind, end_mark, pass_through, plain, takes_value, sets, refused, classify, check_of,
  put_value, Next, stop, onward, after_value, after_kind, step, parse_loop, parse_args,
}
use aimgr.Cli.Args.Placed.{IsPlaced, classify-IsPlaced}
use aimgr.Cli.Args.Values.{IsScoped, initial-IsScoped, raise-IsScoped, put_value-IsScoped}

module _ (nt : Numerals) where
  -- A field that waits for its value is allowed.
  abbrev pub IsWaiting : List Text → Option Field → Type 0
  IsWaiting argv none = Unit
  IsWaiting argv (some f) = is_field_allowed argv f ≡ true

  abbrev pub IsNext : List Text → Next nt → Type 0
  IsNext argv (stop r) = (p : Parsed nt) → r ≡ ok p → IsScoped nt argv p
  IsNext argv (onward f p) = IsWaiting argv f × IsScoped nt argv p

  after_value-IsNext :
      (argv : List Text) (r : Result ArgError (Parsed nt))
      → ((p : Parsed nt) → r ≡ ok p → IsScoped nt argv p)
      → IsNext argv (after_value nt r)
  unfolding after_value
  after_value-IsNext argv (err e) h = h
  after_value-IsNext argv (ok o) h = (tt, h o refl)

  ended-IsScoped :
      (argv tail : List Text) (o : Parsed nt)
      → IsScoped nt argv o
      → IsScoped nt argv (record o { after_double_dash = tail })
  ended-IsScoped argv tail o h = record {
    flags = h.flags;
    values = h.values;
    words = h.words;
    copy_limit = h.copy_limit;
  }

  after_kind-IsNext :
      (argv : List Text) (k : Kind) (arg : Text) (rest : List Text) (o : Parsed nt)
      → IsPlaced argv arg k
      → IsScoped nt argv o
      → IsNext argv (after_kind nt k arg rest o)
  unfolding after_kind
  after_kind-IsNext argv end_mark arg rest o a h = λ p e.
      let q : record o { after_double_dash = rest } ≡ p = cc e in
      rw (← q) (ended-IsScoped argv rest o h)
  after_kind-IsNext argv pass_through arg rest o a h = λ p e.
      let q : record o { after_double_dash = arg ∷ rest } ≡ p = cc e in
      rw (← q) (ended-IsScoped argv (arg ∷ rest) o h)
  after_kind-IsNext argv plain arg rest o a h = (
    tt,
    record {
      flags = h.flags;
      values = h.values;
      words = All-append _ o.positional (arg ∷ []) h.words (a, tt);
      copy_limit = h.copy_limit;
    },
  )
  after_kind-IsNext argv (takes_value f) arg rest o a h = (a, h)
  after_kind-IsNext argv (sets f) arg rest o a h = (tt, raise-IsScoped nt argv f o a h)
  after_kind-IsNext argv (refused e) arg rest o a h = λ p k. absurd (cc k)

  step-IsNext :
      (argv : List Text) (arg : Text) (rest : List Text) (waiting : Option Field) (o : Parsed nt)
      → IsWaiting argv waiting
      → IsScoped nt argv o
      → IsNext argv (step nt argv arg rest waiting o)
  unfolding step
  step-IsNext argv arg rest none o a h =
      after_kind-IsNext argv (classify argv arg) arg rest o (classify-IsPlaced argv arg) h
  step-IsNext argv arg rest (some f) o a h =
      after_value-IsNext argv (put_value nt (check_of f) f (some arg) o)
        (λ p e. put_value-IsScoped nt argv f (check_of f) (some arg) o p refl a h e)

  pub next-cases :
      (n : Next nt)
      → ((r : Result ArgError (Parsed nt)) × (n ≡ stop r))
        ⊎ ((f : Option Field) × (p : Parsed nt) × (n ≡ onward f p))
  next-cases (stop r) = inl (r, refl)
  next-cases (onward f p) = inr (f, p, refl)

  pub loop_stops :
      (argv : List Text) (arg : Text) (rest : List Text) (waiting : Option Field) (o : Parsed nt)
      (r : Result ArgError (Parsed nt))
      → step nt argv arg rest waiting o ≡ stop r
      → parse_loop nt argv (arg ∷ rest) waiting o ≡ r
  unfolding parse_loop
  loop_stops argv arg rest waiting o r e = rw (parse_loop, e)

  pub loop_goes_on :
      (argv : List Text) (arg : Text) (rest : List Text) (waiting : Option Field) (o : Parsed nt)
      (f : Option Field) (p : Parsed nt)
      → step nt argv arg rest waiting o ≡ onward f p
      → parse_loop nt argv (arg ∷ rest) waiting o ≡ parse_loop nt argv rest f p
  unfolding parse_loop
  loop_goes_on argv arg rest waiting o f p e = rw (parse_loop, e)

  pub loop-IsScoped :
      (argv rest : List Text) (waiting : Option Field) (o p : Parsed nt)
      → IsWaiting argv waiting
      → IsScoped nt argv o
      → parse_loop nt argv rest waiting o ≡ ok p
      → IsScoped nt argv p
  unfolding parse_loop
  loop-IsScoped argv [] none o p a h k = let q : o ≡ p = cc k in rw (← q) h
  loop-IsScoped argv [] (some f) o p a h k =
      put_value-IsScoped nt argv f (check_of f) none o p refl a h k
  loop-IsScoped argv (arg ∷ rest) waiting o p a h k =
      let next = step-IsNext argv arg rest waiting o a h in
      elim (next-cases (step nt argv arg rest waiting o)) [
        | inl (r, e) ↦ (rw e at next) p (sym (loop_stops argv arg rest waiting o r e) ∙ k)
        | inr (f, m, e) ↦
            let onward_next = rw e at next in
            loop-IsScoped argv rest f m p onward_next.0 onward_next.1
              (sym (loop_goes_on argv arg rest waiting o f m e) ∙ k)
      ]

-- What an option needs is read off the first two words.
flag_heads :
    (c a : Text) (xs ys : List Text) (f : Flag)
    → is_flag_allowed (c ∷ a ∷ xs) f ≡ is_flag_allowed (c ∷ a ∷ ys) f
unfolding is_flag_allowed
flag_heads c a xs ys prime_resume_rotate = refl
flag_heads c a xs ys _ = refl

field_heads :
    (c a : Text) (xs ys : List Text) (f : Field)
    → is_field_allowed (c ∷ a ∷ xs) f ≡ is_field_allowed (c ∷ a ∷ ys) f
unfolding is_field_allowed
field_heads c a xs ys codex_resume_fresh_max_copy_mb = refl
field_heads c a xs ys _ = refl

heads-IsScoped :
    (nt : Numerals) (c a : Text) (xs ys : List Text) (p : Parsed nt)
    → IsScoped nt (c ∷ a ∷ xs) p
    → IsScoped nt (c ∷ a ∷ ys) p
heads-IsScoped nt c a xs ys p h = record {
  flags = λ f e. sym (flag_heads c a xs ys f) ∙ h.flags f e;
  values = λ f v e. (sym (field_heads c a xs ys f) ∙ (h.values f v e).0, (h.values f v e).1);
  words = h.words;
  copy_limit = h.copy_limit;
}

pub run_heads :
    (c a t : Text) (ts : List Text) (explicit named : Option (List Text))
    → (xs : List Text) × ((expand_run c a t ts explicit named).argv ≡ c ∷ a ∷ xs)
unfolding expand_run
run_heads c a t ts (some args) named = (_, refl)
run_heads c a t ts none (some args) = (_, refl)
run_heads c a t ts none none = (_, refl)

expanded-IsScoped :
    (nt : Numerals) (argv : List Text) (p : Parsed nt)
    → IsScoped nt ((expand_claude_run_preset argv).argv) p
    → IsScoped nt argv p
unfolding expand_claude_run_preset
expanded-IsScoped nt [] p h = h
expanded-IsScoped nt (c ∷ []) p h = h
expanded-IsScoped nt (c ∷ a ∷ []) p h = h
expanded-IsScoped nt (c ∷ a ∷ t ∷ ts) p h =
    elim (Bool-cases (same c (codes "claude") && same a (codes "run") && not (is_empty t))) [
      | inr e ↦ rw e at h
      | inl e ↦
          let (xs, q) = run_heads c a t ts (explicit_preset ts) (claude_run_preset_args t) in
          heads-IsScoped nt c a xs (t ∷ ts) p (rw (e, q) at h)
    ]

-- Where `parseArgs` returns: each flag and each value that is set belongs to the command that the
-- first two arguments name; a value that must be given is neither empty nor another option, a preset
-- is one of the three, and the copy limit is a positive number; and no word of the command begins
-- with a dash.
pub parse_args-IsScoped :
    (nt : Numerals) (argv : List Text) (p : Parsed nt)
    → parse_args nt argv ≡ ok p
    → IsScoped nt argv p
unfolding parse_args
parse_args-IsScoped nt argv p k =
    let e = expand_claude_run_preset argv in
    expanded-IsScoped nt argv p (
      loop-IsScoped nt e.argv e.argv none _ p tt
        (initial-IsScoped nt e.argv e.auto_select e.auto_select_preset) k)
