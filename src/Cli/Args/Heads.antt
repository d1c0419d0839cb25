-- ===== src/Cli/Args/Heads.antt =====
-- The first two words of the command in the loop of `parseArgs` (src/cli/args.js).
use aimgr.Prelude.{
  ◌≡◌, refl, sym, ap, ◌∙◌, inl, inr, Bool, true, false, not, Bool-cases, ◌&&◌, Option, none, some,
  List, [], ◌∷◌, ◌++◌, Text, codes, same, Result, ok, err, starts_with, if◌then◌else◌,
}
use mathlib.Core.List.{append_assoc, append-nil}
use aimgr.Coordination.Keys.{is_empty}
use aimgr.Cli.Names.{Field}
use aimgr.Cli.Options.{Numerals, Parsed, put, raise, initial}
use aimgr.Cli.Presets.{
  is_claude_model_preset, claude_run_preset_args, explicit_preset, expand_claude_run_preset,
}
use aimgr.Cli.Args.{
  ArgError, Kind, end_mark, pass_through, plain, takes_value, sets, refused, classify, Check,
  anything, something, preset, megabytes, check_of, is_missing, put_number, put_megabytes,
  put_value, Next, stop, onward, after_value, after_kind, step, parse_loop, parse_args,
}
use aimgr.Cli.Args.Scope.{next-cases, loop_stops, loop_goes_on, run_heads}
use aimgr.Cli.Args.Words.{step-word}

module _ (nt : Numerals) where
  open nt use {number, is_positive}

  -- The words so far are kept.
  abbrev IsKept : Parsed nt → Result ArgError (Parsed nt) → Type 0
  IsKept o r = (p : Parsed nt) → r ≡ ok p → p.positional ≡ o.positional

  err-IsKept : (o : Parsed nt) (e : ArgError) → IsKept o (err e)
  err-IsKept o e p k = absurd (cc k)

  ok-IsKept : (o q : Parsed nt) → q.positional ≡ o.positional → IsKept o (ok q)
  ok-IsKept o q h p k = let e : q ≡ p = cc k in rw (← e) h

  if-IsKept :
      (b : Bool) (o : Parsed nt) (r s : Result ArgError (Parsed nt))
      → IsKept o r
      → IsKept o s
      → IsKept o (if b then r else s)
  if-IsKept true o r s h k = h
  if-IsKept false o r s h k = k

  put-IsKept : (f : Field) (v : Option Text) (o : Parsed nt) → IsKept o (ok (put nt f v o))
  unfolding put
  put-IsKept f v o = ok-IsKept o (put nt f v o) refl

  number-IsKept : (n : Option nt.Number) (o : Parsed nt) → IsKept o (put_number nt n o)
  unfolding put_number
  number-IsKept none o = err-IsKept o _
  number-IsKept (some n) o =
      if-IsKept (is_positive n) o _ _ (ok-IsKept o (record o { max_copy_mb = some n }) refl)
        (err-IsKept o _)

  megabytes-IsKept : (v : Option Text) (o : Parsed nt) → IsKept o (put_megabytes nt v o)
  unfolding put_megabytes
  megabytes-IsKept none o = err-IsKept o _
  megabytes-IsKept (some v) o = number-IsKept (number v) o

  put_value-IsKept :
      (c : Check) (f : Field) (v : Option Text) (o : Parsed nt) → IsKept o (put_value nt c f v o)
  unfolding put_value
  put_value-IsKept anything f v o = put-IsKept f v o
  put_value-IsKept something f v o =
      if-IsKept (is_missing v) o _ _ (err-IsKept o _) (put-IsKept f v o)
  put_value-IsKept preset f v o =
      if-IsKept (is_claude_model_preset v) o _ _ (put-IsKept f v o) (err-IsKept o _)
  put_value-IsKept megabytes f v o =
      if-IsKept (is_missing v) o _ _ (err-IsKept o _) (megabytes-IsKept v o)

  -- The words so far are kept, and others follow them.
  abbrev IsGrown : Parsed nt → Parsed nt → Type 0
  IsGrown o p = (ws : List Text) × (p.positional ≡ o.positional ++ ws)

  same-IsGrown : (o p : Parsed nt) → p.positional ≡ o.positional → IsGrown o p
  same-IsGrown o p h = ([], h ∙ sym (append-nil o.positional))

  IsGrown-trans : (o m p : Parsed nt) → IsGrown o m → IsGrown m p → IsGrown o p
  IsGrown-trans o m p (ws, h) (vs, k) =
      (ws ++ vs, k ∙ ap (λ l. l ++ vs) h ∙ append_assoc o.positional ws vs)

  abbrev IsNextGrown : Parsed nt → Next nt → Type 0
  IsNextGrown o (stop r) = (p : Parsed nt) → r ≡ ok p → IsGrown o p
  IsNextGrown o (onward f m) = IsGrown o m

  kept-IsNextGrown :
      (o : Parsed nt) (r : Result ArgError (Parsed nt))
      → IsKept o r
      → IsNextGrown o (after_value nt r)
  unfolding after_value
  kept-IsNextGrown o (err e) h = λ p k. absurd (cc k)
  kept-IsNextGrown o (ok m) h = same-IsGrown o m (h m refl)

  kind-IsNextGrown :
      (k : Kind) (arg : Text) (rest : List Text) (o : Parsed nt)
      → IsNextGrown o (after_kind nt k arg rest o)
  unfolding after_kind raise
  kind-IsNextGrown end_mark arg rest o =
      λ p k. same-IsGrown o p (ok-IsKept o (record o { after_double_dash = rest }) refl p k)
  kind-IsNextGrown pass_through arg rest o =
      λ p k. same-IsGrown o p (ok-IsKept o (record o { after_double_dash = arg ∷ rest }) refl p k)
  kind-IsNextGrown plain arg rest o = (arg ∷ [], refl)
  kind-IsNextGrown (takes_value f) arg rest o = same-IsGrown o o refl
  kind-IsNextGrown (sets f) arg rest o = same-IsGrown o (raise nt f o) refl
  kind-IsNextGrown (refused e) arg rest o = λ p k. absurd (cc k)

  step-IsNextGrown :
      (argv : List Text) (arg : Text) (rest : List Text) (waiting : Option Field) (o : Parsed nt)
      → IsNextGrown o (step nt argv arg rest waiting o)
  unfolding step
  step-IsNextGrown argv arg rest none o = kind-IsNextGrown (classify argv arg) arg rest o
  step-IsNextGrown argv arg rest (some f) o =
      kept-IsNextGrown o (put_value nt (check_of f) f (some arg) o)
        (put_value-IsKept (check_of f) f (some arg) o)

  loop-IsGrown :
      (argv rest : List Text) (waiting : Option Field) (o p : Parsed nt)
      → parse_loop nt argv rest waiting o ≡ ok p
      → IsGrown o p
  unfolding parse_loop
  loop-IsGrown argv [] none o p k = same-IsGrown o p (ok-IsKept o o refl p k)
  loop-IsGrown argv [] (some f) o p k =
      same-IsGrown o p (put_value-IsKept (check_of f) f none o p k)
  loop-IsGrown argv (arg ∷ rest) waiting o p k =
      let next = step-IsNextGrown argv arg rest waiting o in
      elim (next-cases nt (step nt argv arg rest waiting o)) [
        | inl (r, e) ↦ (rw e at next) p (sym (loop_stops nt argv arg rest waiting o r e) ∙ k)
        | inr (f, m, e) ↦
            let onward_next : IsGrown o m = rw e at next in
            IsGrown-trans o m p onward_next (
              loop-IsGrown argv rest f m p
                (sym (loop_goes_on nt argv arg rest waiting o f m e) ∙ k))
      ]

  -- Two words at the start of the list are the first two words of the command.
  loop-heads :
      (argv : List Text) (c a : Text) (rest : List Text) (auto : Bool) (q : Option Text)
      (p : Parsed nt)
      → starts_with (codes "-") c ≡ false
      → starts_with (codes "-") a ≡ false
      → parse_loop nt argv (c ∷ a ∷ rest) none (initial nt auto q) ≡ ok p
      → (ws : List Text) × (p.positional ≡ c ∷ a ∷ ws)
  unfolding initial
  loop-heads argv c a rest auto q p h k e =
      let o = initial nt auto q in
      let m = record o { positional = c ∷ [] } in
      let g = record o { positional = c ∷ a ∷ [] } in
      loop-IsGrown argv rest none g p (
        sym (loop_goes_on nt argv a rest none m none g (step-word nt argv a rest m k))
        ∙ sym (loop_goes_on nt argv c (a ∷ rest) none o none m (step-word nt argv c (a ∷ rest) o h))
        ∙ e)

expand_heads :
    (c a : Text) (rest : List Text)
    → (xs : List Text) × ((expand_claude_run_preset (c ∷ a ∷ rest)).argv ≡ c ∷ a ∷ xs)
unfolding expand_claude_run_preset
expand_heads c a [] = ([], refl)
expand_heads c a (t ∷ ts) =
    elim (Bool-cases (same c (codes "claude") && same a (codes "run") && not (is_empty t))) [
      | inr e ↦ (t ∷ ts, rw e refl)
      | inl e ↦
          let (xs, q) = run_heads c a t ts (explicit_preset ts) (claude_run_preset_args t) in
          (xs, rw e q)
    ]

-- Where `parseArgs` returns, two arguments at the start that begin with no dash are the first two
-- words of the command, whatever follows them.
pub parse_args-heads :
    (nt : Numerals) (c a : Text) (rest : List Text) (p : Parsed nt)
    → starts_with (codes "-") c ≡ false
    → starts_with (codes "-") a ≡ false
    → parse_args nt (c ∷ a ∷ rest) ≡ ok p
    → (ws : List Text) × (p.positional ≡ c ∷ a ∷ ws)
unfolding parse_args
parse_args-heads nt c a rest p h k e =
    let x = expand_claude_run_preset (c ∷ a ∷ rest) in
    let (xs, q) = expand_heads c a rest in
    loop-heads nt x.argv c a xs x.auto_select x.auto_select_preset p h k (
      ap (λ l. parse_loop nt x.argv l none (initial nt x.auto_select x.auto_select_preset)) (sym q)
      ∙ e)
