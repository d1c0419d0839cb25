-- ===== src/Cli/Args/Placed.antt =====
-- What `classify` of the arguments lets through.
use aimgr.Prelude.{
  ◌≡◌, inl, inr, any, true, false, Bool-cases, ◌&&◌, ◌||◌, Option, none, some, List, ◌++◌, Text,
  codes, same, starts_with, lookup_text,
}
use mathlib.Core.Logic.{ite}
use aimgr.Cli.Names.{
  Flag, Field-discrete, Flag-discrete, prime_resume_rotate, codex_resume_fresh_max_copy_mb, Target,
  to_field, to_flag, field_options, flag_options,
}
use aimgr.Cli.Options.{command_is, action_is, is_field_allowed, is_flag_allowed}
use aimgr.Cli.Args.{
  ArgError, Kind, end_mark, pass_through, plain, takes_value, sets, refused, classify_other,
  codex_flags, classify_misplaced_flag, classify_misplaced_field, classify_option, classify_found,
  classify,
}

-- An option is taken where it is allowed, and no word begins with a dash.
abbrev pub IsPlaced : List Text → Text → Kind → Type 0
IsPlaced argv arg end_mark = Unit
IsPlaced argv arg pass_through =
    command_is (codes "claude") argv
      && (action_is (codes "run") argv || action_is (codes "resume") argv)
    ≡ true
IsPlaced argv arg plain = starts_with (codes "-") arg ≡ false
IsPlaced argv arg (takes_value f) = is_field_allowed argv f ≡ true
IsPlaced argv arg (sets f) = is_flag_allowed argv f ≡ true
IsPlaced argv arg (refused e) = Unit

other-IsPlaced : (argv : List Text) (arg : Text) → IsPlaced argv arg (classify_other argv arg)
unfolding classify_other
other-IsPlaced argv arg = elim (Bool-cases (starts_with (codes "-") arg)) [
  | inr e ↦ rw e e
  | inl e ↦
      elim (Bool-cases (
        command_is (codes "claude") argv
        && (action_is (codes "run") argv || action_is (codes "resume") argv))) [
          | inl k ↦ rw (e, k) k
          | inr k ↦ rw (e, k) tt
        ]
]

misplaced-IsPlaced :
    (argv : List Text) (arg : Text) (f : Flag)
    → IsPlaced argv arg (classify_misplaced_flag argv arg f)
unfolding classify_misplaced_flag
misplaced-IsPlaced argv arg f =
    elim (Bool-cases (ite (Flag-discrete f prime_resume_rotate) true false)) [
      | inl e ↦ rw e (other-IsPlaced argv arg)
      | inr e ↦ elim (Bool-cases (any (λ g. ite (Flag-discrete g f) true false) codex_flags)) [
        | inl k ↦ rw (e, k) tt
        | inr k ↦ rw (e, k) tt
      ]
    ]

refused-IsPlaced :
    {P : Type 0} (argv : List Text) (arg : Text) (d : Dec P) (e k : ArgError)
    → IsPlaced argv arg (ite d (refused e) (refused k))
refused-IsPlaced argv arg (yes p) e k = tt
refused-IsPlaced argv arg (no n) e k = tt

option-IsPlaced :
    (argv : List Text) (arg : Text) (t : Target) → IsPlaced argv arg (classify_option argv arg t)
unfolding classify_option classify_misplaced_field
option-IsPlaced argv arg (to_field f) = elim (Bool-cases (is_field_allowed argv f)) [
  | inl e ↦ rw e e
  | inr e ↦ rw e (refused-IsPlaced argv arg (Field-discrete f codex_resume_fresh_max_copy_mb) _ _)
]
option-IsPlaced argv arg (to_flag f) = elim (Bool-cases (is_flag_allowed argv f)) [
  | inl e ↦ rw e e
  | inr e ↦ rw e (misplaced-IsPlaced argv arg f)
]

found-IsPlaced :
    (argv : List Text) (arg : Text) (found : Option Target)
    → IsPlaced argv arg (classify_found argv arg found)
unfolding classify_found
found-IsPlaced argv arg none = other-IsPlaced argv arg
found-IsPlaced argv arg (some t) = option-IsPlaced argv arg t

pub classify-IsPlaced : (argv : List Text) (arg : Text) → IsPlaced argv arg (classify argv arg)
unfolding classify
classify-IsPlaced argv arg = elim (Bool-cases (same arg (codes "--"))) [
  | inl e ↦ rw e tt
  | inr e ↦ rw e (found-IsPlaced argv arg (lookup_text arg (field_options ++ flag_options)))
]
