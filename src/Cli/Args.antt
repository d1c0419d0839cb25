-- ===== src/Cli/Args.antt =====
-- `parseArgs` of src/cli/args.js: the loop over the arguments.
pub mod Placed
pub mod Values
pub mod Scope
pub mod Words
pub mod Heads
use aimgr.Prelude.{
  Bool, true, false, not, ◌&&◌, ◌||◌, Option, none, some, List, [], ◌∷◌, ◌++◌, Text, codes, same,
  any, starts_with, lookup_text, Result, ok, err, if◌then◌else◌,
}
use mathlib.Core.Logic.{ite}
use aimgr.Coordination.Keys.{is_empty}
use aimgr.Cli.Names.{
  Field, provider, codex, claude, grok, port, bind, claude_resume_account_label,
  claude_resume_switch_account_preset, codex_resume_fresh_max_copy_mb, Flag,
  codex_resume_fresh_last, codex_resume_fresh_dry_run, codex_resume_fresh_archive_source,
  codex_resume_fresh_no_goal, codex_resume_fresh_keep_reasoning, codex_resume_fresh_drop_compaction,
  prime_resume_rotate, Target, to_field, to_flag, Field-discrete, Flag-discrete, field_options,
  flag_options,
}
use aimgr.Cli.Options.{
  command_is, action_is, is_field_allowed, is_flag_allowed, Numerals, Parsed, put, raise, initial,
}
use aimgr.Cli.Presets.{Expanded, is_claude_model_preset, expand_claude_run_preset}

pub data ArgError : Type 0 where
  unknown_option : Text → ArgError
  only_codex_resume_fresh : ArgError
  requires : Field → ArgError
  requires_positive : ArgError

-- What the loop does at an argument.
pub data Kind : Type 0 where
  end_mark pass_through plain : Kind
  takes_value : Field → Kind
  sets : Flag → Kind
  refused : ArgError → Kind

-- An argument that no option matches.
unfoldable pub classify_other : List Text → Text → Kind
unfolding starts_with same
classify_other argv arg =
    if starts_with (codes "-") arg
    then if command_is (codes "claude") argv
        && (action_is (codes "run") argv || action_is (codes "resume") argv)
      then pass_through
      else refused (unknown_option arg)
    else plain

abbrev pub codex_flags : List Flag
codex_flags =
    codex_resume_fresh_last ∷ codex_resume_fresh_dry_run ∷ codex_resume_fresh_archive_source
    ∷ codex_resume_fresh_no_goal ∷ codex_resume_fresh_keep_reasoning
    ∷ codex_resume_fresh_drop_compaction ∷ []

-- An option outside the command it belongs to. `--rotate` is then like an option nobody knows.
unfoldable pub classify_misplaced_flag : List Text → Text → Flag → Kind
unfolding classify_other
classify_misplaced_flag argv arg f =
    if ite (Flag-discrete f prime_resume_rotate) true false
    then classify_other argv arg
    else if any (λ g. ite (Flag-discrete g f) true false) codex_flags
    then refused only_codex_resume_fresh
    else refused (unknown_option arg)

unfoldable pub classify_misplaced_field : Text → Field → Kind
classify_misplaced_field arg f =
    ite (Field-discrete f codex_resume_fresh_max_copy_mb) (refused only_codex_resume_fresh)
      (refused (unknown_option arg))

unfoldable pub classify_option : List Text → Text → Target → Kind
unfolding is_field_allowed is_flag_allowed classify_misplaced_flag classify_misplaced_field
classify_option argv arg (to_field f) =
    if is_field_allowed argv f then takes_value f else classify_misplaced_field arg f
classify_option argv arg (to_flag f) =
    if is_flag_allowed argv f then sets f else classify_misplaced_flag argv arg f

unfoldable pub classify_found : List Text → Text → Option Target → Kind
unfolding classify_option classify_other
classify_found argv arg none = classify_other argv arg
classify_found argv arg (some target) = classify_option argv arg target

-- The argument `arg` of the list `argv`.
unfoldable pub classify : List Text → Text → Kind
unfolding same lookup_text classify_found
classify argv arg =
    if same arg (codes "--")
    then end_mark
    else classify_found argv arg (lookup_text arg (field_options ++ flag_options))

-- What the value of an option is held against.
pub data Check : Type 0 where
  anything something preset megabytes : Check

unfoldable pub check_of : Field → Check
check_of provider = something
check_of codex = something
check_of claude = something
check_of grok = something
check_of port = something
check_of bind = something
check_of claude_resume_account_label = something
check_of claude_resume_switch_account_preset = preset
check_of codex_resume_fresh_max_copy_mb = megabytes
check_of _ = anything

-- `!value || value.startsWith("--")`.
unfoldable pub is_missing : Option Text → Bool
unfolding starts_with
is_missing none = true
is_missing (some v) = is_empty v || starts_with (codes "--") v

module _ (nt : Numerals) where
  open nt use {number, is_positive}

  unfoldable pub put_number : Option nt.Number → Parsed nt → Result ArgError (Parsed nt)
  put_number none o = err requires_positive
  put_number (some n) o =
      if is_positive n then ok (record o { max_copy_mb = some n }) else err requires_positive

  unfoldable pub put_megabytes : Option Text → Parsed nt → Result ArgError (Parsed nt)
  unfolding put_number
  put_megabytes none o = err requires_positive
  put_megabytes (some v) o = put_number (number v) o

  unfoldable pub put_value : Check → Field → Option Text → Parsed nt → Result ArgError (Parsed nt)
  unfolding put put_megabytes is_missing is_claude_model_preset
  put_value anything f v o = ok (put nt f v o)
  put_value something f v o = if is_missing v then err (requires f) else ok (put nt f v o)
  put_value preset f v o = if is_claude_model_preset v then ok (put nt f v o) else err (requires f)
  put_value megabytes f v o = if is_missing v then err (requires f) else put_megabytes v o

  -- After an argument the loop stops with a result, or goes on; with a field, the next argument is
  -- the value that the field waits for.
  pub data Next : Type 0 where
    stop : Result ArgError (Parsed nt) → Next
    onward : Option Field → Parsed nt → Next

  unfoldable pub after_value : Result ArgError (Parsed nt) → Next
  after_value (err e) = stop (err e)
  after_value (ok o) = onward none o

  unfoldable pub after_kind : Kind → Text → List Text → Parsed nt → Next
  unfolding raise
  after_kind end_mark arg rest o = stop (ok (record o { after_double_dash = rest }))
  after_kind pass_through arg rest o = stop (ok (record o { after_double_dash = arg ∷ rest }))
  after_kind plain arg rest o = onward none (record o { positional = o.positional ++ (arg ∷ []) })
  after_kind (takes_value f) arg rest o = onward (some f) o
  after_kind (sets f) arg rest o = onward none (raise nt f o)
  after_kind (refused e) arg rest o = stop (err e)

  unfoldable pub step : List Text → Text → List Text → Option Field → Parsed nt → Next
  unfolding after_value after_kind put_value check_of classify
  step argv arg rest none o = after_kind (classify argv arg) arg rest o
  step argv arg rest (some f) o = after_value (put_value (check_of f) f (some arg) o)

  unfoldable pub parse_loop :
      List Text → List Text → Option Field → Parsed nt → Result ArgError (Parsed nt)
  unfolding step put_value check_of
  parse_loop argv [] none o = ok o
  parse_loop argv [] (some f) o = put_value (check_of f) f none o
  parse_loop argv (arg ∷ rest) waiting o = elim (step argv arg rest waiting o) [
    | stop r ↦ r
    | onward f p ↦ parse_loop argv rest f p
  ]

  unfoldable pub parse_args : List Text → Result ArgError (Parsed nt)
  unfolding expand_claude_run_preset parse_loop initial
  parse_args argv =
      let e = expand_claude_run_preset argv in
      parse_loop e.argv e.argv none (initial nt e.auto_select e.auto_select_preset)
