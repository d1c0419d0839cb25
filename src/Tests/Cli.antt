-- ===== src/Tests/Cli.antt =====
-- Command lines, parsed, and the policy of the tool server.
use aimgr.Prelude.{
  map, ascii_lower, trim, is_space, lower_unit, includes, true, ℕ, ◌≡◌, refl, false, none, some,
  List, [], ◌∷◌, Text, codes, ok, err, length, leb, same, starts_with, lookup_text,
}
use aimgr.Cli.Names.{json, verbose, Flag-discrete}
use aimgr.Cli.Options.{Numerals, Parsed, initial, raise, is_field_allowed, is_flag_allowed}
use aimgr.Cli.Presets.{expand_claude_run_preset}
use aimgr.Cli.Args.{
  unknown_option, classify_other, classify_misplaced_flag, classify_option, classify_found,
  classify, after_value, after_kind, step, parse_loop, parse_args,
}
use aimgr.Mcp.Policy.{
  accepted, entries, texts_of, starts, validate_command, validate_texts, validate_aim_argv,
}
use aimgr.Mcp.Policy.Laws.{starts_client}
use aimgr.Cli.Args.Scope.{parse_args-IsScoped}
use aimgr.Cli.Args.Values.{IsScoped}
use aimgr.Cli.Args.Words.{parse_args-words}

-- Numerals of one digit a unit.
abbrev numerals : Numerals
numerals = record { Number = ℕ; number = λ t. some (length t); is_positive = λ n. leb 1 n }

abbrev status_line : List Text
status_line = codes "claude" ∷ codes "status" ∷ codes "--verbose" ∷ []

abbrev status_parsed : Parsed numerals
status_parsed = record (raise numerals verbose (initial numerals false none)) {
  positional = codes "claude" ∷ codes "status" ∷ [];
}

status_run : parse_args numerals status_line ≡ ok status_parsed
unfolding parse_args parse_loop step after_kind after_value classify classify_found classify_option
    classify_other is_flag_allowed is_field_allowed same starts_with lookup_text raise initial
    expand_claude_run_preset
status_run = refl

-- The flag is refused outside its commands.
refused_run :
    parse_args numerals (codes "pi" ∷ codes "--verbose" ∷ [])
    ≡ err (unknown_option (codes "--verbose"))
unfolding parse_args parse_loop step after_kind after_value classify classify_found classify_option
    classify_misplaced_flag Flag-discrete classify_other is_flag_allowed is_field_allowed same
    starts_with lookup_text raise initial expand_claude_run_preset
refused_run = refl

parse_args-IsScoped_example : IsScoped numerals status_line status_parsed
parse_args-IsScoped_example = parse_args-IsScoped numerals status_line status_parsed status_run

parse_args-words_example :
    parse_args numerals (codes "pi" ∷ codes "use" ∷ codes "--" ∷ codes "--json" ∷ codes "--" ∷ [])
    ≡ ok (record (initial numerals false none) {
      positional = codes "pi" ∷ codes "use" ∷ [];
      after_double_dash = codes "--json" ∷ codes "--" ∷ [];
    })
unfolding starts_with same
parse_args-words_example =
    parse_args-words numerals (codes "pi" ∷ codes "use" ∷ []) (codes "--json" ∷ codes "--" ∷ [])
      (refl, (refl, tt)) refl

abbrev run_line : List Text
run_line = codes "codex" ∷ codes "run" ∷ codes "boss" ∷ []

abbrev run_parsed : Parsed numerals
run_parsed = record (initial numerals false none) { positional = run_line }

-- An option between the two words hides a client from the policy.
abbrev hidden_line : List Text
hidden_line = codes "claude" ∷ codes "--json" ∷ codes "run" ∷ codes "boss" ∷ []

abbrev hidden_parsed : Parsed numerals
hidden_parsed = record (raise numerals json (initial numerals false none)) {
  positional = codes "claude" ∷ codes "run" ∷ codes "boss" ∷ [];
}

hidden_run : parse_args numerals hidden_line ≡ ok hidden_parsed
unfolding parse_args parse_loop step after_kind after_value classify classify_found classify_option
    classify_other is_flag_allowed is_field_allowed same starts_with lookup_text raise initial
    expand_claude_run_preset
hidden_run = refl

hidden_accepted :
    (validate_aim_argv (entries (map some hidden_line)) ≡ accepted)
    × (starts_client ascii_lower hidden_parsed.positional ≡ true)
unfolding validate_aim_argv validate_command validate_texts texts_of starts includes same trim
    is_space lower_unit
hidden_accepted = (refl, refl)

-- So does a capital letter.
capital_accepted :
    (validate_aim_argv (entries (some (codes "claude") ∷ some (codes "Run") ∷ [])) ≡ accepted)
    × (starts_client ascii_lower (codes "claude" ∷ codes "Run" ∷ []) ≡ true)
unfolding validate_aim_argv validate_command validate_texts texts_of starts includes same trim
    is_space lower_unit
capital_accepted = (refl, refl)

-- A mark that is no option of the command passes for `--once`.
watch_accepted :
    validate_aim_argv
      (entries (map some (codes "codex" ∷ codes "watch" ∷ codes "--" ∷ codes "--once" ∷ [])))
    ≡ accepted
unfolding validate_aim_argv validate_command validate_texts texts_of starts includes same
watch_accepted = refl
