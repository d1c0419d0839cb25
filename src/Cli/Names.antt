-- ===== src/Cli/Names.antt =====
-- The options that `parseArgs` of src/cli/args.js knows, by their spelling.
use aimgr.Prelude.{List, [], ◌∷◌, Text, codes}

-- The properties of `opts` that take the argument after the option.
pub data Field : Type 0 where
  home url key_prefix primary_host transport provider codex claude grok mode seed_from_openclaw
        user_data_dir profile_directory profile session auth_file in_file out_file source_home
        source_config_dir key tier subscription notes port bind pool claude_resume_account_label
        claude_resume_switch_account_preset codex_resume_fresh_max_copy_mb interval_seconds
        rotate_below_weekly_remaining_pct :
      Field

-- The Boolean properties of `opts`.
pub data Flag : Type 0 where
  manual_callback_stdio routine_manual stdio json compact accounts assignments once fresh verbose
        codex_resume_fresh_last codex_resume_fresh_dry_run codex_resume_fresh_archive_source
        codex_resume_fresh_no_goal codex_resume_fresh_keep_reasoning
        codex_resume_fresh_drop_compaction confirm prime_resume_rotate help :
      Flag

unfoldable pub Field-discrete : Discrete Field
Field-discrete = Field.discrete_by_fields

unfoldable pub Flag-discrete : Discrete Flag
Flag-discrete = Flag.discrete_by_fields

-- What an option sets.
pub data Target : Type 0 where
  to_field : Field → Target
  to_flag : Flag → Target

-- The spelling of each option.
abbrev pub field_options : List (Text × Target)
field_options =
    (codes "--home", to_field home)
    ∷ (codes "--url", to_field url)
    ∷ (codes "--key-prefix", to_field key_prefix)
    ∷ (codes "--primary-host", to_field primary_host)
    ∷ (codes "--transport", to_field transport)
    ∷ (codes "--provider", to_field provider)
    ∷ (codes "--codex", to_field codex)
    ∷ (codes "--claude", to_field claude)
    ∷ (codes "--grok", to_field grok)
    ∷ (codes "--mode", to_field mode)
    ∷ (codes "--seed-from-openclaw", to_field seed_from_openclaw)
    ∷ (codes "--user-data-dir", to_field user_data_dir)
    ∷ (codes "--profile-directory", to_field profile_directory)
    ∷ (codes "--profile", to_field profile)
    ∷ (codes "--session", to_field session)
    ∷ (codes "--auth-file", to_field auth_file)
    ∷ (codes "--in", to_field in_file)
    ∷ (codes "--out", to_field out_file)
    ∷ (codes "--source-home", to_field source_home)
    ∷ (codes "--source-config-dir", to_field source_config_dir)
    ∷ (codes "--key", to_field key)
    ∷ (codes "--tier", to_field tier)
    ∷ (codes "--subscription", to_field subscription)
    ∷ (codes "--notes", to_field notes)
    ∷ (codes "--manual-callback-stdio", to_flag manual_callback_stdio)
    ∷ (codes "--manual", to_flag routine_manual)
    ∷ (codes "--port", to_field port)
    ∷ (codes "--bind", to_field bind)
    ∷ (codes "--stdio", to_flag stdio)
    ∷ []

abbrev pub flag_options : List (Text × Target)
flag_options =
    (codes "--json", to_flag json)
    ∷ (codes "--compact", to_flag compact)
    ∷ (codes "--accounts", to_flag accounts)
    ∷ (codes "--assignments", to_flag assignments)
    ∷ (codes "--pool", to_field pool)
    ∷ (codes "--once", to_flag once)
    ∷ (codes "--fresh", to_flag fresh)
    ∷ (codes "--verbose", to_flag verbose)
    ∷ (codes "--account", to_field claude_resume_account_label)
    ∷ (codes "--switch-account", to_field claude_resume_switch_account_preset)
    ∷ (codes "--last", to_flag codex_resume_fresh_last)
    ∷ (codes "--dry-run", to_flag codex_resume_fresh_dry_run)
    ∷ (codes "--archive-source", to_flag codex_resume_fresh_archive_source)
    ∷ (codes "--no-goal", to_flag codex_resume_fresh_no_goal)
    ∷ (codes "--keep-reasoning", to_flag codex_resume_fresh_keep_reasoning)
    ∷ (codes "--drop-compaction", to_flag codex_resume_fresh_drop_compaction)
    ∷ (codes "--max-copy-mb", to_field codex_resume_fresh_max_copy_mb)
    ∷ (codes "--confirm", to_flag confirm)
    ∷ (codes "--interval-seconds", to_field interval_seconds)
    ∷ (codes "--rotate-below-weekly-remaining-pct", to_field rotate_below_weekly_remaining_pct)
    ∷ (codes "--rotate-below-5h-remaining-pct", to_field rotate_below_weekly_remaining_pct)
    ∷ (codes "--rotate", to_flag prime_resume_rotate)
    ∷ (codes "--help", to_flag help)
    ∷ (codes "-h", to_flag help)
    ∷ []
