-- ===== src/Cli/Options.antt =====
-- Where the options of src/cli/args.js are allowed, and the object that `parseArgs` returns.
use aimgr.Prelude.{Bool, true, false, ◌&&◌, ◌||◌, Option, none, List, [], ◌∷◌, Text, codes, same}
use mathlib.Core.Logic.{ite}
use aimgr.Cli.Names.{
  Field, codex, claude, grok, port, bind, claude_resume_account_label,
  claude_resume_switch_account_preset, codex_resume_fresh_max_copy_mb, Field-discrete, Flag,
  routine_manual, stdio, verbose, codex_resume_fresh_last, codex_resume_fresh_dry_run,
  codex_resume_fresh_archive_source, codex_resume_fresh_no_goal, codex_resume_fresh_keep_reasoning,
  codex_resume_fresh_drop_compaction, prime_resume_rotate, Flag-discrete,
}

-- `argv[0] === word`, and `argv[1] === word`.
abbrev pub command_is : Text → List Text → Bool
command_is word [] = false
command_is word (a ∷ more) = same a word

abbrev pub action_is : Text → List Text → Bool
action_is word [] = false
action_is word (a ∷ more) = command_is word more

-- `aim codex resume-fresh`.
abbrev pub is_codex_resume_fresh : List Text → Bool
is_codex_resume_fresh argv =
    command_is (codes "codex") argv && action_is (codes "resume-fresh") argv

-- `aim claude resume`.
abbrev pub is_claude_resume : List Text → Bool
is_claude_resume argv = command_is (codes "claude") argv && action_is (codes "resume") argv

-- The command that an option belongs to, where it belongs to one.
unfoldable pub is_field_allowed : List Text → Field → Bool
unfolding same
is_field_allowed argv codex =
    (command_is (codes "pi") argv || command_is (codes "prime") argv)
    && action_is (codes "use") argv
is_field_allowed argv claude =
    (command_is (codes "pi") argv || command_is (codes "prime") argv)
    && action_is (codes "use") argv
is_field_allowed argv grok =
    (command_is (codes "pi") argv || command_is (codes "prime") argv)
    && action_is (codes "use") argv
    && command_is (codes "prime") argv
is_field_allowed argv port = command_is (codes "mcp") argv
is_field_allowed argv bind = command_is (codes "mcp") argv
is_field_allowed argv claude_resume_account_label = is_claude_resume argv
is_field_allowed argv claude_resume_switch_account_preset = is_claude_resume argv
is_field_allowed argv codex_resume_fresh_max_copy_mb = is_codex_resume_fresh argv
is_field_allowed argv _ = true

unfoldable pub is_flag_allowed : List Text → Flag → Bool
unfolding same
is_flag_allowed argv routine_manual =
    command_is (codes "routine") argv && action_is (codes "run") argv
is_flag_allowed argv stdio = command_is (codes "mcp") argv
is_flag_allowed argv verbose =
    command_is (codes "claude") argv
    && (action_is (codes "status") argv || action_is (codes "usage") argv)
is_flag_allowed argv codex_resume_fresh_last = is_codex_resume_fresh argv
is_flag_allowed argv codex_resume_fresh_dry_run = is_codex_resume_fresh argv
is_flag_allowed argv codex_resume_fresh_archive_source = is_codex_resume_fresh argv
is_flag_allowed argv codex_resume_fresh_no_goal = is_codex_resume_fresh argv
is_flag_allowed argv codex_resume_fresh_keep_reasoning = is_codex_resume_fresh argv
is_flag_allowed argv codex_resume_fresh_drop_compaction = is_codex_resume_fresh argv
is_flag_allowed argv prime_resume_rotate =
    command_is (codes "prime") argv && action_is (codes "resume") argv
is_flag_allowed argv _ = true

-- `Number(text)` where it is finite, and its comparison with zero.
pub record Numerals : Type 1 where
  pub Number : Type 0
  pub number : Text → Option Number
  pub is_positive : Number → Bool

module _ (nt : Numerals) where
  open nt use {Number}

  -- `opts` with `positional`. A property that is undefined or missing is `none`, or `false`.
  pub record Parsed : Type 0 where
    pub value : Field → Option Text
    pub flag : Flag → Bool
    pub max_copy_mb : Option Number
    pub claude_auto_select : Bool
    pub claude_auto_select_preset : Option Text
    pub after_double_dash : List Text
    pub positional : List Text

  unfoldable pub put : Field → Option Text → Parsed → Parsed
  put f v o = record o { value = λ g. ite (Field-discrete g f) v (o.value g) }

  unfoldable pub raise : Flag → Parsed → Parsed
  raise f o = record o { flag = λ g. ite (Flag-discrete g f) true (o.flag g) }

  -- The object that the loop starts from.
  unfoldable pub initial : Bool → Option Text → Parsed
  initial auto preset = record {
    value = λ f. none;
    flag = λ f. false;
    max_copy_mb = none;
    claude_auto_select = auto;
    claude_auto_select_preset = preset;
    after_double_dash = [];
    positional = [];
  }
