-- ===== src/Cli/Presets.antt =====
-- The presets of `aim claude run` in src/cli/args.js, and the argument list they stand for.
use aimgr.Prelude.{
  Bool, true, false, not, ◌&&◌, Option, none, some, List, [], ◌∷◌, ◌++◌, Text, codes, same,
  includes, if◌then◌else◌,
}
use aimgr.Coordination.Keys.{is_empty}

-- The preset argument lists, which differ in the model.
abbrev pub claude_run_args : Text → List Text
claude_run_args model =
    codes "--dangerously-skip-permissions"
    ∷ codes "--model"
    ∷ model
    ∷ codes "--effort"
    ∷ codes "xhigh"
    ∷ []

unfoldable pub claude_run_preset_args : Text → Option (List Text)
unfolding same
claude_run_preset_args preset =
    if same preset (codes "opus")
    then some (claude_run_args (codes "opus"))
    else if same preset (codes "fable")
    then some (claude_run_args (codes "claude-fable-5-1"))
    else if same preset (codes "sonnet")
    then some (claude_run_args (codes "claude-sonnet-5-5"))
    else none

unfoldable pub is_claude_model_preset : Option Text → Bool
unfolding includes
is_claude_model_preset none = false
is_claude_model_preset (some t) = includes t (codes "fable" ∷ codes "opus" ∷ codes "sonnet" ∷ [])

pub record Expanded : Type 0 where
  pub argv : List Text
  pub auto_select : Bool
  pub auto_select_preset : Option Text

abbrev pub unexpanded : List Text → Expanded
unexpanded argv = record { argv = argv; auto_select = false; auto_select_preset = none }

-- `tail[0] === "--" ? tail.slice(1) : tail`.
unfoldable pub drop_mark : List Text → List Text
unfolding same
drop_mark [] = []
drop_mark (t ∷ ts) = if same t (codes "--") then ts else t ∷ ts

-- The preset named by the fourth argument.
unfoldable pub explicit_preset : List Text → Option (List Text)
unfolding claude_run_preset_args
explicit_preset [] = none
explicit_preset (p ∷ ps) = claude_run_preset_args p

abbrev pub rest_of : List Text → List Text
rest_of [] = []
rest_of (t ∷ ts) = ts

-- The third argument is `target`, and `rest` follows it; then come the preset that the fourth
-- argument names and the one that the third argument names.
unfoldable pub expand_run :
    Text → Text → Text → List Text → Option (List Text) → Option (List Text) → Expanded
unfolding drop_mark
expand_run command action target rest (some args) named = record {
  argv = command ∷ action ∷ target ∷ codes "--" ∷ (args ++ drop_mark (rest_of rest));
  auto_select = false;
  auto_select_preset = none;
}
expand_run command action target rest none (some args) = record {
  argv = command ∷ action ∷ codes "--" ∷ (args ++ drop_mark rest);
  auto_select = true;
  auto_select_preset = some target;
}
expand_run command action target rest none none = unexpanded (command ∷ action ∷ target ∷ rest)

unfoldable pub expand_claude_run_preset : List Text → Expanded
unfolding same expand_run explicit_preset claude_run_preset_args
expand_claude_run_preset (command ∷ action ∷ target ∷ rest) =
    if same command (codes "claude") && same action (codes "run") && not (is_empty target)
    then expand_run command action target rest (explicit_preset rest)
        (claude_run_preset_args target)
    else unexpanded (command ∷ action ∷ target ∷ rest)
expand_claude_run_preset argv = unexpanded argv
