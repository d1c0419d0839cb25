-- ===== src/Mcp/Policy.antt =====
-- Which commands the tool server starts: `validateAimArgv` (src/mcp/policy.js).
pub mod Laws
use aimgr.Prelude.{
  Bool, true, false, not, ◌&&◌, ◌||◌, Option, none, some, List, [], ◌∷◌, Text, codes, same,
  includes, if◌then◌else◌,
}

-- AIM_MCP_ALLOWED_COMMANDS.
abbrev pub allowed_commands : List Text
allowed_commands =
    codes "status"
    ∷ codes "redis"
    ∷ codes "label"
    ∷ codes "grok"
    ∷ codes "rebalance"
    ∷ codes "auth"
    ∷ codes "codex"
    ∷ codes "hermes"
    ∷ codes "claude"
    ∷ codes "pi"
    ∷ codes "prime"
    ∷ codes "routine"
    ∷ codes "sakana"
    ∷ codes "browser"
    ∷ codes "help"
    ∷ []

-- The tool's argument; an entry that is no text is `none`.
pub data Argv : Type 0 where
  not_array : Argv
  entries : List (Option Text) → Argv

-- The reasons of a rejection.
pub data Rejection : Type 0 where
  not_an_array empty_argv not_texts login_lane helper_lane : Rejection
  unknown_command : Text → Rejection
  interactive_lane : Text → Text → Rejection
  endless_watch : Text → Rejection

pub data Verdict : Type 0 where
  accepted : Verdict
  rejected : Rejection → Verdict

-- The entries, where all of them are texts.
unfoldable pub texts_of : List (Option Text) → Option (List Text)
texts_of [] = some []
texts_of (none ∷ rest) = none
texts_of (some t ∷ rest) = elim (texts_of rest) [ none ↦ none | some ts ↦ some (t ∷ ts) ]

-- `rest[0] === word`.
unfoldable pub starts : List Text → Text → Bool
starts [] word = false
starts (x ∷ xs) word = same x word

abbrev pub first_of : List Text → Text
first_of [] = []
first_of (x ∷ xs) = x

unfoldable pub validate_command : Text → List Text → Verdict
unfolding starts
validate_command command rest =
    if same command (codes "login")
    then rejected login_lane
    else if same command (codes "credential-helper")
    then rejected helper_lane
    else if not (includes command allowed_commands)
    then rejected (unknown_command command)
    else if (same command (codes "claude") || same command (codes "prime"))
        && (starts rest (codes "run") || starts rest (codes "resume"))
    then rejected (interactive_lane command (first_of rest))
    else if same command (codes "codex")
        && (starts rest (codes "run")
            || starts rest (codes "resume")
            || starts rest (codes "resume-fresh"))
    then rejected (interactive_lane command (first_of rest))
    else if (same command (codes "codex") || same command (codes "hermes"))
        && starts rest (codes "watch")
        && not (includes (codes "--once") rest)
    then rejected (endless_watch command)
    else accepted

unfoldable pub validate_texts : Option (List Text) → Verdict
unfolding validate_command
validate_texts none = rejected not_texts
validate_texts (some []) = rejected empty_argv
validate_texts (some (command ∷ rest)) = validate_command command rest

unfoldable pub validate_aim_argv : Argv → Verdict
unfolding validate_texts texts_of
validate_aim_argv not_array = rejected not_an_array
validate_aim_argv (entries []) = rejected empty_argv
validate_aim_argv (entries (x ∷ xs)) = validate_texts (texts_of (x ∷ xs))
