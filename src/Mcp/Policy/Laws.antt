-- ===== src/Mcp/Policy/Laws.antt =====
-- The policy of the tool server against the words that the program reads: `validateAimArgv`
-- (src/mcp/policy.js) and `parseArgs` (src/cli/args.js).
use aimgr.Prelude.{
  ◌≡◌, Bool, true, false, ◌&&◌, List, [], ◌∷◌, any, Text, codes, same, includes, trim, LowerCase,
}
use aimgr.Mcp.Policy.{allowed_commands, Verdict, rejected, interactive_lane}

-- The commands whose handlers start a client at the terminal: `subcmd` in src/cli/commands/claude.js
-- and codex.js, and in harness-target.js for `prime`.
abbrev pub clients : List (Text × Text)
clients =
    (codes "claude", codes "run")
    ∷ (codes "claude", codes "resume")
    ∷ (codes "prime", codes "run")
    ∷ (codes "prime", codes "resume")
    ∷ (codes "codex", codes "run")
    ∷ (codes "codex", codes "resume")
    ∷ (codes "codex", codes "resume-fresh")
    ∷ []

-- A handler is found by the first word; it trims the second one and reads it in lower case.
abbrev pub starts_client : LowerCase → List Text → Bool
starts_client low [] = false
starts_client low (c ∷ []) = false
starts_client low (c ∷ a ∷ ws) = any (λ e. same c e.0 && same (low.lower (trim a)) e.1) clients

abbrev pub is_client_refusal : Verdict → Bool
is_client_refusal (rejected (interactive_lane c a)) = true
is_client_refusal _ = false

-- The checks that come before that of the clients let a command through.
abbrev IsKnown : Text → Type 0
IsKnown c =
    (same c (codes "login") ≡ false)
    × (same c (codes "credential-helper") ≡ false)
    × (includes c allowed_commands ≡ true)
