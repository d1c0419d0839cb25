-- ===== src/Targets/IdleStop.antt =====
-- src/targets/claude-idle-stop.js: which account to free for a scheduled job, and how its sessions
-- are stopped.
pub mod Groups
pub mod Choice
pub mod Stop
use aimgr.Prelude.{
  ℕ, zero, suc, ◌*◌, Bool, true, false, not, ◌&&◌, Option, none, some, List, [], ◌∷◌, ◌++◌, map,
  filter, all, any, head?, Text, codes, same, includes, max, ltb, Preorder, on, ◌then_by◌, ℕ_order,
  sort_by, is_some, if◌then◌else◌,
}

-- A live process of the tool, from its own record and the process table.
pub record Session : Type 0 where
  pub label : Text
  pub pid : ℕ
  pub session_id : Option Text
  pub cwd : Option Text
  pub status : Text
  pub last_active_ms : ℕ
  pub tty : Option Text

unfoldable pub is_busy : Session → Bool
unfolding same
is_busy s = same s.status (codes "busy")

-- `byLabel.set(label, [...byLabel.get(label) ?? [], session])`, on the entries of the map.
unfoldable pub add_session : Session → List (Text × List Session) → List (Text × List Session)
unfolding same
add_session s [] = (s.label, s ∷ []) ∷ []
add_session s ((label, group) ∷ rest) =
    if same label s.label
    then (label, group ++ (s ∷ [])) ∷ rest
    else (label, group) ∷ add_session s rest

unfoldable pub group_sessions :
    List Text → List (Text × List Session) → List Session → List (Text × List Session)
unfolding add_session includes
group_sessions eligible groups [] = groups
group_sessions eligible groups (s ∷ ss) =
    group_sessions eligible (if includes s.label eligible then add_session s groups else groups) ss

-- `Math.max` of a list that is not empty.
abbrev pub latest_active : List Session → ℕ
latest_active [] = 0
latest_active (s ∷ ss) = max s.last_active_ms (latest_active ss)

pub record Target : Type 0 where
  pub label : Text
  pub sessions : List Session
  pub last_active_ms : ℕ

abbrev pub target_of : Text × List Session → Target
target_of (label, group) = record {
  label = label;
  sessions = group;
  last_active_ms = latest_active group;
}

-- The least recently active first, then by name.
abbrev pub target_order : Preorder Text → Preorder Target
target_order locale = on ℕ_order (λ t. t.last_active_ms) then_by on locale (λ t. t.label)

unfoldable pub choose_claude_account_to_free :
    Preorder Text → List Session → List Text → Option Target
unfolding group_sessions is_busy sort_by
choose_claude_account_to_free locale sessions eligible = head? (
    sort_by (target_order locale) (
      map target_of
        (filter (λ g. all (λ s. not (is_busy s)) g.1) (group_sessions eligible [] sessions))))

-- What stopping finds: whether a signal is refused, and who is alive after so many waits.
pub record Processes : Type 0 where
  pub refuses_signal : ℕ → Bool
  pub is_alive : ℕ → ℕ → Bool

pub record Stopped : Type 0 where
  pub stopped : List Session
  pub notified : List Session
  pub waits : ℕ

-- The loop that sleeps 500 milliseconds a turn; none where the fuel ends before it does.
unfoldable pub wait_for_exit : Processes → ℕ → List Session → ℕ → ℕ → Option ℕ
wait_for_exit p exit_wait_ms stopped zero turn = none
wait_for_exit p exit_wait_ms stopped (suc fuel) turn =
    if ltb (500 * turn) exit_wait_ms && any (λ s. p.is_alive turn s.pid) stopped
    then wait_for_exit p exit_wait_ms stopped fuel (suc turn)
    else some turn

unfoldable pub signalled : Processes → List Session → List Session
signalled p sessions = filter (λ s. not (p.refuses_signal s.pid)) sessions

-- `!session.tty`, which an empty name meets too.
abbrev pub has_tty : Session → Bool
has_tty s = elim s.tty [ none ↦ false | some t ↦ not (same t []) ]

unfoldable pub stop_claude_account_sessions : Processes → ℕ → ℕ → Target → Option Stopped
unfolding wait_for_exit signalled same
stop_claude_account_sessions p fuel exit_wait_ms target =
    let stopped = signalled p target.sessions in
    elim (wait_for_exit p exit_wait_ms stopped fuel 0) [
      | none ↦ none
      | some turn ↦ some (record {
        stopped = stopped;
        notified = filter (λ s. has_tty s && not (p.is_alive turn s.pid)) stopped;
        waits = turn;
      })
    ]
