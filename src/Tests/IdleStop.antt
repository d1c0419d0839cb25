-- ===== src/Tests/IdleStop.antt =====
-- Freeing one of two accounts.
use aimgr.Prelude.{
  ◌≡◌, refl, none, some, List, [], ◌∷◌, Text, codes, includes, same, ◌==◌, ltb, arith, sort_by,
  insert_by,
}
use aimgr.Targets.IdleStop.{
  Session, is_busy, add_session, group_sessions, target_of, choose_claude_account_to_free,
  Processes, Stopped, stop_claude_account_sessions,
}
use aimgr.Targets.IdleStop.Choice.{IsFreed, choose_account-IsFreed}
use aimgr.Targets.IdleStop.Stop.{IsStopped, stop_sessions-IsStopped}
use aimgr.Tests.Pool.{locale}

abbrev idle_session : Session
idle_session = record {
  label = codes "a";
  pid = 11;
  session_id = none;
  cwd = none;
  status = codes "idle";
  last_active_ms = 70;
  tty = some (codes "ttys001");
}

abbrev busy_session : Session
busy_session = record idle_session {
  label = codes "b";
  pid = 12;
  status = codes "busy";
  last_active_ms = 20;
}

abbrev sessions : List Session
sessions = idle_session ∷ busy_session ∷ record idle_session { pid = 13; last_active_ms = 50 } ∷ []

abbrev eligible : List Text
eligible = codes "a" ∷ codes "b" ∷ []

choose_account-IsFreed_example :
    IsFreed locale sessions eligible (choose_claude_account_to_free locale sessions eligible)
choose_account-IsFreed_example = choose_account-IsFreed locale sessions eligible

-- The account with the older activity is busy, so the other one is freed, with both its sessions.
freed_run :
    choose_claude_account_to_free locale sessions eligible
    ≡ some (
        target_of
          (codes "a", idle_session ∷ record idle_session { pid = 13; last_active_ms = 50 } ∷ []))
unfolding choose_claude_account_to_free group_sessions add_session is_busy includes same sort_by
    insert_by
freed_run = refl

-- The first session ends during the second wait; the other refuses the signal.
abbrev processes : Processes
processes = record { refuses_signal = λ pid. pid == 13; is_alive = λ turn pid. ltb turn 2 }

stop_sessions-IsStopped_example :
    (r : Stopped) × (stop_claude_account_sessions processes 61 30000
        (target_of (codes "a", sessions))
      ≡ some r)
    × IsStopped processes 30000 (target_of (codes "a", sessions)) r
stop_sessions-IsStopped_example =
    stop_sessions-IsStopped processes 30000 61 (target_of (codes "a", sessions)) (omega arith)
