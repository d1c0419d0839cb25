-- ===== src/Targets/IdleStop/Stop.antt =====
-- Stopping the sessions of an account: the wait ends, and who is notified has ended.
use aimgr.Prelude.{
  ℕ, zero, suc, ◌+◌, ◌*◌, ◌<◌, ◌≤◌, ◌≡◌, refl, ◌⊎◌, inl, inr, Bool, true, false, not, ◌&&◌, some,
  List, any, All, All-imp, filter, filter_passes, ltb, ltb→lt, Bool-cases, arith,
}
use aimgr.Targets.IdleStop.{
  Session, Target, Processes, Stopped, wait_for_exit, signalled, has_tty,
  stop_claude_account_sessions,
}

module _ (p : Processes) (exit_wait_ms : ℕ) where
  -- Some session still lives after so many waits.
  abbrev lives : List Session → ℕ → Bool
  lives stopped turn = any (λ s. p.is_alive turn s.pid) stopped

  -- The wait is over, no later than the limit.
  pub record IsOver (stopped : List Session) (turn : ℕ) : Type 0 where
    pub within : 500 * turn < exit_wait_ms + 500
    pub is_over : (exit_wait_ms ≤ 500 * turn) ⊎ (lives stopped turn ≡ false)

  over_of :
      (stopped : List Session) (turn : ℕ) (b : Bool)
      → ltb (500 * turn) exit_wait_ms && b ≡ false
      → (exit_wait_ms ≤ 500 * turn) ⊎ (b ≡ false)
  over_of stopped turn false e = inr refl
  over_of stopped turn true e = inl (ground arith)

  wait_ends :
      (stopped : List Session) (fuel turn : ℕ)
      → 500 * turn < exit_wait_ms + 500
      → exit_wait_ms + 500 ≤ 500 * (fuel + turn)
      → (end : ℕ) × (wait_for_exit p exit_wait_ms stopped fuel turn ≡ some end) × IsOver stopped end
  unfolding wait_for_exit
  wait_ends stopped zero turn h k = absurd (omega (arith, h, k))
  wait_ends stopped (suc fuel) turn h k =
      elim (Bool-cases (ltb (500 * turn) exit_wait_ms && lives stopped turn)) [
        | inl e ↦
            let t : ltb (500 * turn) exit_wait_ms ≡ true = ground (arith, e) in
            let early = ltb→lt (500 * turn) exit_wait_ms t in
            rw e (wait_ends stopped fuel (suc turn) (omega (arith, early)) (omega (arith, k)))
        | inr e ↦ rw e (
          turn,
          refl,
          record { within = h; is_over = over_of stopped turn (lives stopped turn) e },
        )
      ]

  -- Exactly the sessions whose signal is accepted are stopped; of these, exactly those with a
  -- terminal that have ended are notified.
  pub record IsStopped (target : Target) (r : Stopped) : Type 0 where
    pub stops : r.stopped ≡ filter (λ s. not (p.refuses_signal s.pid)) target.sessions
    pub waited : IsOver r.stopped r.waits
    pub ended : All (λ s. (p.is_alive r.waits s.pid ≡ false) × (has_tty s ≡ true)) r.notified
    pub notifies : r.notified ≡ filter (λ s. has_tty s && not (p.is_alive r.waits s.pid)) r.stopped

  -- With a turn of fuel for each half second of the limit and one more, stopping returns. Exactly the
  -- sessions whose signal is accepted are stopped. The waiting ends less than half a second after the
  -- limit, and before the limit only when none of them lives. Exactly those of them are notified that
  -- have a terminal and have ended.
  pub stop_sessions-IsStopped :
      (fuel : ℕ) (target : Target)
      → exit_wait_ms + 500 ≤ 500 * fuel
      → (r : Stopped) × (stop_claude_account_sessions p fuel exit_wait_ms target ≡ some r)
        × IsStopped target r
  unfolding stop_claude_account_sessions signalled
  stop_sessions-IsStopped fuel target k =
      let stopped = signalled p target.sessions in
      let (turn, e, over) = wait_ends stopped fuel 0 (omega arith) (omega (arith, k)) in
      rw (stop_claude_account_sessions, e)
        (
          _,
          refl,
          record {
            stops = refl;
            waited = over;
            ended =
                All-imp _ _ _ (λ s h. (ground (arith, h), ground (arith, h)))
                  (filter_passes (λ s. has_tty s && not (p.is_alive turn s.pid)) stopped);
            notifies = refl;
          },
        )
