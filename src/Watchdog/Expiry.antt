-- ===== src/Watchdog/Expiry.antt =====
-- When the watchdog of src/server/utils/watchdog.c ends the server.
use odroid_player.Prelude.{
  ℕ, zero, suc, ◌+◌, ◌*◌, ◌-◌, ◌∙◌, ap, ◌<◌, ◌≡◌, refl, List, [], ◌∷◌, ◌++◌, length, All, arith,
}
use odroid_player.Sys.{sigusr1, sigusr2, sigcont, sigstop, sigterm}
use odroid_player.Watchdog.{
  Waited, signalled, timed_out, wait_failed, waiting, watching, expired, finished, watchdog_timeout,
  next_wait, watchdog_step, run_watchdog,
}

-- A wait that uses one up: it times out, or takes a signal other than SIGUSR2.
abbrev pub Idle : Waited → Type 0
Idle (signalled sigusr2) = ⊥
Idle (signalled _) = Unit {0}
Idle timed_out = Unit {0}
Idle wait_failed = ⊥

step_uses_a_wait : (n : ℕ) (w : Waited) → Idle w → watchdog_step (watching (suc n)) w ≡ next_wait n
unfolding watchdog_step
step_uses_a_wait n (signalled sigcont) h = refl
step_uses_a_wait n (signalled sigstop) h = refl
step_uses_a_wait n (signalled sigterm) h = refl
step_uses_a_wait n (signalled sigusr1) h = refl
step_uses_a_wait n (signalled sigusr2) h = elim h [ ]
step_uses_a_wait n timed_out h = refl
step_uses_a_wait n wait_failed h = elim h [ ]

-- Idle waits use up those that are left.
waits_used_up :
    (n left : ℕ) (ws rest : List Waited)
    → n ≡ length ws + left
    → All Idle ws
    → run_watchdog (next_wait n) (ws ++ rest) ≡ run_watchdog (next_wait left) rest
unfolding run_watchdog
waits_used_up n left [] rest e h = ap (λ i. run_watchdog (next_wait i) rest) (omega (arith, e))
waits_used_up zero left (w ∷ ws) rest e h = absurd (omega arith)
waits_used_up (suc n) left (w ∷ ws) rest e h =
    ap (λ s. run_watchdog s (ws ++ rest)) (step_uses_a_wait n w h.0)
    ∙ waits_used_up n left ws rest (omega arith) h.1

expired_stays : (ws : List Waited) → run_watchdog expired ws ≡ expired
unfolding run_watchdog watchdog_step
expired_stays [] = refl
expired_stays (w ∷ ws) = expired_stays ws

stops_in_time :
    (n left : ℕ) (ws rest : List Waited)
    → n ≡ length ws + suc left
    → All Idle ws
    → run_watchdog (next_wait n) (ws ++ signalled sigusr2 ∷ rest) ≡ run_watchdog waiting rest
unfolding run_watchdog watchdog_step
stops_in_time n left ws rest e h = waits_used_up n (suc left) ws (signalled sigusr2 ∷ rest) e h

fails_in_time :
    (n left : ℕ) (ws rest : List Waited)
    → n ≡ length ws + suc left
    → All Idle ws
    → run_watchdog (next_wait n) (ws ++ wait_failed ∷ rest) ≡ run_watchdog finished rest
unfolding run_watchdog watchdog_step
fails_in_time n left ws rest e h = waits_used_up n (suc left) ws (wait_failed ∷ rest) e h

finished_stays : (ws : List Waited) → run_watchdog finished ws ≡ finished
unfolding run_watchdog watchdog_step
finished_stays [] = refl
finished_stays (w ∷ ws) = finished_stays ws

-- After SIGUSR1, `watchdog_timeout * 10` waits that time out or take a signal other than SIGUSR2 end
-- the server, whatever comes after. After fewer of these, SIGUSR2 makes the thread wait for the next
-- SIGUSR1, and a wait that fails otherwise ends the thread, which never ends the server then.
pub run_watchdog-expired :
    (ws few rest : List Waited)
    → All Idle ws
    → All Idle few
    → length ws ≡ watchdog_timeout * 10
    → length few < watchdog_timeout * 10
    → (run_watchdog waiting (signalled sigusr1 ∷ ws ++ rest) ≡ expired)
      × (run_watchdog waiting (signalled sigusr1 ∷ few ++ signalled sigusr2 ∷ rest)
          ≡ run_watchdog waiting rest)
      × (run_watchdog waiting (signalled sigusr1 ∷ few ++ wait_failed ∷ rest) ≡ finished)
unfolding run_watchdog watchdog_step
run_watchdog-expired ws few rest h k e less = (
  waits_used_up (watchdog_timeout * 10) 0 ws rest (omega (arith, e)) h ∙ expired_stays rest,
  stops_in_time (watchdog_timeout * 10) (9 - length few) few rest (omega (arith, less)) k,
  fails_in_time (watchdog_timeout * 10) (9 - length few) few rest (omega (arith, less)) k
      ∙ finished_stays rest,
)
