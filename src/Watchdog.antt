-- ===== src/Watchdog.antt =====
-- src/server/utils/watchdog.c: the thread that ends the server when a watched operation takes longer
-- than WATCHDOG_TIMEOUT seconds. What its waits for signals answer is a list.
pub mod Expiry
use odroid_player.Prelude.{
  ℕ, zero, suc, ◌*◌, ◌==◌, String, List, [], ◌∷◌, ◌++◌, some, Bool, true, false, if◌then◌else◌,
  minus_one,
}
use odroid_player.Sys.{
  Call, Signal, sigusr1, sigusr2, sigcont, sigstop, sigterm, unlink, pthread_kill,
}
use odroid_player.Message.{eserver, nothing}
use odroid_player.Pool.{ClientPool}
use odroid_player.Send.{Net, send_broadcast_message}

abbrev pub watchdog_timeout : ℕ
watchdog_timeout = 1

-- The answer of `sigwaitinfo` or `sigtimedwait`: a signal, EAGAIN, or another error.
pub data Waited : Type 0 where
  signalled : Signal → Waited
  timed_out wait_failed : Waited

-- `waiting` for SIGUSR1, `watching` with so many waits of 100 ms left, `expired` at the end of them,
-- `finished` after an error.
pub data Watchdog : Type 0 where
  waiting : Watchdog
  watching : ℕ → Watchdog
  expired finished : Watchdog

-- The loop over the waits, where `left` of them are left.
abbrev pub next_wait : ℕ → Watchdog
next_wait zero = expired
next_wait (suc n) = watching (suc n)

-- One wait. An error of `sigwaitinfo`, a timeout included, breaks the outer loop.
unfoldable pub watchdog_step : Watchdog → Waited → Watchdog
watchdog_step waiting (signalled sigusr1) = next_wait (watchdog_timeout * 10)
watchdog_step waiting (signalled _) = waiting
watchdog_step waiting timed_out = finished
watchdog_step waiting wait_failed = finished
watchdog_step (watching zero) w = expired
watchdog_step (watching (suc n)) (signalled sigusr2) = waiting
watchdog_step (watching (suc n)) (signalled _) = next_wait n
watchdog_step (watching (suc n)) timed_out = next_wait n
watchdog_step (watching (suc n)) wait_failed = finished
watchdog_step expired w = expired
watchdog_step finished w = finished

unfoldable pub run_watchdog : Watchdog → List Waited → Watchdog
unfolding watchdog_step
run_watchdog s [] = s
run_watchdog s (w ∷ ws) = run_watchdog (watchdog_step s w) ws

-- What the thread does when it has expired, before the process exits; `msg` is the text that
-- `sprintf` makes.
unfoldable pub watchdog_exit : Net → ClientPool → String → String → List Call
watchdog_exit net pool msg socket_path =
    (send_broadcast_message net pool (some msg) minus_one eserver nothing).1
    ++ unlink socket_path ∷ []

unfoldable pub start_watchdog_timer : ℕ → List Call
start_watchdog_timer wtdg_thread_id = pthread_kill wtdg_thread_id sigusr1 ∷ []

unfoldable pub stop_watchdog_timer : ℕ → List Call
stop_watchdog_timer wtdg_thread_id = pthread_kill wtdg_thread_id sigusr2 ∷ []
