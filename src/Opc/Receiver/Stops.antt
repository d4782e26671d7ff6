-- ===== src/Opc/Receiver/Stops.antt =====
-- How the receive thread of src/client/opc/receive/receive.c ends, and what its end does to those who
-- wait.
use odroid_player.Prelude.{
  ◌≡◌, refl, subst, inl, inr, List, [], ◌∷◌, ◌++◌, Option, none, some, Bool, true, false, All,
  Bool-cases,
}
use odroid_player.Sys.{Call}
use odroid_player.Message.{Status, eserver}
use odroid_player.Queue.{stopped}
use odroid_player.Queue.Wait.{AllIdle, dequeue-stopped}
use odroid_player.Opc.{OpcQueue, OpClient}
use odroid_player.Opc.Queues.{dequeue}
use odroid_player.Opc.Monitors.{set_queue, set_monitor, get_monitor_play}
use odroid_player.Opc.Waiting.{no_answer, opc_create_status, get_message_response}
use odroid_player.Opc.Reception.{Turned}
use odroid_player.Opc.Reception.Sound.{IsSound, KeepsSoundWith, set_monitor-IsSound}
use odroid_player.Opc.Receiver.{Turn, stop_receiver, with_calls, after_turn, run_receiver}
use odroid_player.Opc.Receiver.Sound.{receive_turn-KeepsSound}

abbrev pub QueueStopped : Option OpcQueue → Type 0
QueueStopped none = Unit {0}
QueueStopped (some q) = q.running ≡ false

-- A client whose threads are told to end.
pub record IsStopped (c : OpClient) : Type 0 where
  pub sound : IsSound c
  pub monitor_off : get_monitor_play c.monitor ≡ false
  pub msg_off : QueueStopped c.msg_queue
  pub cmd_off : QueueStopped c.cmd_queue

set_queue-QueueStopped : (queue : Option OpcQueue) → QueueStopped (set_queue false queue).0
unfolding set_queue
set_queue-QueueStopped none = tt
set_queue-QueueStopped (some q) = refl

set_monitor-IsStopped :
    (client : OpClient) (status : Status)
    → IsSound client
    → IsStopped (set_monitor client false status).0
unfolding set_monitor get_monitor_play
set_monitor-IsStopped client status v = record {
  sound = set_monitor-IsSound client false status v;
  monitor_off = rw v.watched.1 refl;
  msg_off = rw v.watched.1 (set_queue-QueueStopped client.msg_queue);
  cmd_off = rw v.watched.1 (set_queue-QueueStopped client.cmd_queue);
}

-- A thread that has ended leaves a stopped client, one that has not a sound one.
abbrev pub Ends : Turned → Type 0
Ends none = Unit {0}
Ends (some (true, c, calls)) = IsStopped c
Ends (some (false, c, calls)) = IsSound c

stop_receiver-Ends :
    (calls : List Call) (client : OpClient) → IsSound client → Ends (stop_receiver calls client)
unfolding stop_receiver
stop_receiver-Ends calls client v = set_monitor-IsStopped client eserver v

with_calls-Ends :
    (calls : List Call) (turned : Turned) → Ends turned → Ends (with_calls calls turned)
unfolding with_calls
with_calls-Ends calls none h = tt
with_calls-Ends calls (some (true, c, more)) h = h
with_calls-Ends calls (some (false, c, more)) h = h

after_turn-Ends :
    (next : OpClient → Turned) (turned : Turned)
    → ((c : OpClient) → IsSound c → Ends (next c))
    → KeepsSoundWith turned
    → Ends (after_turn next turned)
unfolding after_turn
after_turn-Ends next none h k = tt
after_turn-Ends next (some (false, c, calls)) h k = stop_receiver-Ends calls c k
after_turn-Ends next (some (true, c, calls)) h k = with_calls-Ends calls _ (h c k)

-- What the other threads do to the client between two turns keeps it sound.
abbrev pub Careful : Turn → Type 0
Careful t = (c : OpClient) → IsSound c → IsSound (t.changes c)

pub run_receiver-Ends :
    (turns : List Turn) (client : OpClient)
    → All Careful turns
    → IsSound client
    → Ends (run_receiver turns client)
unfolding run_receiver
run_receiver-Ends [] client h v = v
run_receiver-Ends (t ∷ turns) client h v =
    let seen = t.changes client in
    let fine = h.0 client v in
    elim (Bool-cases (get_monitor_play seen.monitor)) [
      | inl on ↦ rw on (
          after_turn-Ends _ _ (λ c w. run_receiver-Ends turns c h.1 w)
            (receive_turn-KeepsSound t.world seen fine))
      | inr off ↦ rw off (stop_receiver-Ends [] seen fine)
    ]

-- However the server ends the connection, once the thread of a sound client has ended, its monitor
-- and both queues are off, and a program that waits for a notice in the empty queue returns without
-- one at its next wake-up, after any that found the queue running and empty.
pub run_receiver-no_answer :
    (turns : List Turn) (client c : OpClient) (calls : List Call) (data_ok : Bool)
    (idle wakes : List OpcQueue) (q w : OpcQueue) (waiter : OpClient)
    → All Careful turns
    → IsSound client
    → run_receiver turns client ≡ some (true, c, calls)
    → waiter.msg_queue ≡ some q
    → q.nodes ≡ []
    → AllIdle idle
    → c.msg_queue ≡ some w
    → IsStopped c
      × (get_message_response true data_ok (idle ++ w ∷ wakes) waiter ≡ some (no_answer (some w)))
unfolding get_message_response opc_create_status dequeue
run_receiver-no_answer turns client c calls data_ok idle wakes q w waiter h v e has empty asleep
      at =
    let stop : IsStopped c = subst Ends e (run_receiver-Ends turns client h v) in
    let off : w.running ≡ false = subst QueueStopped at stop.msg_off in
    let null : dequeue waiter.msg_queue (idle ++ w ∷ wakes) ≡ some (stopped w) =
      simp (has, dequeue-stopped idle q w wakes empty asleep off) in
    (stop, rw (null, get_message_response) refl)
