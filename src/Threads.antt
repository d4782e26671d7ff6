-- ===== src/Threads.antt =====
-- The loops of the server's threads, from their start to their end: `run_server` of
-- src/server/server/server.c, `run_response` of src/server/response/response.c and `run_stream` of
-- src/server/stream/stream.c. Each runs over a list of turns, which say what the other threads and the
-- system do meanwhile; the loop goes on where the list ends. No result is a read through NULL.
pub mod Ends
use odroid_player.Prelude.{
  ℕ, zero, suc, ℤ, pos, ltb_ℤ, eq_ℤ, String, List, [], ◌∷◌, ◌++◌, Option, none, some, Bool, true,
  false, not, ◌&&◌, if◌then◌else◌,
}
use odroid_player.Sys.{Call, close, unlink}
use odroid_player.Message.{Node}
use odroid_player.Queue.{Queue, Dequeued, taken, stopped, waiting, dequeue}
use odroid_player.Pool.{max_clients}
use odroid_player.FdSet.{FdSet, fd_ready}
use odroid_player.FdSet.Wait.{Selected, read_wait, write_wait, wait_fd}
use odroid_player.Send.{Net}
use odroid_player.Player.{Player, Timeval, get_player_running, set_player_running}
use odroid_player.Receive.{Input}
use odroid_player.Server.{connect_new_client, accept_step, client_slot}
use odroid_player.Response.{World, respond}
use odroid_player.Stream.{Sent, stream_slot}
use odroid_player.System.{watch_server}

abbrev pub server_socket_path : String
server_socket_path = "/tmp/op_server.sock"

-- What a thread has come to: whether it has ended, the player and the calls.
abbrev pub Ran : Type 0
Ran = Option (Bool × Player × List Call)

unfoldable pub before : List Call → Ran → Ran
before calls none = none
before calls (some (over, p, more)) = some (over, p, calls ++ more)

-- The end of a thread, after its last calls.
unfoldable pub finish : List Call → Player → Ran
finish calls player =
    let (p, told) = set_player_running player false in some (true, p, calls ++ told)

-- `changes` is what the other threads do before the turn, `woken` what they do during `pselect`.
pub record WaitTurn : Type 0 where
  pub changes : Player → Player
  pub pselect : ℤ → FdSet → Selected
  pub woken : Player → Player

pub record SlotTurn : Type 0 where
  pub node_ok : Bool
  pub data_ok : Bool
  pub input : Input

pub record ServerTurn : Type 0 where
  pub wait : WaitTurn
  pub accepted : ℤ
  pub slots : ℕ → SlotTurn

unfoldable pub after_calls : List Call → Option (Player × List Call) → Option (Player × List Call)
after_calls calls none = none
after_calls calls (some (p, more)) = some (p, calls ++ more)

unfoldable pub after_slot :
    (Player → Option (Player × List Call))
    → Option (Player × List Call)
    → Option (Player × List Call)
unfolding after_calls
after_slot later none = none
after_slot later (some (p, calls)) = after_calls calls (later p)

-- The loop over the slots from `i` on, of which `left` are left.
unfoldable pub slot_loop :
    Net → FdSet → (ℕ → SlotTurn) → (left i : ℕ) → Player → Option (Player × List Call)
unfolding after_slot
slot_loop net read_set slots zero i player = some (player, [])
slot_loop net read_set slots (suc left) i player =
    let s = slots i in
    after_slot (λ p. slot_loop net read_set slots left (suc i) p)
      (client_slot net s.node_ok s.data_ok read_set (pos i) s.input player)

unfoldable pub with_id :
    ℕ → List Call → Option (Player × List Call) → Option (ℕ × Player × List Call)
with_id client_id calls none = none
with_id client_id calls (some (p, more)) = some (client_id, p, calls ++ more)

-- A turn whose wait has found descriptors: a refused client ends it, without a look at the slots.
unfoldable pub server_turn :
    Net → ℤ → FdSet → ServerTurn → ℕ → Player → Option (ℕ × Player × List Call)
unfolding slot_loop with_id
server_turn net server_fd read_set t client_id player =
    let refused = eq_ℤ (connect_new_client net t.accepted client_id player).client_fd (pos 0) in
    let (next_id, p, calls) = accept_step net t.accepted client_id player in
    let served = with_id next_id calls (slot_loop net read_set t.slots max_clients 0 p) in
    let unchanged = with_id client_id [] (slot_loop net read_set t.slots max_clients 0 player) in
    if fd_ready server_fd read_set
    then (if refused then some (next_id, p, calls) else served)
    else unchanged

unfoldable pub stop_server : ℤ → Player → Ran
unfolding finish
stop_server server_fd player =
    finish
      (if ltb_ℤ (pos 0) server_fd then close server_fd ∷ unlink server_socket_path ∷ [] else [])
      player

unfoldable pub after_server_turn : (ℕ → Player → Ran) → Option (ℕ × Player × List Call) → Ran
unfolding before
after_server_turn later none = none
after_server_turn later (some (client_id, p, calls)) = before calls (later client_id p)

-- `wait_fd` returns a negative value only when a signal has interrupted it.
unfoldable pub server_loop : Net → ℤ → List ServerTurn → ℕ → Player → Ran
unfolding server_turn stop_server after_server_turn
server_loop net server_fd [] client_id player = some (false, player, [])
server_loop net server_fd (t ∷ turns) client_id player =
    let seen = t.wait.changes player in
    let woken = t.wait.woken seen in
    let (ret, read_set) = wait_fd t.wait.pselect read_wait seen woken in
    let again = server_loop net server_fd turns client_id woken in
    let rest =
      after_server_turn (λ id p. server_loop net server_fd turns id p)
        (server_turn net server_fd read_set t client_id woken) in
    if not (get_player_running seen)
    then stop_server server_fd seen
    else if ltb_ℤ ret (pos 0)
    then again
    else if eq_ℤ ret (pos 0)
    then stop_server server_fd woken
    else rest

-- `server_fd` is what `create_socket_uds` gives, 0 where it fails.
unfoldable pub run_server : Net → ℤ → List ServerTurn → Player → Ran
unfolding server_loop
run_server net server_fd turns player =
    let rest = server_loop net server_fd turns 0 (watch_server server_fd player) in
    if eq_ℤ server_fd (pos 0) then stop_server server_fd player else rest

-- `wakes` are the players that the wait for a node wakes to, with what the other threads have done
-- meanwhile.
pub record ResponseTurn : Type 0 where
  pub changes : Player → Player
  pub wakes : List Player
  pub world : World

abbrev pub queues : List Player → List (Queue Node)
queues [] = []
queues (p ∷ ps) = p.queue ∷ queues ps

-- The player when the wait is over: as it was if there is a node already, and else the first that a
-- wake-up finds with a node or with its queue off.
unfoldable pub player_after : List Node → Player → List Player → Player
player_after (node ∷ nodes) player wakes = player
player_after [] player [] = player
player_after [] player (w ∷ wakes) =
    let again = player_after w.queue.nodes w wakes in if w.queue.running then again else w

unfoldable pub after_respond : (Player → Ran) → Option (Player × List Call) → Ran
unfolding before
after_respond later none = none
after_respond later (some (p, calls)) = before calls (later p)

unfoldable pub answer_node : World → (Player → Ran) → Player → Dequeued Node → Ran
unfolding finish after_respond
answer_node world later player waiting = some (false, player, [])
answer_node world later player (stopped q) = finish [] (record player { queue = q })
answer_node world later player (taken node q) =
    after_respond later (respond world node (record player { queue = q }))

unfoldable pub run_response : List ResponseTurn → Player → Ran
unfolding answer_node player_after
run_response [] player = some (false, player, [])
run_response (t ∷ turns) player =
    let seen = t.changes player in
    let found = player_after seen.queue.nodes seen t.wakes in
    let taken_node = dequeue seen.queue (queues t.wakes) in
    let rest = answer_node t.world (λ p. run_response turns p) found taken_node in
    if not (get_player_running seen) then finish [] seen else rest

pub record StreamTurn : Type 0 where
  pub wait : WaitTurn
  pub sent : ℤ → Sent
  pub now : Timeval

unfoldable pub stream_loop :
    (ℤ → Sent) → FdSet → Timeval → (left i : ℕ) → Player → Player × List Call
stream_loop sent write_set now zero i player = (player, [])
stream_loop sent write_set now (suc left) i player =
    let (p, calls) = stream_slot sent write_set (pos i) player now in
    let (q, more) = stream_loop sent write_set now left (suc i) p in (q, calls ++ more)

unfoldable pub run_stream : List StreamTurn → Player → Ran
unfolding stream_loop finish before
run_stream [] player = some (false, player, [])
run_stream (t ∷ turns) player =
    let seen = t.wait.changes player in
    let woken = t.wait.woken seen in
    let (ret, write_set) = wait_fd t.wait.pselect write_wait seen woken in
    let (p, calls) = stream_loop t.sent write_set t.now max_clients 0 woken in
    let rest = before calls (run_stream turns p) in
    if not (get_player_running seen)
    then finish [] seen
    else if eq_ℤ ret (pos 0)
    then finish [] woken
    else rest
