-- ===== src/Response.antt =====
-- src/server/response/response.c: the response thread, which runs the command of each node and
-- answers its client. `respond` is one round of the loop of `run_response`, after `dequeue`; it has
-- no result where the code would read through NULL.
pub mod Outcome
pub mod Streaming
use odroid_player.Prelude.{
  ℕ, zero, suc, ℤ, minus_one, String, List, [], ◌∷◌, ◌++◌, Option, none, some, Bool, true, false,
  not, ◌||◌, if◌then◌else◌,
}
use odroid_player.Sys.{Call}
use odroid_player.Message.{Status, success, eserver, CmdType, command, stream, Node, create_node}
use odroid_player.Pool.{
  check_stream_is_set, get_server_stream_path, get_client_stream_path, is_null,
}
use odroid_player.Pool.Change.{SocketApi}
use odroid_player.Send.{Net, Attempt, SentAnswer, send_broadcast_message, send_response}
use odroid_player.Player.{Player, Timeval}
use odroid_player.Command.{Reply, Handler, init_cmd_array}
use odroid_player.Stream.{set_new_stream, trigger_stream}
use odroid_player.Server.{disconnect_client}

abbrev pub resend_count : ℕ
resend_count = 3

-- The answers of the system during one round; `attempts` are those of each `send_response`.
pub record World : Type 0 where
  pub now : Timeval
  pub api : SocketApi
  pub killed : ℤ
  pub net : Net
  pub items_ok : Bool
  pub saved_ok : Bool
  pub saved_items_ok : Bool
  pub attempts : ℕ → Attempt

-- What `execute_command` returns, NULL as `none`, and the status that it leaves.
pub record Executed : Type 0 where
  pub items : Option (List (Option String))
  pub status : Status
  pub player : Player
  pub calls : List Call

abbrev pub text_or : String → Option String → Option String
text_or text none = some text
text_or text (some s) = some s

unfoldable pub of_reply : Reply → Executed
of_reply r = record {
  items = some (text_or "couldn't handle command\n" r.text ∷ []);
  status = r.status;
  player = r.player;
  calls = r.calls;
}

unfoldable pub run_handler : World → Option Handler → Player → Option Executed
unfolding of_reply
run_handler world none player = none
run_handler world (some handler) player = elim (handler success player world.now) [
  | none ↦ none
  | some r ↦ some (of_reply r)
]

unfoldable pub execute_stream : World → Node → Player → Executed
execute_stream world node player =
    let (made, p, calls) =
      if check_stream_is_set node.client_fd player.client_pool
      then (true, player, [])
      else set_new_stream world.api node.client_fd player in
    let server_path = get_server_stream_path node.client_fd p.client_pool in
    let client_path = get_client_stream_path node.client_fd p.client_pool in
    let (started, q, woken) = trigger_stream world.killed node.client_fd p node.cmd in
    let items =
      text_or "couldn't get server stream path\n" server_path
      ∷ text_or "couldn't get client stream path\n" client_path
      ∷ [] in
    if not world.items_ok
    then record { items = none; status = success; player = p; calls = calls }
    else if is_null server_path || is_null client_path
    then record { items = some items; status = eserver; player = p; calls = calls }
    else record {
      items = some items;
      status = if started then success else eserver;
      player = q;
      calls = calls ++ woken;
    }

unfoldable pub execute_typed : World → CmdType → Node → Player → Option Executed
unfolding run_handler execute_stream
execute_typed world command node player =
    let run = run_handler world (init_cmd_array node.cmd) player in
    if not world.items_ok
    then some (record { items = none; status = success; player = player; calls = [] })
    else run
execute_typed world stream node player = some (execute_stream world node player)
execute_typed world _ node player =
    some (record { items = none; status = eserver; player = player; calls = [] })

unfoldable pub execute_command : World → Node → Player → Option Executed
unfolding execute_typed
execute_command world node player = execute_typed world node.type node player

-- The old response is freed first, so without memory there is none afterwards.
unfoldable pub save_prev_resp : Bool → Bool → Node → Player → Player
save_prev_resp saved_ok saved_items_ok node player = record player {
  prev_resp =
      create_node saved_ok saved_items_ok node.client_id node.client_fd node.msg_idx node.status
        node.type node.cmd node.n_data node.items;
}

-- The loop over the attempts from `count` on, of which `left` are left. Its inner test
-- `count++ < RESEND_COUNT` holds whenever the loop runs, so a timeout always leads on.
unfoldable pub resend :
    World → Node → Status → List (Option String) → (left count : ℕ) → Player → Player × List Call
resend world node status items zero count player = (player, [])
resend world node status items (suc left) count player =
    let sent = send_response world.net (world.attempts count) node status items in
    let (p, calls) = resend world node status items left (suc count) player in
    let (q, dropped) = disconnect_client node.client_fd player in
    if sent.done
    then (save_prev_resp world.saved_ok world.saved_items_ok node player, sent.calls)
    else if sent.timed_out
    then (p, sent.calls ++ calls)
    else (q, sent.calls ++ dropped)

-- `data[0]` of a node: none where the read is a fault.
abbrev pub first_entry : Option (List (Option String)) → Option (Option String)
first_entry none = none
first_entry (some []) = none
first_entry (some (x ∷ xs)) = some x

-- The broadcast of the command, and the attempts to answer with what it has returned.
unfoldable pub answer_executed :
    World → Node → Option String → Executed → Option (List (Option String)) → Player × List Call
unfolding resend
answer_executed world node text e none = (e.player, e.calls)
answer_executed world node text e (some items) =
    let (sent, told) =
      send_broadcast_message world.net (e.player).client_pool text minus_one e.status node.cmd in
    let (p, calls) = resend world node e.status items resend_count 0 e.player in
    (p, e.calls ++ (told ++ calls))

unfoldable pub after_command : World → Node → Option String → Executed → Player × List Call
unfolding answer_executed
after_command world node text e = answer_executed world node text e e.items

unfoldable pub respond : World → Node → Player → Option (Player × List Call)
unfolding after_command execute_command
respond world node player = elim (first_entry node.items) [
  | none ↦ none
  | some text ↦ elim (execute_command world node player) [
    | none ↦ none
    | some e ↦ some (after_command world node text e)
  ]
]
