-- ===== src/Opc/Receiver.antt =====
-- src/client/opc/receive/receive.c, what becomes of a message, and the loop of the thread. Without a
-- result an assertion fails, or the code reads through NULL.
pub mod Sound
pub mod Stops
use odroid_player.Prelude.{
  ℕ, zero, suc, ltb, ◌==◌, ℤ, minus_one, String, List, [], ◌∷◌, ◌++◌, length, Option, none, some,
  Bool, true, false, not, if◌then◌else◌,
}
use odroid_player.Sys.{Call}
use odroid_player.Message.{
  Status, toomany, timeout, eserver, reconnt, CmdType, command, stream, notify, brdcast, nothing,
  Message,
}
use odroid_player.Receive.{message_max_byte}
use odroid_player.Server.{message_items}
use odroid_player.Opc.{OpcNode, OpcQueue, OpClient}
use odroid_player.Opc.Queues.{create_node, enqueue, flush_queue}
use odroid_player.Opc.Monitors.{set_monitor, get_monitor_play}
use odroid_player.Opc.Connection.{ConnectAnswer, opc_connect}
use odroid_player.Opc.Reception.{
  ErrRecv, recv_success, err_recv_timeout, err_recv_closed, err_recv_internal, err_recv_unpack,
  RecvAnswer, RecvWorld, Kept, Turned, Received, gone, idle, received, Got, receive_message,
}

abbrev pub opc_node : RecvWorld → OpClient → Message → Option OpcNode
opc_node world client msg =
    create_node world.node_ok world.data_ok client.client_fd msg.status msg.type msg.cmd msg.idx
      (length msg.items) (message_items msg.items)

-- An answer goes to the queue of answers, a notice to that of notices. A node that finds no room is
-- lost.
unfoldable pub put_answer : OpClient → Option (Bool × OpcQueue) → Kept
put_answer client none = none
put_answer client (some (done, q)) = some (record client { cmd_queue = some q }, [])

unfoldable pub put_notice : OpClient → Option (Bool × OpcQueue) → Kept
put_notice client none = none
put_notice client (some (done, q)) = some (record client { msg_queue = some q }, [])

unfoldable pub queue_answer : RecvWorld → OpClient → Message → Kept
unfolding put_answer
queue_answer world client msg =
    put_answer client (enqueue client.cmd_queue (opc_node world client msg))

unfoldable pub queue_notice : RecvWorld → OpClient → Message → Kept
unfolding put_notice
queue_notice world client msg =
    put_notice client (enqueue client.msg_queue (opc_node world client msg))

-- The log line of a server error reads `data[0]`, a fault where there is no text.
unfoldable pub warn_server_error : RecvWorld → OpClient → Message → List String → Kept
unfolding queue_notice
warn_server_error world client msg [] = none
warn_server_error world client msg (text ∷ texts) = queue_notice world client msg

unfoldable pub handle_status : RecvWorld → OpClient → Message → Status → Kept
unfolding warn_server_error queue_notice
handle_status world client msg toomany = some (set_monitor client false toomany)
handle_status world client msg eserver = warn_server_error world client msg msg.items
handle_status world client msg _ = queue_notice world client msg

unfoldable pub handle_notice : RecvWorld → OpClient → Message → Kept
unfolding handle_status
handle_notice world client msg = handle_status world client msg msg.status

unfoldable pub handle_typed : RecvWorld → OpClient → Message → CmdType → Kept
unfolding queue_answer handle_notice
handle_typed world client msg command = queue_answer world client msg
handle_typed world client msg stream = queue_answer world client msg
handle_typed world client msg notify = handle_notice world client msg
handle_typed world client msg brdcast = handle_notice world client msg

unfoldable pub handle_message : RecvWorld → OpClient → Message → Kept
unfolding handle_typed
handle_message world client msg = handle_typed world client msg msg.type

-- One turn of the loop of the thread: what the other threads have done to the client before it, and
-- the system's answers.
pub record Turn : Type 0 where
  pub changes : OpClient → OpClient
  pub world : RecvWorld

-- What a turn leads to: whether the loop goes on, the client and the calls.
unfoldable pub handled : List Call → Kept → Turned
handled calls none = none
handled calls (some (c, more)) = some (true, c, calls ++ more)

unfoldable pub after_receive : RecvWorld → Got → Turned
unfolding handled handle_message
after_receive world none = none
after_receive world (some (gone, c, calls)) = some (false, c, calls)
after_receive world (some (idle, c, calls)) = some (true, c, calls)
after_receive world (some (received msg, c, calls)) = handled calls (handle_message world c msg)

unfoldable pub receive_turn : RecvWorld → OpClient → Turned
unfolding after_receive
receive_turn world client = after_receive world (receive_message world client)

-- The end of the thread, after the calls of its last turn.
unfoldable pub stop_receiver : List Call → OpClient → Turned
stop_receiver calls client =
    let (c, told) = set_monitor client false eserver in some (true, c, calls ++ told)

unfoldable pub with_calls : List Call → Turned → Turned
with_calls calls none = none
with_calls calls (some (over, c, more)) = some (over, c, calls ++ more)

-- A turn and what comes after it: `next` is the loop again.
unfoldable pub after_turn : (OpClient → Turned) → Turned → Turned
unfolding stop_receiver with_calls
after_turn next none = none
after_turn next (some (false, c, calls)) = stop_receiver calls c
after_turn next (some (true, c, calls)) = with_calls calls (next c)

-- Whether the thread has ended, the client and the calls.
unfoldable pub run_receiver : List Turn → OpClient → Turned
unfolding after_turn receive_turn stop_receiver
run_receiver [] client = some (false, client, [])
run_receiver (t ∷ turns) client =
    let seen = t.changes client in
    let rest = after_turn (λ c. run_receiver turns c) (receive_turn t.world seen) in
    if get_monitor_play seen.monitor then rest else stop_receiver [] seen
