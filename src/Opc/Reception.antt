-- ===== src/Opc/Reception.antt =====
-- src/client/opc/receive/receive.c, the receiving of one message: the errors of `recv`, the notices
-- that the connection is lost and found again, and the new connection between them. Without a result
-- an assertion fails.
pub mod Sound
use odroid_player.Prelude.{
  ℕ, zero, suc, ltb, ◌==◌, ℤ, minus_one, String, List, [], ◌∷◌, ◌++◌, length, Option, none, some,
  Bool, true, false, not, if◌then◌else◌,
}
use odroid_player.Sys.{Call}
use odroid_player.Message.{
  Status, toomany, timeout, eserver, reconnt, CmdType, command, stream, notify, brdcast, nothing,
  Message,
}
use odroid_player.Receive.{message_max_byte}
use odroid_player.Server.{message_items}
use odroid_player.Opc.{OpcNode, OpcQueue, OpClient}
use odroid_player.Opc.Queues.{create_node, enqueue, flush_queue}
use odroid_player.Opc.Monitors.{set_monitor, get_monitor_play}
use odroid_player.Opc.Connection.{ConnectAnswer, opc_connect}

pub data ErrRecv : Type 0 where
  recv_success err_recv_timeout err_recv_closed err_recv_internal err_recv_unpack : ErrRecv

-- The answer of one `recv`: what came, EAGAIN, ECONNRESET, another error, or the end.
pub data RecvAnswer {ℓ} (A : Type ℓ) : Type ℓ where
  got : A → RecvAnswer A
  again reset other_error ended : RecvAnswer A

-- The answers of the system during one round: of `recv`, with `ntohl` and what `amessage__unpack`
-- makes of the data, of `malloc`, and of `socket` and `connect`.
pub record RecvWorld : Type 0 where
  pub length_answer : RecvAnswer ℕ
  pub ntohl : ℕ → ℕ
  pub buffer_ok : Bool
  pub data_answer : RecvAnswer (Option Message)
  pub node_ok : Bool
  pub data_ok : Bool
  pub notice_ok : Bool
  pub socket_fd : ℤ
  pub connects : ℕ → ConnectAnswer

-- The error that a `recv` leaves, and what it has read if it has none.
unfoldable pub receive_answer {ℓ} : {A : Type ℓ} → ErrRecv → RecvAnswer A → Option A × ErrRecv
receive_answer err (got a) = (some a, err)
receive_answer err again = (none, err_recv_timeout)
receive_answer err reset = (none, err_recv_closed)
receive_answer err other_error = (none, err_recv_internal)
receive_answer err ended = (none, err_recv_closed)

unfoldable pub receive_message_length : RecvWorld → ErrRecv → ℕ × ErrRecv
unfolding receive_answer
receive_message_length world err =
    let (read, e) = receive_answer err world.length_answer in
    (elim read [ none ↦ 0 | some recv_len ↦ recv_len ], e)

unfoldable pub receive_message_data : RecvWorld → ErrRecv → Option Message × ErrRecv
unfolding receive_answer
receive_message_data world err =
    let (read, e) = receive_answer err world.data_answer in
    elim read [
      | none ↦ (none, e)
      | some none ↦ (none, err_recv_unpack)
      | some (some msg) ↦ (some msg, e)
    ]

-- `data_ok` is the second `malloc` of `create_node`.
abbrev pub notice_node :
    Bool → Bool → ℤ → Status → ℕ → Option (List (Option String)) → Option OpcNode
notice_node node_ok data_ok fd status n_data items =
    create_node node_ok data_ok fd status notify nothing minus_one n_data items

-- What an operation returns: no result is a fault.
abbrev pub Kept : Type 0
Kept = Option (OpClient × List Call)

abbrev pub Turned : Type 0
Turned = Option (Bool × OpClient × List Call)

-- The notice is in the queue, or the whole queue is flushed.
unfoldable pub flushed : OpClient → Option (List OpcNode × OpcQueue × List Call) → Kept
flushed client none = none
flushed client (some (freed, q, calls)) = some (record client { msg_queue = some q }, calls)

unfoldable pub keep_notice : OpClient → Option (Bool × OpcQueue) → Kept
unfolding flushed
keep_notice client none = none
keep_notice client (some (true, q)) = some (record client { msg_queue = some q }, [])
keep_notice client (some (false, q)) = flushed client (flush_queue (some q))

unfoldable pub enqueue_notice : OpClient → Option OpcNode → Kept
unfolding keep_notice
enqueue_notice client made = keep_notice client (enqueue client.msg_queue made)

unfoldable pub notice_reconnect : RecvWorld → Bool → OpClient → Kept
unfolding enqueue_notice
notice_reconnect world true client =
    if not world.notice_ok
    then some (client, [])
    else enqueue_notice client (
        notice_node world.node_ok world.data_ok client.client_fd eserver 1
          (some (some "server closed" ∷ [])))
notice_reconnect world false client =
    enqueue_notice client (notice_node world.node_ok world.data_ok client.client_fd reconnt 0 none)

-- What `receive_message` returns: -1, 0, or 1 with the message.
pub data Received : Type 0 where
  gone idle : Received
  received : Message → Received

abbrev pub Got : Type 0
Got = Option (Received × OpClient × List Call)

-- The server has closed the connection: a notice, a new connection, and a notice of it.
unfoldable pub found_again : List Call → Kept → Got
found_again calls none = none
found_again calls (some (c, more)) = some (idle, c, calls ++ more)

unfoldable pub after_connect : RecvWorld → List Call → Turned → Got
unfolding found_again
after_connect world calls none = none
after_connect world calls (some (false, c, made)) = some (gone, c, calls ++ made)
after_connect world calls (some (true, c, made)) =
    found_again (calls ++ made) (notice_reconnect world false c)

unfoldable pub after_lost : RecvWorld → Kept → Got
unfolding after_connect
after_lost world none = none
after_lost world (some (c, calls)) =
    after_connect world calls (opc_connect world.socket_fd world.connects c)

unfoldable pub reconnect : RecvWorld → OpClient → Got
unfolding after_lost
reconnect world client = after_lost world (notice_reconnect world true client)

-- What an error leads to, for the length and for the data.
unfoldable pub receive_failed : RecvWorld → ErrRecv → OpClient → Got
unfolding reconnect
receive_failed world err_recv_timeout client = some (idle, client, [])
receive_failed world err_recv_closed client = reconnect world client
receive_failed world _ client = some (gone, client, [])

unfoldable pub receive_message : RecvWorld → OpClient → Got
unfolding receive_failed receive_message_length receive_message_data
receive_message world client =
    let (recv_len, err) = receive_message_length world recv_success in
    let (msg, e) = receive_message_data world err in
    if recv_len == 0
    then receive_failed world err client
    else if ltb message_max_byte (world.ntohl recv_len)
    then some (gone, client, [])
    else if not world.buffer_ok
    then some (gone, client, [])
    else (elim msg [
      | none ↦ receive_failed world e client
      | some m ↦ some (received m, client, [])
    ])
