-- ===== src/Exchange.antt =====
-- A request from a client of src/client/opc to the server of src/server and back: the message of
-- src/client/opc/send/send.c, the node of src/server/server/server.c, the round of
-- src/server/response/response.c, and the answer as src/client/opc/receive/receive.c and
-- src/client/opc/response/response.c take it. The socket and the packing of messages deliver what is
-- sent.
pub mod RoundTrip
use odroid_player.Prelude.{
  ℕ, ◌≤◌, ◌<◌, ◌^◌, ◌≡◌, ◌≢◌, refl, sym, subst, ap, ◌∙◌, inl, inr, ltb_ℤ, ℤ, size_of_int,
  int_of_size, String, List, [], ◌∷◌, ◌++◌, append_assoc, minus_one, length, Option, none, some,
  true, false, All, All-append, arith,
}
use odroid_player.Sys.{send_request, Call, send_length, send_answer}
use odroid_player.Message.{
  Status, success, command, Cmd, cmd_count, Message, Answer, Node, create_node, copy_data,
}
use odroid_player.Queue.{queue_size, enqueue as enqueue_node}
use odroid_player.Queue.Size.{nodes-enqueue}
use odroid_player.Playlist.Valid.{Shows}
use odroid_player.Send.{Attempt, went, send_part, send_response, send_broadcast_message}
use odroid_player.Player.{Player}
use odroid_player.Command.{init_cmd_array}
use odroid_player.Command.Moves.{PrevText, init_cmd_array-Answers}
use odroid_player.Server.{message_node}
use odroid_player.Response.{
  World, Executed, text_or, of_reply, run_handler, execute_typed, execute_command, resend,
  answer_executed, after_command, first_entry, respond,
}
use odroid_player.Opc.{OpcNode, OpcQueue, OpClient, OpStatus}
use odroid_player.Opc.Queues.{create_node as create_opc_node, enqueue}
use odroid_player.Opc.Queues.Conditional.{NotLater}
use odroid_player.Opc.Sending.{
  SendWorld, went as sent, ErrSend, send_command, send_message, send_message_part,
  prepare_send_message, command_to_string,
}
use odroid_player.Opc.Requests.Returns.{init_cmd_array-Named}
use odroid_player.Opc.Waiting.{Visit, Response, answered, get_command_response}
use odroid_player.Opc.Waiting.Answers.{Quiet, Stale, get_command_response-Answers}
use odroid_player.Opc.Reception.{RecvWorld}
use odroid_player.Opc.Receiver.{put_answer, queue_answer, handle_typed, handle_message}

-- The message of a request of type COMMAND with an index.
abbrev pub request_message : ℕ → Cmd → String → Message
request_message msg_idx cmd text = record {
  status = success;
  type = command;
  cmd = cmd;
  idx = int_of_size msg_idx;
  items = text ∷ [];
}

-- The node that the server makes of it.
abbrev pub request_node : ℤ → ℤ → ℕ → Cmd → String → Node
request_node client_id client_fd msg_idx cmd text = record {
  client_id = client_id;
  client_fd = client_fd;
  msg_idx = int_of_size msg_idx;
  status = success;
  type = command;
  cmd = cmd;
  n_data = 1;
  items = some (some text ∷ []);
}

-- An answer whose texts are all there, as it arrives.
abbrev pub delivered : Answer → List String → Message
delivered answer texts = record {
  status = answer.status;
  type = answer.type;
  cmd = answer.cmd;
  idx = answer.msg_idx;
  items = texts;
}

pub message_node_lem :
    (client_id client_fd : ℤ) (msg_idx : ℕ) (cmd : Cmd) (text : String)
    → message_node true true client_id client_fd (request_message msg_idx cmd text)
      ≡ some (request_node client_id client_fd msg_idx cmd text)
unfolding create_node copy_data
message_node_lem client_id client_fd msg_idx cmd text = refl

pub text_or-some : (text : String) (o : Option String) → (t : String) × (text_or text o ≡ some t)
text_or-some text none = (text, refl)
text_or-some text (some t) = (t, refl)

-- What a command comes to: one text, and the status.
pub executed :
    (world : World) (node : Node) (player : Player) (files : List String) (cur : ℕ)
    → node.type ≡ command
    → node.cmd ≢ cmd_count
    → Shows player.playlist files cur
    → 0 < length files
    → PrevText player.prev_resp
    → world.items_ok ≡ true
    → (e : Executed) × (t : String) × (execute_command world node player ≡ some e)
      × (e.items ≡ some (some t ∷ []))
unfolding execute_command execute_typed run_handler of_reply
executed world node player files cur type ne v some_file prev_text ok =
    let (handler, found, (r, answers)) =
      init_cmd_array-Answers node.cmd files cur success player world.now ne v some_file prev_text in
    let (t, text) = text_or-some "couldn't handle command\n" r.text in
    let run : run_handler world (init_cmd_array node.cmd) player ≡ some (of_reply r) =
      rw (found, run_handler) (rw answers refl) in
    (of_reply r, t, rw type (simp (ok, run)), ap (λ o. some (o ∷ [])) text)

abbrev pub good_attempt : Attempt
good_attempt = record { answer_ok = true; length_sending = went; answer_sending = went }

-- The answer to a node.
abbrev pub answer_to : Node → Status → List (Option String) → Answer
answer_to node status items = record {
  items = items;
  msg_idx = node.msg_idx;
  status = status;
  type = node.type;
  cmd = node.cmd;
}

abbrev pub answer_calls : Node → Status → List (Option String) → List Call
answer_calls node status items =
    send_length node.client_fd ∷ send_answer node.client_fd (answer_to node status items) ∷ []

-- The last calls of a round whose first attempt to answer succeeds.
pub after_command_sends :
    (world : World) (node : Node) (text : Option String) (e : Executed)
    (items : List (Option String))
    → e.items ≡ some items
    → world.attempts 0 ≡ good_attempt
    → (before : List Call) × ((after_command world node text e).1
        ≡ before ++ answer_calls node e.status items)
unfolding after_command answer_executed resend send_response send_part
after_command_sends world node text e items has good =
    let told =
      (send_broadcast_message world.net (e.player).client_pool text minus_one e.status
        node.cmd).1 in
    (
      e.calls ++ told,
      ap (λ i. (answer_executed world node text e i).1) has
          ∙ simp good (sym (append_assoc e.calls told (answer_calls node e.status items))),
    )

pub respond_sends :
    (world : World) (node : Node) (player : Player) (e : Executed) (text : Option String)
    (items : List (Option String))
    → first_entry node.items ≡ some text
    → execute_command world node player ≡ some e
    → e.items ≡ some items
    → world.attempts 0 ≡ good_attempt
    → (p : Player) × (before : List Call) × (respond world node player
        ≡ some (p, before ++ answer_calls node e.status items))
unfolding respond
respond_sends world node player e text items first runs has good =
    let (before, f) = after_command_sends world node text e items has good in
    let p = (after_command world node text e).0 in
    let done : respond world node player ≡ some (after_command world node text e) =
      rw (first, respond) (rw (runs, execute_command) refl) in
    (p, before, done ∙ ap (λ calls. some (p, calls)) f)

-- The node that a client makes of an answer with one text.
abbrev pub answer_node : ℤ → Answer → String → OpcNode
answer_node fd answer t = record {
  client_fd = fd;
  status = answer.status;
  type = answer.type;
  cmd = answer.cmd;
  msg_idx = answer.msg_idx;
  n_data = 1;
  items = some (some t ∷ []);
}

pub queue_answer_lem :
    (world : RecvWorld) (client : OpClient) (q : OpcQueue) (answer : Answer) (t : String)
    → world.node_ok ≡ true
    → world.data_ok ≡ true
    → client.cmd_queue ≡ some q
    → answer.type ≡ command
    → let r = (enqueue_node q (answer_node client.client_fd answer t)).1 in
      handle_message world client (delivered answer (t ∷ []))
      ≡ some (record client { cmd_queue = some r }, [])
unfolding handle_message handle_typed queue_answer put_answer enqueue create_opc_node copy_data
queue_answer_lem world client q answer t node_ok data_ok has type =
    simp (type, node_ok, data_ok, has)

pub nodes_accepted :
    (q : OpcQueue) (node : OpcNode)
    → q.size ≤ queue_size
    → (enqueue_node q node).1.nodes ≡ q.nodes ++ node ∷ []
nodes_accepted q node room = elim (nodes-enqueue q node) [
  | inl (_, _, e) ↦ e
  | inr (over, _) ↦ absurd (omega arith)
]

pub size_of_int-int_of_size : (n : ℕ) → n < 2 ^ 31 → size_of_int (int_of_size n) ≡ n
size_of_int-int_of_size n h = ground arith

pub not_later_self : (i : ℤ) → ltb_ℤ i i ≡ false
not_later_self i = ground arith

-- A client whose memory and connection hold.
abbrev pub good_sending : SendWorld
good_sending = record { data_ok = true; buf_ok = true; length_answer = sent; data_answer = sent }

-- The message of a command is sent as it stands.
pub send_command_sends :
    (client : OpClient) (cmd : Cmd) (err : ErrSend)
    → cmd ≢ cmd_count
    → (text : String) × (send_command good_sending client command cmd err
        ≡ some (
          true,
          err,
          send_length client.client_fd
              ∷ send_request client.client_fd (request_message client.msg_idx cmd text)
              ∷ [],
        ))
unfolding send_command send_message send_message_part prepare_send_message command_to_string
send_command_sends client cmd err ne =
    let (text, e) = init_cmd_array-Named cmd ne in (text, rw (e, send_command) refl)
