-- ===== src/Exchange/RoundTrip.antt =====
-- The way of a request to the server and of its answer back to the client, put together from the
-- halves of Exchange.antt.
use odroid_player.Prelude.{
  ℕ, ◌≤◌, ◌<◌, ◌^◌, ◌≡◌, ◌≢◌, refl, sym, subst, ap, ◌∙◌, ltb_ℤ, ℤ, size_of_int, int_of_size, String,
  List, [], ◌∷◌, ◌++◌, length, Option, some, true, false, All, All-append,
}
use odroid_player.Sys.{Call, send_length}
use odroid_player.Message.{Status, command, Cmd, cmd_count, Answer, copy_data}
use odroid_player.Queue.{queue_size, enqueue as enqueue_node}
use odroid_player.Playlist.Valid.{Shows}
use odroid_player.Player.{Player}
use odroid_player.Command.Moves.{PrevText}
use odroid_player.Server.{message_node}
use odroid_player.Response.{World, Executed, execute_command, respond}
use odroid_player.Opc.{OpcQueue, OpClient, OpStatus}
use odroid_player.Opc.Queues.Conditional.{NotLater}
use odroid_player.Opc.Waiting.{Visit, Response, answered, get_command_response}
use odroid_player.Opc.Waiting.Answers.{Quiet, Stale, get_command_response-Answers}
use odroid_player.Opc.Reception.{RecvWorld}
use odroid_player.Opc.Receiver.{handle_message}
use odroid_player.Exchange.{
  request_message, request_node, delivered, message_node_lem, executed, good_attempt, answer_to,
  answer_calls, respond_sends, answer_node, queue_answer_lem, nodes_accepted,
  size_of_int-int_of_size, not_later_self, good_sending, send_command_sends,
}
use odroid_player.Opc.Sending.{ErrSend, send_command}
use odroid_player.Sys.{send_request}

-- What comes back to a client: the status of a request, made of the answer.
abbrev pub Replies : ℕ → Status → String → Option Response → Type 0
Replies msg_idx status t response =
    (s : OpStatus) × (left : OpcQueue) × (response ≡ some (answered s (some left)))
    × (s.msg_idx ≡ msg_idx)
    × (s.status ≡ status)
    × (s.items ≡ some (some t ∷ []))

-- The client's half: an answer that has arrived is found.
pub answer-Replies :
    (world : RecvWorld) (client : OpClient) (q : OpcQueue) (answer : Answer) (t : String)
    (visits : List Visit)
    → world.node_ok ≡ true
    → world.data_ok ≡ true
    → client.cmd_queue ≡ some q
    → q.size ≤ queue_size
    → answer.type ≡ command
    → client.msg_idx < 2 ^ 31
    → answer.msg_idx ≡ int_of_size client.msg_idx
    → All (NotLater (int_of_size client.msg_idx)) q.nodes
    → All (Stale client.msg_idx) q.nodes
    → All (Quiet client.msg_idx) visits
    → length q.nodes < length visits
    → (c : OpClient) × (handle_message world client (delivered answer (t ∷ [])) ≡ some (c, []))
      × Replies client.msg_idx answer.status t (get_command_response true true visits c)
unfolding copy_data
answer-Replies world client q answer t visits node_ok data_ok has room type low same not_later stale
      quiet enough =
    let node = answer_node client.client_fd answer t in
    let r = (enqueue_node q node).1 in
    let c : OpClient = record client { cmd_queue = some r } in
    let own : size_of_int answer.msg_idx ≡ client.msg_idx =
      ap size_of_int same ∙ size_of_int-int_of_size client.msg_idx low in
    let now : ltb_ℤ (int_of_size client.msg_idx) answer.msg_idx ≡ false =
      subst (λ i. ltb_ℤ (int_of_size client.msg_idx) i ≡ false) (sym same)
        (not_later_self (int_of_size client.msg_idx)) in
    let (s, left, kept, done, e, f, g, _) =
      get_command_response-Answers c r q.nodes node [] (some t ∷ []) visits refl
        (nodes_accepted q node room) (All-append _ q.nodes _ not_later (now, tt)) stale own refl
        quiet enough in
    (c, queue_answer_lem world client q answer t node_ok data_ok has type, (s, left, done, e, f, g))

-- A command goes to the server and its answer comes back. For a request with an index below 2 ^ 31,
-- of a command of the protocol, with files in the playlist: its message is sent with its index and a text;
-- the node that the server makes of it is run and answered, by the last calls of the round when the first attempt succeeds; when
-- that answer arrives at a client with room in its queue and only answers to earlier requests in it,
-- the wait returns a status with the index of the request, and with the status and the one text that
-- the command returned at the server.
pub exchange-Replies :
    (world : World) (player : Player) (files : List String) (cur : ℕ) (client_id client_fd : ℤ)
    (cmd : Cmd) (err : ErrSend) (receiving : RecvWorld) (client : OpClient) (q : OpcQueue)
    (visits : List Visit)
    → cmd ≢ cmd_count
    → Shows player.playlist files cur
    → 0 < length files
    → PrevText player.prev_resp
    → world.items_ok ≡ true
    → world.attempts 0 ≡ good_attempt
    → receiving.node_ok ≡ true
    → receiving.data_ok ≡ true
    → client.cmd_queue ≡ some q
    → q.size ≤ queue_size
    → client.msg_idx < 2 ^ 31
    → All (NotLater (int_of_size client.msg_idx)) q.nodes
    → All (Stale client.msg_idx) q.nodes
    → All (Quiet client.msg_idx) visits
    → length q.nodes < length visits
    → (text : String) × let node = request_node client_id client_fd client.msg_idx cmd text in
        (send_command good_sending client command cmd err
          ≡ some (
            true,
            err,
            send_length client.client_fd
                ∷ send_request client.client_fd (request_message client.msg_idx cmd text)
                ∷ [],
          ))
        × (message_node true true client_id client_fd (request_message client.msg_idx cmd text)
            ≡ some node)
        × ((e : Executed) × (t : String) × (p : Player) × (before : List Call) × (c : OpClient)
            × (execute_command world node player ≡ some e)
            × (e.items ≡ some (some t ∷ []))
            × (respond world node player
                ≡ some (p, before ++ answer_calls node e.status (some t ∷ [])))
            × (handle_message receiving client
                  (delivered (answer_to node e.status (some t ∷ [])) (t ∷ []))
                ≡ some (c, []))
            × Replies client.msg_idx e.status t (get_command_response true true visits c))
exchange-Replies world player files cur client_id client_fd cmd err receiving client q visits ne v
      some_file prev_text ok good node_ok data_ok has room low not_later stale quiet enough =
    let (text, sent) = send_command_sends client cmd err ne in
    let node = request_node client_id client_fd client.msg_idx cmd text in
    let (e, t, runs, items) =
      executed world node player files cur refl ne v some_file prev_text ok in
    let (p, before, sends) =
      respond_sends world node player e (some text) (some t ∷ []) refl runs items good in
    let (c, taken, replies) =
      answer-Replies receiving client q (answer_to node e.status (some t ∷ [])) t visits node_ok
        data_ok has room refl low refl not_later stale quiet enough in
    (
      text,
      (
        sent,
        message_node_lem client_id client_fd client.msg_idx cmd text,
        (e, t, p, before, c, runs, items, sends, taken, replies),
      ),
    )
