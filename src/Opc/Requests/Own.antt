-- ===== src/Opc/Requests/Own.antt =====
-- Whose answer a request of src/client/opc/opclient.c returns.
use odroid_player.Prelude.{
  ℕ, ◌+◌, ◌-◌, ◌%◌, ◌^◌, ◌≤◌, ◌<◌, ◌≡◌, refl, subst, ◌∙◌, ℤ, pos, negsuc, size_of_int, int_of_size,
  String, List, [], ◌∷◌, Option, none, some, Bool, true, false, All, arith,
}
use odroid_player.Sys.{Call, send_length, send_request}
use odroid_player.Message.{success, CmdType, Cmd}
use odroid_player.Queue.{size_mod}
use odroid_player.Opc.{OpcNode, OpcQueue, OpClient, OpStatus}
use odroid_player.Opc.Sending.{
  SendWorld, ErrSend, send_success, init_cmd_array, command_to_string, prepare_send_message,
  send_message_part, send_message, send_command,
}
use odroid_player.Opc.Queues.{dequeue_conditional}
use odroid_player.Opc.Waiting.{
  Visit, Response, answered, no_answer, unfinished, set_status, after_dequeue, response_loop,
  new_status, opc_create_status, get_command_response, opc_set_timeout,
}
use odroid_player.Opc.Waiting.Sources.{VisitHolds, QueueHolds, get_command_response-From}
use odroid_player.Opc.Requests.{RequestWorld, after_wait, after_send, counted, request}

abbrev pub queue_list : Option OpcQueue → List OpcQueue
queue_list none = []
queue_list (some q) = q ∷ []

-- What holds of the node that an answered request has read, and of the status made of it.
abbrev pub Own {κ} : (OpcNode → Type κ) → ℕ → OpStatus → Type κ
Own P msg_idx s =
    (node : OpcNode) × P node
    × (size_of_int node.msg_idx ≡ msg_idx)
    × (s.msg_idx ≡ msg_idx)
    × (s.status ≡ node.status)

set_status-fields :
    (data_ok : Bool) (new : OpStatus) (node : OpcNode) (s : OpStatus)
    → set_status data_ok new node ≡ some (true, s)
    → (s.msg_idx ≡ size_of_int node.msg_idx) × (s.status ≡ node.status)
unfolding set_status
set_status-fields data_ok new node s e = ground arith

no_queue :
    (data_ok : Bool) (msg_idx : ℕ) (new : OpStatus) (visits : List Visit) (s : OpStatus)
    (left : Option OpcQueue)
    → ¬ (response_loop data_ok msg_idx new visits none ≡ some (answered s left))
unfolding response_loop after_dequeue dequeue_conditional
no_queue data_ok msg_idx new [] s left e = ground arith
no_queue data_ok msg_idx new (v ∷ visits) s left e = ground arith

sent_calls :
    (world : SendWorld) (client : OpClient) (type : CmdType) (cmd : Cmd) (err e : ErrSend)
    (calls : List Call)
    → send_command world client type cmd err ≡ some (true, e, calls)
    → (text : String) × (init_cmd_array cmd ≡ some text)
      × (calls
          ≡ send_length client.client_fd
            ∷ send_request client.client_fd (record {
              status = success;
              type = type;
              cmd = cmd;
              idx = int_of_size client.msg_idx;
              items = text ∷ [];
            })
            ∷ [])
unfolding send_command send_message prepare_send_message send_message_part command_to_string
sent_calls world client type cmd err e calls h = ground arith

-- Any status that a response carries is the request's own.
response-Own :
    (P : OpcNode → Type 0) (status_ok data_ok : Bool) (visits : List Visit) (client : OpClient)
    (queue left : Option OpcQueue) (s : OpStatus)
    → client.cmd_queue ≡ queue
    → All (QueueHolds P) (queue_list queue)
    → All (VisitHolds P) visits
    → get_command_response status_ok data_ok visits client ≡ some (answered s left)
    → Own P client.msg_idx s
unfolding get_command_response opc_create_status
response-Own P false data_ok visits client queue left s has h k e = ground arith
response-Own P true data_ok visits client none left s has h k e = absurd (
    no_queue data_ok client.msg_idx new_status visits s left (
      subst (λ o. response_loop data_ok client.msg_idx new_status visits o ≡ some (answered s left))
        has e))
response-Own P true data_ok visits client (some q) left s has h k e =
    let (node, p, same, made) =
      get_command_response-From P data_ok visits client q s left has h.0 k e in
    let (f, g) = set_status-fields data_ok new_status node s made in (node, p, same, f ∙ same, g)

after_wait-inverted :
    (client c : OpClient) (sent calls : List Call) (s : OpStatus) (response : Option Response)
    → after_wait client sent response ≡ some (some s, c, calls)
    → (left : Option OpcQueue) × (response ≡ some (answered s left))
      × (c.msg_idx ≡ client.msg_idx)
      × (calls ≡ sent)
unfolding after_wait opc_set_timeout
after_wait-inverted client c sent calls s none h = ground arith
after_wait-inverted client c sent calls s (some (answered t q)) h =
    (q, ground arith, ground arith, ground arith)
after_wait-inverted client c sent calls s (some (no_answer q)) h = ground arith
after_wait-inverted client c sent calls s (some (unfinished q)) h = ground arith

after_send-inverted :
    (world : RequestWorld) (client c : OpClient) (s : OpStatus) (calls : List Call)
    (sent : Option (Bool × ErrSend × List Call))
    → after_send world client sent ≡ some (some s, c, calls)
    → (e : ErrSend) × (left : Option OpcQueue) × (sent ≡ some (true, e, calls))
      × (get_command_response world.status_ok world.data_ok world.visits client
          ≡ some (answered s left))
      × (c.msg_idx ≡ client.msg_idx)
unfolding after_send
after_send-inverted world client c s calls none h = ground arith
after_send-inverted world client c s calls (some (false, e, sent)) h = ground arith
after_send-inverted world client c s calls (some (true, e, sent)) h =
    let (left, f, g, k) = after_wait-inverted client c sent calls s _ h in
    (e, left, rw k refl, f, g)

-- A request that returns a status has sent its length and then itself, with the name of its command
-- and the next index of the client, and the status is made of a node with just that index, which the
-- client keeps. The queue held nodes of which P holds, and so did what arrived: P holds of this node.
pub request-Own :
    (P : OpcNode → Type 0) (type : CmdType) (cmd : Cmd) (world : RequestWorld) (client c : OpClient)
    (s : OpStatus) (calls : List Call)
    → All (QueueHolds P) (queue_list client.cmd_queue)
    → All (VisitHolds P) world.visits
    → request type cmd world client ≡ some (some s, c, calls)
    → let msg_idx = (client.msg_idx + 1) % size_mod in
      Own P msg_idx s
      × (c.msg_idx ≡ msg_idx)
      × ((text : String) × (init_cmd_array cmd ≡ some text)
          × (calls
              ≡ send_length client.client_fd
                ∷ send_request client.client_fd (record {
                  status = success;
                  type = type;
                  cmd = cmd;
                  idx = int_of_size msg_idx;
                  items = text ∷ [];
                })
                ∷ []))
unfolding request
request-Own P type cmd world client c s calls h k e =
    let (err, left, sent, got, same) = after_send-inverted world (counted client) c s calls _ e in
    (
      response-Own P world.status_ok world.data_ok world.visits (counted client) client.cmd_queue
          left s refl h k got,
      same,
      sent_calls world.sending (counted client) type cmd send_success err calls sent,
    )

-- The index of a node is an `int`, as what comes from the server is.
abbrev pub InInt : ℤ → Type 0
InInt (pos n) = n < 2 ^ 31
InInt (negsuc n) = n < 2 ^ 31

abbrev pub IsInt : OpcNode → Type 0
IsInt node = InInt node.msg_idx

far_from_int : (i : ℤ) (n : ℕ) → InInt i → 2 ^ 31 ≤ n → n < 2 ^ 64 - 2 ^ 31 → ¬ (size_of_int i ≡ n)
far_from_int (pos k) n h low high e = omega arith
far_from_int (negsuc k) n h low high e = omega arith

-- From the index 2 ^ 31 on, as long as it is not within 2 ^ 31 of the end of `size_t`, no request
-- returns a status, whatever the server answers: an index of an answer is an `int`, and the
-- comparison with the counter, a `size_t`, fails for each of them.
pub request_after_int :
    (type : CmdType) (cmd : Cmd) (world : RequestWorld) (client c : OpClient) (s : OpStatus)
    (calls : List Call)
    → All (QueueHolds IsInt) (queue_list client.cmd_queue)
    → All (VisitHolds IsInt) world.visits
    → 2 ^ 31 ≤ client.msg_idx + 1
    → client.msg_idx + 1 < 2 ^ 64 - 2 ^ 31
    → ¬ (request type cmd world client ≡ some (some s, c, calls))
request_after_int type cmd world client c s calls h k low high e =
    let ((node, int, same, _, _), _, _) = request-Own IsInt type cmd world client c s calls h k e in
    far_from_int node.msg_idx (client.msg_idx + 1) int low high (omega (arith, same))
