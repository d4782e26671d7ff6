-- ===== src/Opc/Waiting.antt =====
-- src/client/opc/response/response.c and src/client/opc/opc_utils.c: how a request waits for its
-- answer, and how the wait is cut off. The threads share the queue, so the loop runs over visits to
-- it: each says what the monitor shows, what has arrived since, and what the wake-ups find. The
-- visits are those of the EXECUTE_TIMEOUT seconds: a loop that outlasts them is ended by the alarm.
pub mod Answers
pub mod Sources
use odroid_player.Prelude.{
  ℕ, zero, suc, ◌==◌, ℤ, size_of_int, int_of_size, String, List, [], ◌∷◌, Option, none, some, Bool,
  true, false, not, if◌then◌else◌,
}
use odroid_player.Message.{success, command, nothing, copy_data}
use odroid_player.Queue.{Dequeued, taken, stopped, waiting, enqueue as enqueue_node}
use odroid_player.Opc.{OpcNode, OpcQueue, Monitor, OpClient, OpStatus}
use odroid_player.Opc.Queues.{dequeue, dequeue_conditional}
use odroid_player.Opc.Monitors.{get_monitor_play}

abbrev pub execute_timeout : ℕ
execute_timeout = 5

abbrev pub new_status : OpStatus
new_status = record {
  status = success;
  type = command;
  cmd = nothing;
  msg_idx = 0;
  n_data = 0;
  items = none;
}

unfoldable pub opc_create_status : Bool → Option OpStatus
opc_create_status false = none
opc_create_status true = some new_status

-- `node->data[i]` for i below `n_data`: none where `data` is NULL and there is an i.
abbrev pub read_data : ℕ → Option (List (Option String)) → Option (List (Option String))
read_data zero items = some []
read_data (suc n) none = none
read_data (suc n) (some xs) = some (copy_data (suc n) xs)

-- False without memory for the data; no result where the code reads through NULL.
unfoldable pub set_status : Bool → OpStatus → OpcNode → Option (Bool × OpStatus)
set_status data_ok status node =
    let told : OpStatus = record status {
      status = node.status;
      type = node.type;
      cmd = node.cmd;
      msg_idx = size_of_int node.msg_idx;
      n_data = node.n_data;
      items = none;
    } in
    if not data_ok then some (false, told) else (elim (read_data node.n_data node.items) [
      | none ↦ none
      | some xs ↦ some (true, record told { items = some xs })
    ])

-- One turn of the loop: the monitor, the nodes that the receiver has queued before it, and the
-- wake-ups inside it.
pub record Visit : Type 0 where
  pub monitor : Option Monitor
  pub arrived : List OpcNode
  pub wakes : List OpcQueue

-- What is returned, and the queue then; `unfinished` is still waiting.
pub data Response : Type 0 where
  answered : OpStatus → Option OpcQueue → Response
  no_answer : Option OpcQueue → Response
  unfinished : Option OpcQueue → Response

unfoldable pub arrive : List OpcNode → OpcQueue → OpcQueue
arrive [] q = q
arrive (node ∷ nodes) q = arrive nodes (enqueue_node q node).1

abbrev pub queue_found : List OpcNode → Option OpcQueue → Option OpcQueue
queue_found nodes none = none
queue_found nodes (some q) = some (arrive nodes q)

-- The queue as a thread that still sleeps has seen it last.
abbrev pub last_seen : Option OpcQueue → List OpcQueue → Option OpcQueue
last_seen q [] = q
last_seen q (w ∷ wakes) = last_seen (some w) wakes

-- The node with the index of the request ends the loop, with its data or without memory for it.
unfoldable pub read_status : Option (Bool × OpStatus) → OpcQueue → Option Response
read_status none q = none
read_status (some (true, status)) q = some (answered status (some q))
read_status (some (false, status)) q = some (no_answer (some q))

-- What the loop does with the node that it is given: `again` is the next turn.
unfoldable pub after_dequeue :
    Bool
    → ℕ
    → OpStatus
    → Option OpcQueue
    → (OpcQueue → Option Response)
    → Option (Dequeued OpcNode)
    → Option Response
unfolding read_status
after_dequeue data_ok msg_idx status seen again none = none
after_dequeue data_ok msg_idx status seen again (some waiting) = some (unfinished seen)
after_dequeue data_ok msg_idx status seen again (some (stopped q)) = some (no_answer (some q))
after_dequeue data_ok msg_idx status seen again (some (taken node q)) =
    let next = again q in
    if size_of_int node.msg_idx == msg_idx
    then read_status (set_status data_ok status node) q
    else next

unfoldable pub response_loop : Bool → ℕ → OpStatus → List Visit → Option OpcQueue → Option Response
unfolding after_dequeue
response_loop data_ok msg_idx status [] queue = some (unfinished queue)
response_loop data_ok msg_idx status (v ∷ visits) queue =
    let found = queue_found v.arrived queue in
    let next =
      after_dequeue data_ok msg_idx status (last_seen found v.wakes)
        (λ q. response_loop data_ok msg_idx status visits (some q))
        (dequeue_conditional found v.wakes (int_of_size msg_idx)) in
    if not (get_monitor_play v.monitor) then some (no_answer found) else next

-- No result is a failed assertion, or a read through NULL.
unfoldable pub get_command_response : Bool → Bool → List Visit → OpClient → Option Response
unfolding response_loop
get_command_response status_ok data_ok visits client = elim (opc_create_status status_ok) [
  | none ↦ some (no_answer client.cmd_queue)
  | some status ↦ response_loop data_ok client.msg_idx status visits client.cmd_queue
]

unfoldable pub get_message_response : Bool → Bool → List OpcQueue → OpClient → Option Response
unfolding read_status
get_message_response status_ok data_ok wakes client = elim (opc_create_status status_ok) [
  | none ↦ some (no_answer client.msg_queue)
  | some status ↦ elim (dequeue client.msg_queue wakes) [
    | none ↦ none
    | some waiting ↦ some (unfinished (last_seen client.msg_queue wakes))
    | some (stopped q) ↦ some (no_answer (some q))
    | some (taken node q) ↦ read_status (set_status data_ok status node) q
  ]
]

-- The alarm ends a wait that goes on; the status is NULL then.
unfoldable pub opc_set_timeout : Response → Option OpStatus × Option OpcQueue
opc_set_timeout (answered status q) = (some status, q)
opc_set_timeout (no_answer q) = (none, q)
opc_set_timeout (unfinished q) = (none, q)

-- `joined` is what the join answers before the alarm, none when the alarm rings first.
unfoldable pub opc_thread_timeout : Option ℤ → ℤ → ℤ
opc_thread_timeout none errno = errno
opc_thread_timeout (some ret) errno = ret
