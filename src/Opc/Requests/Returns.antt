-- ===== src/Opc/Requests/Returns.antt =====
-- That a request of src/client/opc/opclient.c returns, and what it leaves of the client.
use odroid_player.Prelude.{
  ℕ, ◌+◌, ◌-◌, ◌%◌, length, ◌==◌, ◌≡◌, ◌≢◌, refl, subst, ap, inl, inr, ℤ, size_of_int, int_of_size,
  String, List, [], ◌∷◌, Option, none, some, Bool, true, false, All, arith, Bool-cases,
  Option-cases,
}
use odroid_player.Sys.{Call}
use odroid_player.Message.{
  CmdType, Cmd, nothing, play, stop, pause, next, prev, quit, seek, time, uri, ack, cmd_count,
}
use odroid_player.Queue.{Dequeued, taken, stopped, waiting, size_mod, enqueue as enqueue_node}
use odroid_player.Queue.Size.{IsWellFormed}
use odroid_player.Opc.{OpcNode, OpcQueue, OpClient, OpStatus}
use odroid_player.Opc.Queues.{conditional_loop, dequeue_conditional, later_next}
use odroid_player.Opc.Monitors.{get_monitor_play}
use odroid_player.Opc.Sending.{
  SendWorld, ErrSend, send_success, init_cmd_array, command_to_string, prepare_send_message,
  send_command,
}
use odroid_player.Opc.Waiting.{
  Visit, Response, answered, no_answer, unfinished, set_status, read_status, arrive, last_seen,
  after_dequeue, response_loop, new_status, opc_create_status, get_command_response,
  opc_set_timeout,
}
use odroid_player.Opc.Reception.Sound.{IsFilled, QueueSound, enqueue_node-QueueSound, IsSound}
use odroid_player.Opc.Requests.{RequestWorld, Requested, after_wait, after_send, counted, request}

-- What a queue is when it is there and sound.
abbrev pub Sound : OpcQueue → Type 0
Sound q = QueueSound (some q)

-- What arrives can be read in full, and the queues that a wait wakes to are sound.
abbrev pub SoundVisit : Visit → Type 0
SoundVisit v = All IsFilled v.arrived × All Sound v.wakes

-- A wait leaves a sound queue, and takes a node that can be read.
abbrev LeavesSound : Dequeued OpcNode → Type 0
LeavesSound (taken node q) = IsFilled node × Sound q
LeavesSound (stopped q) = Sound q
LeavesSound waiting = Unit {0}

conditional_loop-LeavesSound :
    (i : ℤ) (nodes : List OpcNode) (q : OpcQueue) (wakes : List OpcQueue)
    → q.nodes ≡ nodes
    → Sound q
    → All Sound wakes
    → LeavesSound (conditional_loop nodes q wakes i)
unfolding conditional_loop
conditional_loop-LeavesSound i (cur ∷ rest) q wakes e h k =
    let g = subst (All IsFilled) e h.1 in
    let same = ap length e in
    let wf : IsWellFormed q = h.0 in
    let shrunk : IsWellFormed
        (record q { nodes = rest; size = (q.size + (size_mod - 1)) % size_mod }) =
      record { counted = omega (arith, same); bounded = omega (arith, same) } in
    elim (Bool-cases (later_next rest i)) [
      | inl late ↦ rw late h
      | inr fine ↦ rw fine (g.0, (shrunk, g.1))
    ]
conditional_loop-LeavesSound i [] q [] e h k = tt
conditional_loop-LeavesSound i [] q (w ∷ wakes) e h k = elim (Bool-cases w.running) [
  | inl on ↦ simp on (conditional_loop-LeavesSound i w.nodes w wakes refl k.0 k.1)
  | inr off ↦ simp off k.0
]

arrive-Sound :
    (nodes : List OpcNode) (q : OpcQueue) → All IsFilled nodes → Sound q → Sound (arrive nodes q)
unfolding arrive
arrive-Sound [] q h k = k
arrive-Sound (node ∷ nodes) q h k =
    arrive-Sound nodes (enqueue_node q node).1 h.1 (enqueue_node-QueueSound q node k h.0)

last_seen-Sound :
    (q : OpcQueue) (wakes : List OpcQueue)
    → Sound q
    → All Sound wakes
    → QueueSound (last_seen (some q) wakes)
last_seen-Sound q [] h k = h
last_seen-Sound q (w ∷ wakes) h k = last_seen-Sound w wakes k.0 k.1

-- The queue that a response leaves is sound; there is a response.
abbrev Leaves : Option Response → Type 0
Leaves none = ⊥
Leaves (some (answered s q)) = QueueSound q
Leaves (some (no_answer q)) = QueueSound q
Leaves (some (unfinished q)) = QueueSound q

read_status-Leaves :
    (data_ok : Bool) (status : OpStatus) (node : OpcNode) (q : OpcQueue)
    → IsFilled node
    → Sound q
    → Leaves (read_status (set_status data_ok status node) q)
unfolding read_status set_status
read_status-Leaves true status node q h k = rw h.1 k
read_status-Leaves false status node q h k = k

after_dequeue-Leaves :
    (data_ok : Bool) (msg_idx : ℕ) (status : OpStatus) (seen : Option OpcQueue)
    (again : OpcQueue → Option Response) (d : Dequeued OpcNode)
    → LeavesSound d
    → QueueSound seen
    → ((r : OpcQueue) → Sound r → Leaves (again r))
    → Leaves (after_dequeue data_ok msg_idx status seen again (some d))
unfolding after_dequeue
after_dequeue-Leaves data_ok msg_idx status seen again waiting h k later = k
after_dequeue-Leaves data_ok msg_idx status seen again (stopped q) h k later = h
after_dequeue-Leaves data_ok msg_idx status seen again (taken node q) h k later =
    elim (Bool-cases (size_of_int node.msg_idx == msg_idx)) [
      | inl same ↦ rw same (read_status-Leaves data_ok status node q h.0 h.1)
      | inr other ↦ rw other (later q h.1)
    ]

response_loop-Leaves :
    (data_ok : Bool) (msg_idx : ℕ) (status : OpStatus) (visits : List Visit) (q : OpcQueue)
    → Sound q
    → All SoundVisit visits
    → Leaves (response_loop data_ok msg_idx status visits (some q))
unfolding response_loop dequeue_conditional
response_loop-Leaves data_ok msg_idx status [] q h k = h
response_loop-Leaves data_ok msg_idx status (v ∷ visits) q h k =
    let w = arrive v.arrived q in
    let fine = arrive-Sound v.arrived q k.0.0 h in
    elim (Bool-cases (get_monitor_play v.monitor)) [
      | inr off ↦ rw off fine
      | inl on ↦ rw on (
          after_dequeue-Leaves data_ok msg_idx status _ _ _
            (conditional_loop-LeavesSound (int_of_size msg_idx) w.nodes w v.wakes refl fine k.0.1)
            (last_seen-Sound w v.wakes fine k.0.1)
            (λ r g. response_loop-Leaves data_ok msg_idx status visits r g k.1))
    ]

get_command_response-Leaves :
    (status_ok data_ok : Bool) (visits : List Visit) (client : OpClient) (queue : Option OpcQueue)
    → client.cmd_queue ≡ queue
    → QueueSound queue
    → All SoundVisit visits
    → Leaves (get_command_response status_ok data_ok visits client)
unfolding get_command_response opc_create_status
get_command_response-Leaves false data_ok visits client queue e h k = rw e h
get_command_response-Leaves true data_ok visits client none e h k = elim h [ ]
get_command_response-Leaves true data_ok visits client (some q) e h k =
    rw e (response_loop-Leaves data_ok client.msg_idx new_status visits q h k)

-- Every command of the protocol has a name.
pub init_cmd_array-Named :
    (cmd : Cmd) → cmd ≢ cmd_count → (text : String) × (init_cmd_array cmd ≡ some text)
unfolding init_cmd_array
init_cmd_array-Named nothing h = (_, refl)
init_cmd_array-Named play h = (_, refl)
init_cmd_array-Named stop h = (_, refl)
init_cmd_array-Named pause h = (_, refl)
init_cmd_array-Named next h = (_, refl)
init_cmd_array-Named prev h = (_, refl)
init_cmd_array-Named quit h = (_, refl)
init_cmd_array-Named seek h = (_, refl)
init_cmd_array-Named time h = (_, refl)
init_cmd_array-Named uri h = (_, refl)
init_cmd_array-Named ack h = (_, refl)
init_cmd_array-Named cmd_count h = absurd (h refl)

send_command_returns :
    (world : SendWorld) (client : OpClient) (type : CmdType) (cmd : Cmd) (err : ErrSend)
    → cmd ≢ cmd_count
    → (sent : Bool × ErrSend × List Call) × (send_command world client type cmd err ≡ some sent)
unfolding send_command prepare_send_message command_to_string
send_command_returns world client type cmd err h =
    let (text, e) = init_cmd_array-Named cmd h in
    elim (Option-cases (send_command world client type cmd err)) [
      | inl fault ↦ absurd (ground (arith, e))
      | inr sent ↦ sent
    ]

-- A request that returns leaves a sound client with the next index.
abbrev pub Returns : ℕ → Requested → Type 0
Returns msg_idx none = ⊥
Returns msg_idx (some (status, c, calls)) = IsSound c × (c.msg_idx ≡ msg_idx)

after_wait-Returns :
    (client : OpClient) (calls : List Call) (response : Option Response)
    → IsSound client
    → Leaves response
    → Returns client.msg_idx (after_wait client calls response)
unfolding after_wait opc_set_timeout
after_wait-Returns client calls none v h = h
after_wait-Returns client calls (some (answered s q)) v h =
    (record { watched = v.watched; msg_sound = v.msg_sound; cmd_sound = h }, refl)
after_wait-Returns client calls (some (no_answer q)) v h =
    (record { watched = v.watched; msg_sound = v.msg_sound; cmd_sound = h }, refl)
after_wait-Returns client calls (some (unfinished q)) v h =
    (record { watched = v.watched; msg_sound = v.msg_sound; cmd_sound = h }, refl)

after_send-Returns :
    (world : RequestWorld) (client : OpClient) (sent : Bool × ErrSend × List Call)
    → IsSound client
    → All SoundVisit world.visits
    → Returns client.msg_idx (after_send world client (some sent))
unfolding after_send
after_send-Returns world client (false, err, calls) v h = (v, refl)
after_send-Returns world client (true, err, calls) v h = after_wait-Returns client calls _ v (
    get_command_response-Leaves world.status_ok world.data_ok world.visits client client.cmd_queue
      refl v.cmd_sound h)

-- A request of a sound client for a command of the protocol returns, whatever the system answers and
-- whether an answer comes or the alarm ends the wait: no assertion fails and nothing is read through
-- NULL. The client stays sound, and its index is the next one.
pub request-Returns :
    (type : CmdType) (cmd : Cmd) (world : RequestWorld) (client : OpClient)
    → cmd ≢ cmd_count
    → IsSound client
    → All SoundVisit world.visits
    → Returns ((client.msg_idx + 1) % size_mod) (request type cmd world client)
unfolding request
request-Returns type cmd world client ne v h =
    let (sent, e) = send_command_returns world.sending (counted client) type cmd send_success ne in
    rw (e, request)
      (after_send-Returns world (counted client) sent
        (record { watched = v.watched; msg_sound = v.msg_sound; cmd_sound = v.cmd_sound }) h)
