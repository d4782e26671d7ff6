-- ===== src/Opc/Reception/Sound.antt =====
-- What the receiving of one message by src/client/opc/receive/receive.c keeps of the client, the
-- loss of the connection included.
use odroid_player.Prelude.{
  ℕ, zero, suc, ◌≡◌, refl, sym, subst, inl, inr, ℤ, String, List, [], ◌∷◌, ◌++◌, length, Option,
  none, some, Bool, true, false, All, All-append, arith, Bool-cases,
}
use odroid_player.Sys.{Call}
use odroid_player.Message.{Status, eserver, reconnt, CmdType, Cmd}
use odroid_player.Queue.{enqueue as enqueue_node}
use odroid_player.Queue.Size.{IsWellFormed, enqueue-IsWellFormed, nodes-enqueue}
use odroid_player.Server.{message_items}
use odroid_player.Opc.{OpcNode, OpcQueue, OpClient, Monitor}
use odroid_player.Opc.Queues.{create_node, enqueue, flush_queue}
use odroid_player.Opc.Monitors.{set_queue, set_monitor}
use odroid_player.Opc.Connection.{ConnectAnswer, opc_connect}
use odroid_player.Opc.Waiting.{read_data}
use odroid_player.Opc.Reception.{
  ErrRecv, err_recv_timeout, err_recv_closed, err_recv_internal, err_recv_unpack, recv_success,
  RecvWorld, Kept, Turned, flushed, keep_notice, enqueue_notice, notice_reconnect, found_again,
  after_connect, after_lost, reconnect, receive_failed, receive_message_length,
  receive_message_data, receive_message,
}

abbrev pub IsSomeRead : Option (List (Option String)) → Type 0
IsSomeRead read = (xs : List (Option String)) × (read ≡ some xs)

-- A node whose data can be read, for all its `n_data` entries.
abbrev pub IsFilled : OpcNode → Type 0
IsFilled node = IsSomeRead (read_data node.n_data node.items)

-- A queue that is there, with its size right and with such nodes.
abbrev pub QueueSound : Option OpcQueue → Type 0
QueueSound none = ⊥
QueueSound (some q) = IsWellFormed q × All IsFilled q.nodes

-- A prepared client.
pub record IsSound (c : OpClient) : Type 0 where
  pub watched : (m : Monitor) × (c.monitor ≡ some m)
  pub msg_sound : QueueSound c.msg_queue
  pub cmd_sound : QueueSound c.cmd_queue

unfoldable pub NodeFilled : Option OpcNode → Type 0
NodeFilled none = Unit {0}
NodeFilled (some node) = IsFilled node

read_data_full : (n : ℕ) (items : List (Option String)) → IsSomeRead (read_data n (some items))
read_data_full zero items = ([], refl)
read_data_full (suc n) items = (_, refl)

pub create_node-Filled :
    (node_ok data_ok : Bool) (fd : ℤ) (status : Status) (type : CmdType) (cmd : Cmd) (idx : ℤ)
    (n : ℕ) (items : Option (List (Option String)))
    → IsSomeRead (read_data n items)
    → NodeFilled (create_node node_ok data_ok fd status type cmd idx n items)
unfolding create_node NodeFilled
create_node-Filled false data_ok fd status type cmd idx n items h = tt
create_node-Filled true data_ok fd status type cmd idx n none h = h
create_node-Filled true true fd status type cmd idx n (some xs) h = read_data_full n _
create_node-Filled true false fd status type cmd idx n (some xs) h = tt

pub items_read : (items : List String) → IsSomeRead (read_data (length items) (message_items items))
items_read [] = ([], refl)
items_read (x ∷ xs) = (_, refl)

-- What `enqueue` leaves of a sound queue.
unfoldable pub EnqueueSound : Option (Bool × OpcQueue) → Type 0
EnqueueSound none = Unit {0}
EnqueueSound (some (done, q)) = QueueSound (some q)

pub enqueue_node-QueueSound :
    (q : OpcQueue) (node : OpcNode)
    → QueueSound (some q)
    → IsFilled node
    → QueueSound (some (enqueue_node q node).1)
enqueue_node-QueueSound q node h k = (
  enqueue-IsWellFormed q node h.0,
  elim (nodes-enqueue q node) [
    | inl (_, _, e) ↦ subst (All IsFilled) (sym e) (All-append IsFilled q.nodes _ h.1 (k, tt))
    | inr (_, e) ↦ subst (λ r. All IsFilled r.1.nodes) (sym e) h.1
  ],
)

pub enqueue-QueueSound :
    (queue : Option OpcQueue) (made : Option OpcNode)
    → QueueSound queue
    → NodeFilled made
    → EnqueueSound (enqueue queue made)
unfolding enqueue NodeFilled EnqueueSound
enqueue-QueueSound none made h k = tt
enqueue-QueueSound (some q) none h k = tt
enqueue-QueueSound (some q) (some node) h k = enqueue_node-QueueSound q node h k

-- What an operation leaves of the client, where it returns.
abbrev pub KeepsSound {ℓ} : {A : Type ℓ} → Option (OpClient × A) → Type 0
KeepsSound none = Unit
KeepsSound (some (c, a)) = IsSound c

abbrev pub KeepsSoundWith {ℓ κ} : {A : Type ℓ} {B : Type κ} → Option (A × OpClient × B) → Type 0
KeepsSoundWith none = Unit
KeepsSoundWith (some (a, c, b)) = IsSound c

set_queue-QueueSound :
    (play : Bool) (queue : Option OpcQueue) → QueueSound queue → QueueSound (set_queue play queue).0
unfolding set_queue
set_queue-QueueSound play none h = h
set_queue-QueueSound play (some q) h =
    (record { counted = h.0.counted; bounded = h.0.bounded }, h.1)

pub set_monitor-IsSound :
    (client : OpClient) (play : Bool) (status : Status)
    → IsSound client
    → IsSound (set_monitor client play status).0
unfolding set_monitor
set_monitor-IsSound client play status v = rw v.watched.1 (record {
  watched = (_, refl);
  msg_sound = set_queue-QueueSound play client.msg_queue v.msg_sound;
  cmd_sound = set_queue-QueueSound play client.cmd_queue v.cmd_sound;
})

keep_notice-KeepsSound :
    (client : OpClient) (put : Option (Bool × OpcQueue))
    → IsSound client
    → EnqueueSound put
    → KeepsSound (keep_notice client put)
unfolding keep_notice flushed flush_queue EnqueueSound
keep_notice-KeepsSound client none v h = tt
keep_notice-KeepsSound client (some (true, q)) v h = record {
  watched = v.watched;
  msg_sound = h;
  cmd_sound = v.cmd_sound;
}
keep_notice-KeepsSound client (some (false, q)) v h = record {
  watched = v.watched;
  msg_sound = (record { counted = refl; bounded = omega arith }, tt);
  cmd_sound = v.cmd_sound;
}

enqueue_notice-KeepsSound :
    (client : OpClient) (made : Option OpcNode)
    → IsSound client
    → NodeFilled made
    → KeepsSound (enqueue_notice client made)
unfolding enqueue_notice
enqueue_notice-KeepsSound client made v filled =
    keep_notice-KeepsSound client _ v (enqueue-QueueSound client.msg_queue made v.msg_sound filled)

pub notice_reconnect-KeepsSound :
    (world : RecvWorld) (lost : Bool) (client : OpClient)
    → IsSound client
    → KeepsSound (notice_reconnect world lost client)
unfolding notice_reconnect
notice_reconnect-KeepsSound world true client v = elim (Bool-cases world.notice_ok) [
  | inl ok ↦ rw ok (
      enqueue_notice-KeepsSound client _ v (
        create_node-Filled world.node_ok world.data_ok client.client_fd eserver _ _ _ 1 _
          (_, refl)))
  | inr no_memory ↦ rw no_memory v
]
notice_reconnect-KeepsSound world false client v =
    enqueue_notice-KeepsSound client _ v
      (create_node-Filled world.node_ok world.data_ok client.client_fd reconnt _ _ _ 0 _ ([], refl))

moved-IsSound :
    (client : OpClient) (fd : ℤ) → IsSound client → IsSound (record client { client_fd = fd })
moved-IsSound client fd v = record {
  watched = v.watched;
  msg_sound = v.msg_sound;
  cmd_sound = v.cmd_sound;
}

pub opc_connect-KeepsSound :
    (fd : ℤ) (answers : ℕ → ConnectAnswer) (client : OpClient)
    → IsSound client
    → KeepsSoundWith (opc_connect fd answers client)
unfolding opc_connect
opc_connect-KeepsSound fd answers client v = ground (arith, moved-IsSound client fd v)

found_again-KeepsSound :
    (calls : List Call) (kept : Kept) → KeepsSound kept → KeepsSoundWith (found_again calls kept)
unfolding found_again
found_again-KeepsSound calls none h = tt
found_again-KeepsSound calls (some (c, more)) h = h

after_connect-KeepsSound :
    (world : RecvWorld) (calls : List Call) (made : Turned)
    → KeepsSoundWith made
    → KeepsSoundWith (after_connect world calls made)
unfolding after_connect
after_connect-KeepsSound world calls none h = tt
after_connect-KeepsSound world calls (some (false, c, made)) h = h
after_connect-KeepsSound world calls (some (true, c, made)) h =
    found_again-KeepsSound (calls ++ made) _ (notice_reconnect-KeepsSound world false c h)

after_lost-KeepsSound :
    (world : RecvWorld) (kept : Kept) → KeepsSound kept → KeepsSoundWith (after_lost world kept)
unfolding after_lost
after_lost-KeepsSound world none h = tt
after_lost-KeepsSound world (some (c, calls)) h =
    after_connect-KeepsSound world calls _
      (opc_connect-KeepsSound world.socket_fd world.connects c h)

receive_failed-KeepsSound :
    (world : RecvWorld) (err : ErrRecv) (client : OpClient)
    → IsSound client
    → KeepsSoundWith (receive_failed world err client)
unfolding receive_failed reconnect
receive_failed-KeepsSound world recv_success client v = v
receive_failed-KeepsSound world err_recv_timeout client v = v
receive_failed-KeepsSound world err_recv_internal client v = v
receive_failed-KeepsSound world err_recv_unpack client v = v
receive_failed-KeepsSound world err_recv_closed client v =
    after_lost-KeepsSound world _ (notice_reconnect-KeepsSound world true client v)

pub receive_message-KeepsSound :
    (world : RecvWorld) (client : OpClient)
    → IsSound client
    → KeepsSoundWith (receive_message world client)
unfolding receive_message
receive_message-KeepsSound world client v =
    let (recv_len, err) = receive_message_length world recv_success in
    let failed = receive_failed-KeepsSound world err client v in
    let e = (receive_message_data world err).1 in
    let lost = receive_failed-KeepsSound world e client v in ground (arith, failed, lost)
