-- ===== src/Opc/Queues.antt =====
-- src/client/opc/utils/queue.c: the nodes of the client library and its queues. The chain of nodes
-- and the steps of `enqueue` and `dequeue` are those of Queue.antt. A queue or a node may be NULL
-- here; `none` as a result is a failed assertion.
pub mod Conditional
use odroid_player.Prelude.{
  ℕ, ◌+◌, ◌-◌, ◌%◌, ℤ, ltb_ℤ, String, List, [], ◌∷◌, Option, none, some, Bool, true, false,
  if◌then◌else◌,
}
use odroid_player.Sys.{Call, cond_signal, queue_cond}
use odroid_player.Message.{Status, CmdType, Cmd, copy_data}
use odroid_player.Queue.{
  Dequeued, taken, stopped, waiting, size_mod, create_queue as empty_queue, clear_queue,
  enqueue as enqueue_node, dequeue as dequeue_node,
}
use odroid_player.Opc.{OpcNode, OpcQueue}

-- `node_ok` and `data_ok` are the answers of the two `malloc` calls.
unfoldable pub create_node :
    (node_ok data_ok : Bool)
    → ℤ
    → Status
    → CmdType
    → Cmd
    → ℤ
    → ℕ
    → Option (List (Option String))
    → Option OpcNode
create_node node_ok data_ok client_fd status type cmd msg_idx n_data items =
    let node : OpcNode = record {
      client_fd = client_fd;
      status = status;
      type = type;
      cmd = cmd;
      msg_idx = msg_idx;
      n_data = n_data;
      items = none;
    } in
    if node_ok
    then (elim items [
      | none ↦ some node
      | some xs ↦
          if data_ok then some (record node { items = some (copy_data n_data xs) }) else none
    ])
    else none

unfoldable pub create_queue : Bool → Option OpcQueue
create_queue true = some empty_queue
create_queue false = none

-- The nodes that are freed, in order.
unfoldable pub remove_queue : Option OpcQueue → List OpcNode
remove_queue none = []
remove_queue (some q) = clear_queue q.nodes

-- The nodes that are freed, the empty queue, and the signal to whoever waits on it.
unfoldable pub flush_queue : Option OpcQueue → Option (List OpcNode × OpcQueue × List Call)
flush_queue none = none
flush_queue (some q) =
    some (clear_queue q.nodes, record q { nodes = []; size = 0 }, cond_signal queue_cond ∷ [])

unfoldable pub enqueue : Option OpcQueue → Option OpcNode → Option (Bool × OpcQueue)
enqueue none _ = none
enqueue (some q) none = none
enqueue (some q) (some node) = some (enqueue_node q node)

unfoldable pub dequeue : Option OpcQueue → List OpcQueue → Option (Dequeued OpcNode)
dequeue none wakes = none
dequeue (some q) wakes = some (dequeue_node q wakes)

-- `cur->next->msg_idx > msg_idx`, where there is a next node.
abbrev pub later_next : List OpcNode → ℤ → Bool
later_next [] msg_idx = false
later_next (next ∷ rest) msg_idx = ltb_ℤ msg_idx next.msg_idx

unfoldable pub conditional_loop : List OpcNode → OpcQueue → List OpcQueue → ℤ → Dequeued OpcNode
conditional_loop (cur ∷ rest) q wakes msg_idx =
    if later_next rest msg_idx
    then stopped q
    else taken cur (record q { nodes = rest; size = (q.size + (size_mod - 1)) % size_mod })
conditional_loop [] q [] msg_idx = waiting
conditional_loop [] q (w ∷ wakes) msg_idx =
    let again = conditional_loop w.nodes w wakes msg_idx in if w.running then again else stopped w

unfoldable pub dequeue_conditional : Option OpcQueue → List OpcQueue → ℤ → Option (Dequeued OpcNode)
unfolding conditional_loop
dequeue_conditional none wakes msg_idx = none
dequeue_conditional (some q) wakes msg_idx = some (conditional_loop q.nodes q wakes msg_idx)

unfoldable pub get_queue_running : Option OpcQueue → Option Bool
get_queue_running none = none
get_queue_running (some q) = some q.running
