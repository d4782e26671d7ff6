-- ===== src/Opc/Queues/Conditional.antt =====
-- When `dequeue_conditional` of src/client/opc/utils/queue.c withholds a node.
use odroid_player.Prelude.{
  ◌+◌, ◌%◌, ◌<◌, ◌≡◌, refl, ℤ, ltb_ℤ, List, [], ◌∷◌, false, All, if◌then◌else◌,
}
use odroid_player.Queue.{size_mod, Dequeued, taken, stopped, waiting, dequeue as dequeue_node}
use odroid_player.Opc.{OpcNode, OpcQueue}
use odroid_player.Opc.Queues.{later_next}

-- A node that does not come after the index that is waited for.
abbrev pub NotLater : ℤ → OpcNode → Type 0
NotLater i node = ltb_ℤ i node.msg_idx ≡ false

pub later_next-All :
    (i : ℤ) (nodes : List OpcNode) → All (NotLater i) nodes → later_next nodes i ≡ false
later_next-All i [] h = refl
later_next-All i (node ∷ nodes) h = h.0

-- A queue with the node that was taken off back at its head.
abbrev pub put_back : OpcNode → OpcQueue → OpcQueue
put_back cur q = record q { nodes = cur ∷ q.nodes; size = (q.size + 1) % size_mod }

-- NULL in place of a node, which stays in the queue, where the node behind it comes after `i`.
abbrev pub withhold : ℤ → Dequeued OpcNode → Dequeued OpcNode
withhold i (taken cur q) = if later_next q.nodes i then stopped (put_back cur q) else taken cur q
withhold i (stopped q) = stopped q
withhold i waiting = waiting

-- A `size_t`.
abbrev pub SizeFits : OpcQueue → Type 0
SizeFits q = q.size < size_mod
