-- ===== src/Listener/Order.antt =====
-- What the thread of src/client/utils.c prints, and in which order.
use odroid_player.Prelude.{
  ◌≡◌, refl, ap, ◌∙◌, inl, inr, Option-cases, List, [], ◌∷◌, ◌++◌, length, Option, none, some, true,
  false, replicate,
}
use odroid_player.Queue.{dequeue as dequeue_node, wait_loop}
use odroid_player.Opc.{OpcNode, OpcQueue, OpClient}
use odroid_player.Opc.Monitors.{get_monitor_play}
use odroid_player.Opc.Queues.{dequeue}
use odroid_player.Opc.Waiting.{
  read_data, read_status, set_status, opc_create_status, get_message_response,
}
use odroid_player.Listener.{
  Line, Round, Listened, print_status, after_lines, printed, after_message, my_async_receiver,
}

-- What is printed for a node, and for the nodes of a queue one after the other.
unfoldable pub node_lines : OpcNode → Option (List Line)
node_lines node = elim (read_data node.n_data node.items) [
  | none ↦ none
  | some xs ↦ print_status node.type node.status (some xs)
]

abbrev pub joined : Option (List Line) → Option (List Line) → Option (List Line)
joined none more = none
joined (some lines) none = none
joined (some lines) (some more) = some (lines ++ more)

unfoldable pub queue_lines : List OpcNode → Option (List Line)
unfolding node_lines
queue_lines [] = some []
queue_lines (node ∷ nodes) = joined (node_lines node) (queue_lines nodes)

-- A turn in which nothing else happens to the client and there is memory.
abbrev pub calm_turn : Round
calm_turn = record { changes = λ c. c; status_ok = true; data_ok = true; wakes = [] }

abbrev pub listened : OpClient → Option (List Line) → Listened
listened client none = none
listened client (some lines) = some (false, lines, client)

abbrev with_queue : OpClient → OpcQueue → OpClient
with_queue client q = record client { msg_queue = some q }

printed-listened :
    (client : OpClient) (here more : Option (List Line))
    → printed here (listened client more) ≡ listened client (joined here more)
unfolding printed after_lines
printed-listened client none more = refl
printed-listened client (some lines) none = refl
printed-listened client (some lines) (some more) = refl

-- What a turn does with the node that it takes.
message_taken :
    (client : OpClient) (node : OpcNode) (rest : List OpcNode) (q : OpcQueue)
    (next : OpClient → Listened)
    → client.msg_queue ≡ some q
    → q.nodes ≡ node ∷ rest
    → (r : OpcQueue) × (r.nodes ≡ rest)
      × (after_message client next (get_message_response true true [] client)
          ≡ printed (node_lines node) (next (with_queue client r)))
unfolding get_message_response opc_create_status dequeue dequeue_node wait_loop set_status
    read_status after_message node_lines printed
message_taken client node rest q next has first =
    elim (Option-cases (read_data node.n_data node.items)) [
      | inl short ↦ rw (has, first, short, node_lines) (record q { nodes = rest }, refl, refl)
      | inr (xs, full) ↦ rw (has, first, full, node_lines) (_, refl, refl)
    ]

-- While nothing else happens, the thread prints the notices and broadcasts of its queue in the order
-- in which they stand there, one turn for each node, and empties the queue; it faults exactly where
-- printing them in that order would read a text that is not there.
pub my_async_receiver-listened :
    (nodes : List OpcNode) (client : OpClient) (q : OpcQueue)
    → get_monitor_play client.monitor ≡ true
    → client.msg_queue ≡ some q
    → q.nodes ≡ nodes
    → (r : OpcQueue) × (r.nodes ≡ [])
      × (my_async_receiver (replicate (length nodes) calm_turn) client
          ≡ listened (with_queue client r) (queue_lines nodes))
unfolding my_async_receiver queue_lines
my_async_receiver-listened [] client q on has e =
    (q, e, ap (λ m. some (false, [], record client { msg_queue = m })) has)
my_async_receiver-listened (node ∷ rest) client q on has e =
    let turns = replicate (length rest) calm_turn in
    let (r, behind, turn) =
      message_taken client node rest q (λ c. my_async_receiver turns c) has e in
    let (last, empty, more) =
      my_async_receiver-listened rest (with_queue client r) r on refl behind in
    (
      last,
      empty,
      rw on (
          turn
          ∙ ap (printed (node_lines node)) more
          ∙ printed-listened (with_queue client last) (node_lines node) (queue_lines rest)),
    )
