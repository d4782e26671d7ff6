-- ===== src/Opc/Waiting/Answers.antt =====
-- The answer that a request of src/client/opc/opclient.c gets: whose it is, and that it is found.
use odroid_player.Prelude.{
  ℕ, ◌<◌, ◌==◌, ◌≡◌, refl, sym, subst, ap, ◌∙◌, inl, inr, ℤ, size_of_int, int_of_size, String, List,
  [], ◌∷◌, ◌++◌, append_assoc, append-nil, length, Option, some, true, false, All, All-append,
  arith, ==_iff,
}
use odroid_player.Queue.{taken, enqueue as enqueue_node}
use odroid_player.Queue.Size.{nodes-enqueue}
use odroid_player.Opc.{OpcNode, OpcQueue, OpClient, OpStatus}
use odroid_player.Opc.Queues.{conditional_loop, dequeue_conditional}
use odroid_player.Opc.Queues.Conditional.{NotLater, later_next-All}
use odroid_player.Opc.Monitors.{get_monitor_play}
use odroid_player.Opc.Waiting.{
  Visit, Response, answered, read_data, set_status, arrive, queue_found, read_status, after_dequeue,
  response_loop, opc_create_status, get_command_response,
}

-- What arrives goes to the end of the queue, as far as there is room.
pub nodes-arrive {κ} :
    (P : OpcNode → Type κ) (nodes : List OpcNode) (q : OpcQueue)
    → All P nodes
    → (kept : List OpcNode) × All P kept × ((arrive nodes q).nodes ≡ q.nodes ++ kept)
unfolding arrive
nodes-arrive P [] q h = ([], tt, sym (append-nil q.nodes))
nodes-arrive P (node ∷ nodes) q h =
    let (kept, good, e) = nodes-arrive P nodes (enqueue_node q node).1 h.1 in
    elim (nodes-enqueue q node) [
      | inl (_, _, f) ↦ (
        node ∷ kept,
        (h.0, good),
        e ∙ ap (λ xs. xs ++ kept) f ∙ append_assoc q.nodes (node ∷ []) kept,
      )
      | inr (_, f) ↦ (kept, good, e ∙ ap (λ r. r.1.nodes ++ kept) f)
    ]

-- A visit that finds the client running, and nothing newer than the request.
abbrev pub Quiet : ℕ → Visit → Type 0
Quiet msg_idx v =
    (get_monitor_play v.monitor ≡ true) × All (NotLater (int_of_size msg_idx)) v.arrived

abbrev pub Stale : ℕ → OpcNode → Type 0
Stale msg_idx node = (size_of_int node.msg_idx == msg_idx) ≡ false

-- The status of an answer, and the queue behind it.
abbrev pub Answers : OpcNode → ℕ → List OpcNode → Option Response → Type 0
Answers node msg_idx rest response =
    (s : OpStatus) × (q : OpcQueue) × (kept : List OpcNode) × (response
      ≡ some (answered s (some q)))
    × (s.msg_idx ≡ msg_idx)
    × (s.status ≡ node.status)
    × (s.items ≡ read_data node.n_data node.items)
    × (q.nodes ≡ rest ++ kept)

take_head :
    (i : ℤ) (q : OpcQueue) (wakes : List OpcQueue) (node : OpcNode) (rest : List OpcNode)
    → q.nodes ≡ node ∷ rest
    → All (NotLater i) rest
    → (r : OpcQueue) × (dequeue_conditional (some q) wakes i ≡ some (taken node r))
      × (r.nodes ≡ rest)
unfolding dequeue_conditional conditional_loop
take_head i q wakes node rest e h = rw (e, later_next-All i rest h) (_, refl, refl)

-- One visit that takes the first node.
visit_head :
    (i : ℤ) (v : Visit) (q : OpcQueue) (node : OpcNode) (rest : List OpcNode)
    → q.nodes ≡ node ∷ rest
    → All (NotLater i) rest
    → All (NotLater i) v.arrived
    → (r : OpcQueue) × (kept : List OpcNode) × (dequeue_conditional
          (queue_found v.arrived (some q))
          v.wakes
          i
        ≡ some (taken node r))
      × All (NotLater i) kept
      × (r.nodes ≡ rest ++ kept)
visit_head i v q node rest e h k =
    let (kept, good, f) = nodes-arrive (NotLater i) v.arrived q k in
    let (r, d, n) =
      take_head i (arrive v.arrived q) v.wakes node (rest ++ kept) (f ∙ ap (λ xs. xs ++ kept) e)
        (All-append (NotLater i) rest kept h good) in
    (r, kept, d, good, n)

set_status-true :
    (status : OpStatus) (node : OpcNode) (xs : List (Option String)) (msg_idx : ℕ)
    → read_data node.n_data node.items ≡ some xs
    → size_of_int node.msg_idx ≡ msg_idx
    → (s : OpStatus) × (set_status true status node ≡ some (true, s))
      × (s.msg_idx ≡ msg_idx)
      × (s.status ≡ node.status)
      × (s.items ≡ read_data node.n_data node.items)
unfolding set_status
set_status-true status node xs msg_idx e f = rw e (_, refl, f, refl, refl)

response_loop-Answers :
    (msg_idx : ℕ) (status : OpStatus) (stale : List OpcNode) (node : OpcNode) (rest : List OpcNode)
    (xs : List (Option String)) (visits : List Visit) (q : OpcQueue)
    → q.nodes ≡ stale ++ node ∷ rest
    → All (NotLater (int_of_size msg_idx)) (stale ++ node ∷ rest)
    → All (Stale msg_idx) stale
    → size_of_int node.msg_idx ≡ msg_idx
    → read_data node.n_data node.items ≡ some xs
    → All (Quiet msg_idx) visits
    → length stale < length visits
    → Answers node msg_idx rest (response_loop true msg_idx status visits (some q))
unfolding response_loop after_dequeue read_status
response_loop-Answers msg_idx status stale node rest xs [] q e h k same filled quiet enough =
    absurd (omega arith)
response_loop-Answers msg_idx status [] node rest xs (v ∷ visits) q e h k same filled quiet enough =
    let (r, kept, d, good, n) = visit_head _ v q node rest e h.1 quiet.0.1 in
    let (s, made, a, b, c) = set_status-true status node xs msg_idx filled same in
    (s, r, kept, rw (quiet.0.0, d, (==_iff _ _).1 same, made) refl, a, b, c, n)
response_loop-Answers msg_idx status (x ∷ stale) node rest xs (v ∷ visits) q e h k same filled quiet
      enough =
    let (r, kept, d, good, n) = visit_head _ v q x (stale ++ node ∷ rest) e h.1 quiet.0.1 in
    let f : r.nodes ≡ stale ++ node ∷ (rest ++ kept) = n ∙ append_assoc stale (node ∷ rest) kept in
    let (s, q2, more, done, a, b, c, m) =
      response_loop-Answers msg_idx status stale node (rest ++ kept) xs visits r f
        (subst (All (NotLater _)) (append_assoc stale (node ∷ rest) kept)
          (All-append (NotLater _) (stale ++ node ∷ rest) kept h.1 good))
        k.1 same filled quiet.1 (omega arith) in
    (s, q2, kept ++ more, rw (quiet.0.0, d, k.0) done, a, b, c, m ∙ append_assoc rest kept more)

-- A request waits until its answer is there. With the client running, memory for the status, and no
-- node that comes after the request, as many visits as there are answers to earlier requests in
-- front of its own, and one more, return its own: the index and the status of the node, and its
-- texts; the nodes behind it stay, and what has arrived since stands behind those.
pub get_command_response-Answers :
    (client : OpClient) (q : OpcQueue) (stale : List OpcNode) (node : OpcNode) (rest : List OpcNode)
    (xs : List (Option String)) (visits : List Visit)
    → client.cmd_queue ≡ some q
    → q.nodes ≡ stale ++ node ∷ rest
    → All (NotLater (int_of_size client.msg_idx)) (stale ++ node ∷ rest)
    → All (Stale client.msg_idx) stale
    → size_of_int node.msg_idx ≡ client.msg_idx
    → read_data node.n_data node.items ≡ some xs
    → All (Quiet client.msg_idx) visits
    → length stale < length visits
    → Answers node client.msg_idx rest (get_command_response true true visits client)
unfolding get_command_response opc_create_status
get_command_response-Answers client q stale node rest xs visits has e h k same filled quiet enough =
    rw has (
      response_loop-Answers client.msg_idx _ stale node rest xs visits q e h k same filled quiet
        enough)
