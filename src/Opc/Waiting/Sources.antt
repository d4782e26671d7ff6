-- ===== src/Opc/Waiting/Sources.antt =====
-- Where the status comes from that `get_command_response` of src/client/opc/response/response.c
-- returns.
use odroid_player.Prelude.{
  ℕ, ◌==◌, ◌≡◌, refl, sym, subst, ℤ, size_of_int, int_of_size, List, [], ◌∷◌, Option, none, some,
  Bool, true, false, All, All-append, inl, inr, Bool-cases, ==_iff,
}
use odroid_player.Queue.{Dequeued, taken, stopped, waiting}
use odroid_player.Opc.{OpcNode, OpcQueue, OpClient, OpStatus}
use odroid_player.Opc.Queues.{later_next, conditional_loop, dequeue_conditional}
use odroid_player.Opc.Monitors.{get_monitor_play}
use odroid_player.Opc.Waiting.{
  Visit, Response, answered, set_status, arrive, read_status, after_dequeue, response_loop,
  new_status, opc_create_status, get_command_response,
}
use odroid_player.Opc.Waiting.Answers.{nodes-arrive}

module _ {κ} (P : OpcNode → Type κ) where
  -- What holds of every node that a wait gives back or leaves behind.
  abbrev pub Holds : Dequeued OpcNode → Type κ
  Holds (taken node q) = P node × All P q.nodes
  Holds (stopped q) = All P q.nodes
  Holds waiting = Unit

  abbrev pub QueueHolds : OpcQueue → Type κ
  QueueHolds q = All P q.nodes

  abbrev pub VisitHolds : Visit → Type κ
  VisitHolds v = All P v.arrived × All QueueHolds v.wakes

  pub conditional_loop-Holds :
      (i : ℤ) (nodes : List OpcNode) (q : OpcQueue) (wakes : List OpcQueue)
      → q.nodes ≡ nodes
      → All P q.nodes
      → All QueueHolds wakes
      → Holds (conditional_loop nodes q wakes i)
  unfolding conditional_loop
  conditional_loop-Holds i (cur ∷ rest) q wakes e h k =
      let g = subst (All P) e h in
      elim (Bool-cases (later_next rest i)) [ inl late ↦ rw late h | inr fine ↦ rw fine g ]
  conditional_loop-Holds i [] q [] e h k = tt
  conditional_loop-Holds i [] q (w ∷ wakes) e h k = elim (Bool-cases w.running) [
    | inl on ↦ simp on (conditional_loop-Holds i w.nodes w wakes refl k.0 k.1)
    | inr off ↦ simp off k.0
  ]

  pub arrive-Holds :
      (nodes : List OpcNode) (q : OpcQueue)
      → All P nodes
      → All P q.nodes
      → All P (arrive nodes q).nodes
  arrive-Holds nodes q h k =
      let (kept, good, e) = nodes-arrive P nodes q h in
      subst (All P) (sym e) (All-append P q.nodes kept k good)

  -- The answer is made of a node of which P holds, with the index of the request.
  abbrev pub From : Bool → ℕ → OpStatus → Option Response → Type κ
  From data_ok msg_idx status (some (answered s q)) =
      (node : OpcNode) × P node
      × (size_of_int node.msg_idx ≡ msg_idx)
      × (set_status data_ok status node ≡ some (true, s))
  From data_ok msg_idx status _ = Unit

  read_status-From :
      (data_ok : Bool) (msg_idx : ℕ) (status : OpStatus) (node : OpcNode)
      (made : Option (Bool × OpStatus)) (q : OpcQueue)
      → P node
      → size_of_int node.msg_idx ≡ msg_idx
      → set_status data_ok status node ≡ made
      → From data_ok msg_idx status (read_status made q)
  unfolding read_status
  read_status-From data_ok msg_idx status node none q h e f = tt
  read_status-From data_ok msg_idx status node (some (true, s)) q h e f = (node, h, e, f)
  read_status-From data_ok msg_idx status node (some (false, s)) q h e f = tt

  after_dequeue-From :
      (data_ok : Bool) (msg_idx : ℕ) (status : OpStatus) (seen : Option OpcQueue)
      (again : OpcQueue → Option Response) (d : Dequeued OpcNode)
      → Holds d
      → ((r : OpcQueue) → All P r.nodes → From data_ok msg_idx status (again r))
      → From data_ok msg_idx status (after_dequeue data_ok msg_idx status seen again (some d))
  unfolding after_dequeue
  after_dequeue-From data_ok msg_idx status seen again waiting h next = tt
  after_dequeue-From data_ok msg_idx status seen again (stopped q) h next = tt
  after_dequeue-From data_ok msg_idx status seen again (taken node q) h next =
      elim (Bool-cases (size_of_int node.msg_idx == msg_idx)) [
        | inl same ↦
            rw same
              (read_status-From data_ok msg_idx status node _ q h.0 ((==_iff _ _).0 same) refl)
        | inr other ↦ rw other (next q h.1)
      ]

  pub response_loop-From :
      (data_ok : Bool) (msg_idx : ℕ) (status : OpStatus) (visits : List Visit) (q : OpcQueue)
      → All P q.nodes
      → All VisitHolds visits
      → From data_ok msg_idx status (response_loop data_ok msg_idx status visits (some q))
  unfolding response_loop dequeue_conditional
  response_loop-From data_ok msg_idx status [] q h k = tt
  response_loop-From data_ok msg_idx status (v ∷ visits) q h k =
      let w = arrive v.arrived q in
      elim (Bool-cases (get_monitor_play v.monitor)) [
        | inr off ↦ rw off tt
        | inl on ↦ rw on (
            after_dequeue-From data_ok msg_idx status _ _ _
              (conditional_loop-Holds (int_of_size msg_idx) w.nodes w v.wakes refl
                (arrive-Holds v.arrived q k.0.0 h) k.0.1)
              (λ r g. response_loop-From data_ok msg_idx status visits r g k.1))
      ]

  -- The same of a whole request, which starts from a new status.
  pub get_command_response-From :
      (data_ok : Bool) (visits : List Visit) (client : OpClient) (q : OpcQueue) (s : OpStatus)
      (left : Option OpcQueue)
      → client.cmd_queue ≡ some q
      → All P q.nodes
      → All VisitHolds visits
      → get_command_response true data_ok visits client ≡ some (answered s left)
      → (node : OpcNode) × P node
        × (size_of_int node.msg_idx ≡ client.msg_idx)
        × (set_status data_ok new_status node ≡ some (true, s))
  unfolding get_command_response opc_create_status
  get_command_response-From data_ok visits client q s left has h k e =
      subst (From data_ok client.msg_idx new_status) {y = some (answered s left)} (rw (← has) e)
        (response_loop-From data_ok client.msg_idx new_status visits q h k)
