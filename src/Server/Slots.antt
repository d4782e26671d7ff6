-- ===== src/Server/Slots.antt =====
-- What one round of the server thread of src/server/server/server.c over a slot of the pool keeps of the
-- player, whatever the client has sent.
use odroid_player.Prelude.{
  ℕ, zero, suc, ◌≡◌, refl, sym, subst, inl, inr, ℤ, pos, negsuc, ltb_ℤ, String, List, [], ◌∷◌, ◌++◌,
  Option, none, some, Bool, true, false, Bool-cases, leb-suc-zero,
}
use odroid_player.Sys.{Call}
use odroid_player.Message.{Message, Node, create_node, copy_data}
use odroid_player.Queue.{Queue, enqueue}
use odroid_player.Queue.Size.{nodes-enqueue}
use odroid_player.Pool.{find_client, find_client_id}
use odroid_player.FdSet.{FdSet, fd_ready}
use odroid_player.Send.{Net}
use odroid_player.Player.{Player}
use odroid_player.Command.{first_item}
use odroid_player.Receive.{Input, Received, receive_message}
use odroid_player.Server.{
  message_node, queue_node, take_message, no_message, handle_received, disconnect_client,
  client_slot,
}

-- A node that the response thread can trace and keep: its first text is there, and counted.
abbrev pub HasText : Node → Type 0
HasText node =
    (text : String) × (n : ℕ) × (first_item node.items ≡ some text) × (node.n_data ≡ suc n)

abbrev pub AllText : List Node → Type 0
AllText [] = Unit {0}
AllText (node ∷ nodes) = HasText node × AllText nodes

AllText-append :
    (xs : List Node) (node : Node) → AllText xs → HasText node → AllText (xs ++ node ∷ [])
AllText-append [] node h t = (t, tt)
AllText-append (x ∷ xs) node h t = (h.0, AllText-append xs node h.1 t)

pub AllText-enqueue :
    (q : Queue Node) (node : Node)
    → AllText q.nodes
    → HasText node
    → AllText (enqueue q node).1.nodes
AllText-enqueue q node h t = elim (nodes-enqueue q node) [
  | inl (_, _, e) ↦ subst AllText (sym e) (AllText-append q.nodes node h t)
  | inr (_, e) ↦ subst (λ r. AllText r.1.nodes) (sym e) h
]

-- The node of a message with a text.
abbrev NodeText : Option Node → Type 0
NodeText none = Unit {0}
NodeText (some node) = HasText node

message_node-NodeText :
    (node_ok data_ok : Bool) (client_id client_fd : ℤ) (msg : Message) (x : String)
    (xs : List String)
    → msg.items ≡ x ∷ xs
    → NodeText (message_node node_ok data_ok client_id client_fd msg)
unfolding create_node copy_data
message_node-NodeText false data_ok client_id client_fd msg x xs e = tt
message_node-NodeText true false client_id client_fd msg x xs e = simp e tt
message_node-NodeText true true client_id client_fd msg x xs e = simp e (x, _, refl, refl)

-- What is kept by the acceptance of a node and by the disconnection of a client is kept by a round.
module _ (P : Player → Type 0)
    (enqueued : (player : Player) (node : Node)
      → HasText node
      → P player
      → P (record player { queue = (enqueue player.queue node).1 }))
    (dropped : (n : ℕ) (player : Player)
      → P player
      → P (disconnect_client (pos (suc n)) player).0) where
  -- A fault leaves nothing to speak of.
  abbrev Keeps : Option (Player × List Call) → Type 0
  Keeps none = Unit {0}
  Keeps (some (p, calls)) = P p

  queue_node-Keeps :
      (net : Net) (client_fd : ℤ) (made : Option Node) (player : Player)
      → P player
      → NodeText made
      → P (queue_node net client_fd made player).0
  queue_node-Keeps net client_fd none player v t = v
  queue_node-Keeps net client_fd (some node) player v t = enqueued player node t v

  take_message-Keeps :
      (net : Net) (node_ok data_ok : Bool) (client_id client_fd : ℤ) (msg : Message)
      (player : Player) (items : List String)
      → msg.items ≡ items
      → P player
      → Keeps (take_message net node_ok data_ok client_id client_fd msg player)
  unfolding take_message
  take_message-Keeps net node_ok data_ok client_id client_fd msg player [] e v = rw e tt
  take_message-Keeps net node_ok data_ok client_id client_fd msg player (x ∷ xs) e v =
      let m : Message = record msg { items = x ∷ xs } in
      rw e (
        queue_node-Keeps net client_fd (message_node node_ok data_ok client_id client_fd m) player v
          (message_node-NodeText node_ok data_ok client_id client_fd m x xs refl))

  no_message-Keeps :
      (net : Net) (n : ℕ) (timed_out : Bool) (calls : List Call) (player : Player)
      → P player
      → P (no_message net (pos (suc n)) timed_out calls player).0
  unfolding no_message
  no_message-Keeps net n true calls player v = v
  no_message-Keeps net n false calls player v = dropped n player v

  handle_received-Keeps :
      (net : Net) (node_ok data_ok : Bool) (client_id : ℤ) (n : ℕ) (received : Received Message)
      (value : Option Message) (player : Player)
      → received.value ≡ value
      → P player
      → Keeps (handle_received net node_ok data_ok client_id (pos (suc n)) received player)
  unfolding handle_received
  handle_received-Keeps net node_ok data_ok client_id n received none player e v =
      rw e (no_message-Keeps net n received.timed_out received.calls player v)
  handle_received-Keeps net node_ok data_ok client_id n received (some msg) player e v =
      rw e
        (take_message-Keeps net node_ok data_ok client_id (pos (suc n)) msg player msg.items refl v)

  slot-Keeps :
      (net : Net) (node_ok data_ok : Bool) (read_set : FdSet) (i : ℤ) (input : Input)
      (player : Player) (fd : ℤ)
      → find_client i player.client_pool ≡ fd
      → P player
      → Keeps (client_slot net node_ok data_ok read_set i input player)
  unfolding client_slot
  slot-Keeps net node_ok data_ok read_set i input player (pos zero) e v = rw e v
  slot-Keeps net node_ok data_ok read_set i input player (negsuc n) e v = rw e v
  slot-Keeps net node_ok data_ok read_set i input player (pos (suc n)) e v =
      rw (e, leb-suc-zero n)
        (elim (Bool-cases (fd_ready (pos (suc n)) read_set)) [
          | inr idle ↦ rw idle v
          | inl ready ↦
              rw ready (elim (Bool-cases (ltb_ℤ (find_client_id i player.client_pool) (pos 0))) [
                | inl bad ↦ rw bad v
                | inr good ↦ rw good (
                    handle_received-Keeps net node_ok data_ok _ n
                      (receive_message net (pos (suc n)) input) _ player refl v)
              ])
        ])

  pub client_slot-Keeps :
      (net : Net) (node_ok data_ok : Bool) (read_set : FdSet) (i : ℤ) (input : Input)
      (player p : Player) (calls : List Call)
      → client_slot net node_ok data_ok read_set i input player ≡ some (p, calls)
      → P player
      → P p
  client_slot-Keeps net node_ok data_ok read_set i input player p calls e v =
      subst Keeps e (slot-Keeps net node_ok data_ok read_set i input player _ refl v)
