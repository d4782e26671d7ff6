-- ===== src/Server/Faults.antt =====
-- When a round of the server thread of src/server/server/server.c over a slot reads through NULL.
use odroid_player.Prelude.{
  ℕ, suc, ◌≡◌, refl, ◌↔◌, ℤ, pos, String, List, [], ◌∷◌, Option, none, some, Bool, true, arith,
  leb-suc-zero, ltb-zero,
}
use odroid_player.Sys.{Call}
use odroid_player.Message.{Message}
use odroid_player.Pool.{find_client, find_client_id}
use odroid_player.FdSet.{FdSet, fd_ready}
use odroid_player.Send.{Net}
use odroid_player.Player.{Player}
use odroid_player.Receive.{Input, Received, receive_message}
use odroid_player.Server.{take_message, handle_received, client_slot}

-- A message without a text.
abbrev pub IsBare : Option Message → Type 0
IsBare none = ⊥
IsBare (some msg) = msg.items ≡ []

abbrev pub IsFault : Option (Player × List Call) → Type 0
IsFault none = Unit {0}
IsFault (some r) = ⊥

take_message-IsFault :
    (net : Net) (node_ok data_ok : Bool) (client_id client_fd : ℤ) (msg : Message) (player : Player)
    (items : List String)
    → msg.items ≡ items
    → IsFault (take_message net node_ok data_ok client_id client_fd msg player) ↔ (items ≡ [])
unfolding take_message
take_message-IsFault net node_ok data_ok client_id client_fd msg player [] e = rw e (ground arith)
take_message-IsFault net node_ok data_ok client_id client_fd msg player (x ∷ xs) e =
    rw e (ground arith)

handle_received-IsFault :
    (net : Net) (node_ok data_ok : Bool) (client_id client_fd : ℤ) (received : Received Message)
    (value : Option Message) (player : Player)
    → received.value ≡ value
    → IsFault (handle_received net node_ok data_ok client_id client_fd received player)
      ↔ IsBare value
unfolding handle_received
handle_received-IsFault net node_ok data_ok client_id client_fd received none player e =
    rw e (ground arith)
handle_received-IsFault net node_ok data_ok client_id client_fd received (some msg) player e =
    rw e (take_message-IsFault net node_ok data_ok client_id client_fd msg player msg.items refl)

-- A round of the server thread over the slot of a client that is ready reads through NULL exactly
-- when a whole message arrives and has no text, whatever else it says. This is about that round
-- alone, and not about the commands that the response thread runs later.
pub client_slot-IsFault :
    (net : Net) (node_ok data_ok : Bool) (read_set : FdSet) (i : ℤ) (input : Input)
    (player : Player) (n id : ℕ)
    → find_client i player.client_pool ≡ pos (suc n)
    → find_client_id i player.client_pool ≡ pos id
    → fd_ready (pos (suc n)) read_set ≡ true
    → IsFault (client_slot net node_ok data_ok read_set i input player)
      ↔ IsBare (receive_message net (pos (suc n)) input).value
unfolding client_slot
client_slot-IsFault net node_ok data_ok read_set i input player n id e f ready =
    rw (e, leb-suc-zero n, ready, f, ltb-zero id)
      (handle_received-IsFault net node_ok data_ok (pos id) (pos (suc n))
        (receive_message net (pos (suc n)) input) _ player refl)
