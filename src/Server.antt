-- ===== src/Server.antt =====
-- src/server/server/server.c: the server thread, which accepts clients and puts their messages on
-- the queue. `run_server` is taken apart: `accept_step` is what it does when its own socket is
-- ready, and `client_slot` what it does for one slot of the pool.
pub mod Accept
pub mod Slots
pub mod Faults
use odroid_player.Prelude.{
  ℕ, ◌+◌, ◌%◌, ℤ, pos, minus_one, ltb_ℤ, leb_ℤ, eq_ℤ, int_of_size, String, List, [], ◌∷◌, ◌++◌,
  Option, none, some, Bool, true, false, not, ◌||◌, if◌then◌else◌, length, map,
}
use odroid_player.Sys.{Call, close}
use odroid_player.Message.{
  Message, Status, success, toomany, eserver, notify, nothing, Node, create_node,
}
use odroid_player.Queue.{size_mod, enqueue}
use odroid_player.Pool.{
  max_clients, get_client_cnt, find_client, find_client_id, get_client_stream_fd,
}
use odroid_player.Pool.Change.{add_client, remove_client}
use odroid_player.FdSet.{FdSet, fd_ready, update_fd_set, update_client_add, update_client_remove}
use odroid_player.Send.{Net, complain, send_notify_message}
use odroid_player.Player.{Player}
use odroid_player.Receive.{Input, Received, receive_message}

-- What `connect_new_client` returns and leaves; `next_id` is its static counter.
pub record Connected : Type 0 where
  pub client_fd : ℤ
  pub full : Bool
  pub next_id : ℕ
  pub player : Player
  pub calls : List Call

-- `accepted` is the answer of `accept`.
unfoldable pub connect_new_client : Net → ℤ → ℕ → Player → Connected
connect_new_client net accepted client_id player =
    let client_cnt = get_client_cnt player.client_pool in
    let (added, pool, calls) = add_client (int_of_size client_id) accepted player.client_pool in
    let next_id = (client_id + 1) % size_mod in
    let refused : Connected = record {
      client_fd = pos 0;
      full = false;
      next_id = client_id;
      player = player;
      calls = [];
    } in
    if ltb_ℤ accepted (pos 0)
    then refused
    else if ltb_ℤ client_cnt (pos 0)
    then record refused { calls = close accepted ∷ [] }
    else if leb_ℤ (pos max_clients) client_cnt
    then record refused { full = true }
    else if not added
    then (record refused {
      next_id = next_id;
      player = record player { client_pool = pool };
      calls =
          calls
          ++ (complain net accepted "couldn't add new client to server" eserver
              ++ close accepted ∷ []);
    })
    else record {
      client_fd = accepted;
      full = false;
      next_id = next_id;
      player = record player { client_pool = pool };
      calls = calls;
    }

-- The counter, the player and the calls after the server's socket was ready.
unfoldable pub accept_step : Net → ℤ → ℕ → Player → ℕ × Player × List Call
accept_step net accepted client_id player =
    let c = connect_new_client net accepted client_id player in
    let (send_ok, told) =
      send_notify_message net c.client_fd (some "too many clients") minus_one toomany notify
        nothing in
    let (maxfd, fds) =
      update_fd_set c.client_fd c.player.serv_maxfd c.player.serv_set update_client_add in
    if eq_ℤ c.client_fd (pos 0)
    then (c.next_id, c.player, c.calls ++ (if c.full then told ++ close c.client_fd ∷ [] else []))
    else (c.next_id, record (c.player) { serv_maxfd = maxfd; serv_set = fds }, c.calls)

unfoldable pub disconnect_client : ℤ → Player → Player × List Call
disconnect_client client_fd player =
    let (serv_maxfd, serv_set) =
      update_fd_set client_fd player.serv_maxfd player.serv_set update_client_remove in
    let stream_fd = get_client_stream_fd client_fd player.client_pool in
    let (strm_maxfd, strm_set) =
      update_fd_set stream_fd player.strm_maxfd player.strm_set update_client_remove in
    let (pool, calls) = remove_client client_fd player.client_pool in
    let p : Player = record player {
      client_pool = pool;
      serv_maxfd = serv_maxfd;
      serv_set = serv_set;
    } in
    (
      if ltb_ℤ (pos 0) stream_fd
          then record p { strm_maxfd = strm_maxfd; strm_set = strm_set }
          else p,
      calls,
    )

-- The array of a message's texts; protobuf leaves NULL for none.
abbrev pub message_items : List String → Option (List (Option String))
message_items [] = none
message_items (x ∷ xs) = some (some x ∷ map some xs)

abbrev pub message_node : Bool → Bool → ℤ → ℤ → Message → Option Node
message_node node_ok data_ok client_id client_fd msg =
    create_node node_ok data_ok client_id client_fd msg.idx success msg.type msg.cmd
      (length msg.items) (message_items msg.items)

-- A node goes to the queue, or the client is told that it did not.
abbrev pub queue_node : Net → ℤ → Option Node → Player → Player × List Call
queue_node net client_fd none player = (player, [])
queue_node net client_fd (some node) player =
    let (done, q) = enqueue player.queue node in
    (
      record player { queue = q },
      if done then [] else complain net client_fd "couldn't enqueue" eserver,
    )

-- The trace of a message reads `data[0]`, which is a fault when there is no text.
unfoldable pub take_message :
    Net → (node_ok data_ok : Bool) → ℤ → ℤ → Message → Player → Option (Player × List Call)
take_message net node_ok data_ok client_id client_fd msg player = elim (message_items msg.items) [
  | none ↦ none
  | some items ↦
      some (queue_node net client_fd (message_node node_ok data_ok client_id client_fd msg) player)
]

no_message : Net → ℤ → Bool → List Call → Player → Player × List Call
no_message net client_fd true calls player = (player, calls)
no_message net client_fd false calls player =
    let (p, removed) = disconnect_client client_fd player in
    (p, calls ++ (complain net client_fd "couldn't receive client message" eserver ++ removed))

unfoldable pub handle_received :
    Net → (node_ok data_ok : Bool) → ℤ → ℤ → Received Message → Player → Option (Player × List Call)
unfolding take_message no_message
handle_received net node_ok data_ok client_id client_fd received player = elim (received.value) [
  | none ↦ some (no_message net client_fd received.timed_out received.calls player)
  | some msg ↦ take_message net node_ok data_ok client_id client_fd msg player
]

-- One round of the loop over the slots.
unfoldable pub client_slot :
    Net → (node_ok data_ok : Bool) → FdSet → ℤ → Input → Player → Option (Player × List Call)
unfolding handle_received
client_slot net node_ok data_ok read_set i input player =
    let client_fd = find_client i player.client_pool in
    let client_id = find_client_id i player.client_pool in
    let received = receive_message net client_fd input in
    if leb_ℤ client_fd (pos 0) || not (fd_ready client_fd read_set)
    then some (player, [])
    else if ltb_ℤ client_id (pos 0)
    then some (player, [])
    else handle_received net node_ok data_ok client_id client_fd received player
