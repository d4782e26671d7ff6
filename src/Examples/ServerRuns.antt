-- ===== src/Examples/ServerRuns.antt =====
-- Runs of the theorems on src/server/server/server.c.
use odroid_player.Prelude.{
  ◌+◌, ◌%◌, ◌≡◌, refl, ◌↔◌, pos, int_of_size, String, List, [], ◌∷◌, ◌++◌, none, some, true, false,
  arith,
}
use odroid_player.Sys.{close}
use odroid_player.Message.{success, command, next, create_node, copy_data, Node}
use odroid_player.Queue.{size_mod, enqueue}
use odroid_player.Pool.{find_client, find_client_id}
use odroid_player.Pool.Search.{find_slot}
use odroid_player.Pool.Removal.{stream_calls}
use odroid_player.Pool.Valid.{IsValid, client_of, SameOthers, fresh_client}
use odroid_player.FdSet.{FdSet, Covers, fd_ready}
use odroid_player.Player.{Player}
use odroid_player.Receive.{Input, got, receive_part, receive_rest, receive_sized, receive_message}
use odroid_player.Server.{
  accept_step, disconnect_client, client_slot, take_message, handle_received,
}
use odroid_player.Server.Accept.{
  accept_step-IsValid, accept_step_full, disconnect_client-IsValid, closes, reaches,
}
use odroid_player.Server.Faults.{client_slot-IsFault, IsFault, IsBare}
use odroid_player.Examples.{
  two_clients, two_clients-IsValid, eight_clients, eight_clients-IsValid, streaming_client,
  good_net, ready_player,
}

ready-Covers : Covers (ready_player 0).serv_maxfd (ready_player 0).serv_set
ready-Covers g member = cc

accept_example :
    let (next_id, p, calls) = accept_step good_net (pos 7) 2 (ready_player 0) in
    (next_id ≡ (2 + 1) % size_mod)
    × IsValid p.client_pool
    × (client_of p.client_pool (pos 7) ≡ some (fresh_client (int_of_size 2) 6))
    × SameOthers 6 two_clients p.client_pool
    × (p.serv_set (pos 7) ≡ true)
    × Covers p.serv_maxfd p.serv_set
unfolding find_slot
accept_example =
    accept_step-IsValid good_net 6 2 (ready_player 0) two_clients-IsValid ready-Covers refl
      (omega arith)

abbrev full_player : Player
full_player = record (ready_player 0) { client_pool = eight_clients }

full_example :
    let (next_id, p, calls) = accept_step good_net (pos 13) 8 full_player in
    (next_id ≡ 8)
    × (p ≡ full_player)
    × (reaches (pos 13) calls ≡ false)
    × (closes (pos 0) calls ≡ true)
full_example = accept_step_full good_net 12 8 full_player eight_clients-IsValid refl

disconnect_example :
    let (p, calls) = disconnect_client (pos 5) (ready_player 0) in
    IsValid p.client_pool
    × (client_of p.client_pool (pos 5) ≡ none)
    × SameOthers 4 two_clients p.client_pool
    × (p.serv_set (pos 5) ≡ false)
    × (true ≡ true → p.strm_set (pos 9) ≡ false)
    × (calls ≡ stream_calls streaming_client ++ close (pos 5) ∷ [])
unfolding find_slot
disconnect_example =
    disconnect_client-IsValid 4 (ready_player 0) streaming_client two_clients-IsValid refl

abbrev pub all_ready : FdSet
all_ready fd = true

abbrev pub input_of : List String → Input
input_of texts = record {
  message_length = got 20;
  buffer_ok = true;
  message_data =
      got (
        some (record { status = success; type = command; cmd = next; idx = pos 3; items = texts }));
}

abbrev pub next_node : Node
next_node = record {
  client_id = pos 1;
  client_fd = pos 6;
  msg_idx = pos 3;
  status = success;
  type = command;
  cmd = next;
  n_data = 1;
  items = some (some "next" ∷ []);
}

abbrev then_player : Player
then_player = record (ready_player 0) {
  queue = record { nodes = next_node ∷ []; size = 1; running = true };
}

next_arrives :
    client_slot good_net true true all_ready (pos 1) (input_of ("next" ∷ [])) (ready_player 0)
    ≡ some (then_player, [])
unfolding client_slot find_client find_client_id fd_ready handle_received take_message
    receive_message receive_part receive_sized receive_rest create_node copy_data enqueue
next_arrives = refl

client_slot-IsFault_example :
    IsFault (client_slot good_net true true all_ready (pos 1) (input_of []) (ready_player 0))
    ↔ IsBare (receive_message good_net (pos 6) (input_of [])).value
unfolding find_client find_client_id fd_ready
client_slot-IsFault_example =
    client_slot-IsFault good_net true true all_ready (pos 1) (input_of []) (ready_player 0) 5 1 refl
      refl refl
