-- ===== src/Examples/ReceiverRuns.antt =====
-- Runs of the theorems on src/client/opc/receive/receive.c and src/client/utils.c.
use odroid_player.Prelude.{◌≡◌, refl, pos, negsuc, [], ◌∷◌, some, true, false}
use odroid_player.Sys.{close, connect, cond_signal, queue_cond}
use odroid_player.Message.{eserver, notify, nothing, copy_data}
use odroid_player.Queue.{create_queue, enqueue as enqueue_node}
use odroid_player.Opc.{OpcNode, OpcQueue, OpClient}
use odroid_player.Opc.Queues.{create_node, enqueue}
use odroid_player.Opc.Monitors.{get_monitor_play, set_monitor}
use odroid_player.Opc.Waiting.{get_message_response, no_answer}
use odroid_player.Opc.Connection.{opc_connect}
use odroid_player.Opc.Reception.{ended, RecvWorld, notice_reconnect, receive_message}
use odroid_player.Opc.Reception.Sound.{KeepsSoundWith}
use odroid_player.Opc.Receiver.{Turn, receive_turn, run_receiver}
use odroid_player.Opc.Receiver.Sound.{receive_turn-KeepsSound}
use odroid_player.Opc.Receiver.Stops.{IsStopped, run_receiver-no_answer}
use odroid_player.Examples.ConnectionRuns.{all_fail}
use odroid_player.Examples.OpcRuns.{node_at, queue_of, client_with, stale-IsSound}
-- The server closes the connection, and none is found again.
use odroid_player.Prelude.{none}
use odroid_player.Message.{reconnt, brdcast}
use odroid_player.Listener.{
  my_async_receiver, broadcast, server_reconnected, print_status, print_notice,
}
use odroid_player.Listener.Order.{calm_turn, node_lines, queue_lines, my_async_receiver-listened}

abbrev pub closing : RecvWorld
closing = record {
  length_answer = ended;
  ntohl = λ n. n;
  buffer_ok = true;
  data_answer = ended;
  node_ok = true;
  data_ok = true;
  notice_ok = true;
  socket_fd = pos 5;
  connects = all_fail;
}

turn_example : KeepsSoundWith (receive_turn closing (client_with (node_at 2 ∷ [])))
turn_example = receive_turn-KeepsSound closing (client_with (node_at 2 ∷ [])) stale-IsSound

abbrev closed_notice : OpcNode
closed_notice = record {
  client_fd = pos 4;
  status = eserver;
  type = notify;
  cmd = nothing;
  msg_idx = negsuc 0;
  n_data = 1;
  items = some (some "server closed" ∷ []);
}

abbrev left_queue : OpcQueue
left_queue = record { nodes = closed_notice ∷ []; size = 1; running = false }

abbrev ended_client : OpClient
ended_client = record (client_with (node_at 2 ∷ [])) {
  client_fd = pos 5;
  monitor = some (record { play = false; status = eserver });
  msg_queue = some left_queue;
  cmd_queue = some (record (queue_of (node_at 2 ∷ [])) { running = false });
}

abbrev closing_turn : Turn
closing_turn = record { changes = λ c. c; world = closing }

no_answer_example :
    IsStopped ended_client
    × (get_message_response true true (left_queue ∷ []) (client_with [])
        ≡ some (no_answer (some left_queue)))
unfolding run_receiver create_queue get_monitor_play receive_message notice_reconnect enqueue
    create_node enqueue_node opc_connect set_monitor copy_data
no_answer_example =
    run_receiver-no_answer (closing_turn ∷ []) (client_with (node_at 2 ∷ [])) ended_client
      (close (pos 4) ∷ connect (pos 5) ∷ cond_signal queue_cond ∷ cond_signal queue_cond ∷ []) true
      [] [] create_queue left_queue (client_with []) ((λ c v. v), tt) stale-IsSound refl refl refl
      tt refl

-- A broadcast, and the notice that the server is there again.
abbrev told_queue : OpcQueue
told_queue = queue_of (
    record (node_at 2) { type = brdcast }
    ∷ record (node_at 2) { type = notify; status = reconnt; n_data = 0; items = none }
    ∷ [])

listened_example :
    (r : OpcQueue) × (r.nodes ≡ [])
    × (my_async_receiver
          (calm_turn ∷ calm_turn ∷ [])
          (record (client_with []) { msg_queue = some told_queue })
        ≡ some (
          false,
          broadcast (some "c.mp4") ∷ server_reconnected ∷ [],
          record (client_with []) { msg_queue = some r },
        ))
unfolding get_monitor_play queue_lines node_lines print_status print_notice copy_data
listened_example =
    my_async_receiver-listened told_queue.nodes
      (record (client_with []) { msg_queue = some told_queue }) told_queue refl refl refl
