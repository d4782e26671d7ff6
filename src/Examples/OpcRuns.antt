-- ===== src/Examples/OpcRuns.antt =====
-- Runs of the theorems on the requests of src/client/opc, with the data for them.
use odroid_player.Prelude.{
  ℕ, ◌+◌, ◌-◌, ◌%◌, ◌^◌, ◌≡◌, refl, ℤ, pos, negsuc, String, List, [], ◌∷◌, Option, some, true,
  arith, length,
}
use odroid_player.Sys.{Call, send_length, send_request}
use odroid_player.Message.{success, command, next, copy_data}
use odroid_player.Queue.{size_mod, create_queue, enqueue as enqueue_node, dequeue as dequeue_node}
use odroid_player.Queue.Size.{IsWellFormed}
use odroid_player.Opc.{OpcNode, OpcQueue, OpClient, OpStatus, Monitor}
use odroid_player.Opc.Queues.{dequeue_conditional}
use odroid_player.Opc.Monitors.{get_monitor_play}
use odroid_player.Opc.Sending.{init_cmd_array, send_command}
use odroid_player.Opc.Waiting.{
  Visit, get_command_response, opc_create_status, arrive, set_status, opc_set_timeout,
}
use odroid_player.Opc.Waiting.Answers.{Answers, get_command_response-Answers}
use odroid_player.Opc.Reception.Sound.{IsSound}
use odroid_player.Opc.Requests.{RequestWorld, request}
use odroid_player.Opc.Requests.Own.{Own, IsInt, request-Own, request_after_int}
use odroid_player.Opc.Requests.Returns.{Returns, request-Returns}
use odroid_player.Exchange.{good_sending}
use odroid_player.Examples.ResponseRuns.{next_is_counted}

abbrev pub node_at : ℕ → OpcNode
node_at n = record {
  client_fd = pos 4;
  status = success;
  type = command;
  cmd = next;
  msg_idx = pos n;
  n_data = 1;
  items = some (some "c.mp4" ∷ []);
}

abbrev pub queue_of : List OpcNode → OpcQueue
queue_of nodes = record { nodes = nodes; size = length nodes; running = true }

abbrev pub playing : Option Monitor
playing = some (record { play = true; status = success })

-- A client whose last request had the index 3, with nodes in its queue of answers.
abbrev pub client_with : List OpcNode → OpClient
client_with nodes = record {
  client_fd = pos 4;
  msg_idx = 3;
  monitor = playing;
  msg_queue = some create_queue;
  cmd_queue = some (queue_of nodes);
  recv_thread_id = 1;
}

abbrev pub quiet_visit : Visit
quiet_visit = record { monitor = playing; arrived = []; wakes = [] }

empty-IsWellFormed : IsWellFormed (create_queue {A = OpcNode})
unfolding create_queue
empty-IsWellFormed = record { counted = refl; bounded = omega arith }

pub stale-IsSound : IsSound (client_with (node_at 2 ∷ []))
unfolding create_queue
stale-IsSound = record {
  watched = (_, refl);
  msg_sound = (empty-IsWellFormed, tt);
  cmd_sound = (record { counted = refl; bounded = omega arith }, ((_, refl), tt));
}

found_example : Answers (node_at 3) 3 (node_at 3 ∷ []) (
    get_command_response true true
      (quiet_visit ∷ quiet_visit ∷ [])
      (client_with (node_at 2 ∷ node_at 3 ∷ node_at 3 ∷ [])))
unfolding copy_data get_monitor_play
found_example =
    get_command_response-Answers (client_with (node_at 2 ∷ node_at 3 ∷ node_at 3 ∷ []))
      (queue_of (node_at 2 ∷ node_at 3 ∷ node_at 3 ∷ [])) (node_at 2 ∷ []) (node_at 3)
      (node_at 3 ∷ []) (some "c.mp4" ∷ []) (quiet_visit ∷ quiet_visit ∷ []) refl refl
      (refl, (refl, (refl, tt))) (refl, tt) refl refl ((refl, tt), ((refl, tt), tt)) (omega arith)

-- The answer with an index arrives during the first visit.
abbrev pub asking : ℕ → RequestWorld
asking n = record {
  sending = good_sending;
  status_ok = true;
  data_ok = true;
  visits = record { monitor = playing; arrived = node_at n ∷ []; wakes = [] } ∷ quiet_visit ∷ [];
}

request-Returns_example :
    Returns ((3 + 1) % size_mod) (request command next (asking 4) (client_with (node_at 2 ∷ [])))
request-Returns_example =
    request-Returns command next (asking 4) (client_with (node_at 2 ∷ [])) next_is_counted
      stale-IsSound ((((_, refl), tt), tt), ((tt, tt), tt))

abbrev answered_client : OpClient
answered_client = record (client_with []) { msg_idx = 4 }

abbrev request_calls : ℤ → List Call
request_calls idx =
    send_length (pos 4)
    ∷ send_request (pos 4)
        (record { status = success; type = command; cmd = next; idx = idx; items = "next" ∷ [] })
    ∷ []

abbrev pub status_at : ℕ → OpStatus
status_at n = record {
  status = success;
  type = command;
  cmd = next;
  msg_idx = n;
  n_data = 1;
  items = some (some "c.mp4" ∷ []);
}

request-Own_example :
    Own IsInt 4 (status_at 4)
    × (answered_client.msg_idx ≡ (3 + 1) % size_mod)
    × ((text : String) × (init_cmd_array next ≡ some text)
        × (request_calls (pos 4)
            ≡ send_length (pos 4)
              ∷ send_request (pos 4) (record {
                status = success;
                type = command;
                cmd = next;
                idx = pos 4;
                items = text ∷ [];
              })
              ∷ []))
unfolding request send_command get_command_response opc_create_status get_monitor_play
    dequeue_conditional arrive enqueue_node set_status opc_set_timeout copy_data
request-Own_example =
    request-Own IsInt command next (asking 4) (client_with (node_at 2 ∷ [])) answered_client
      (status_at 4) (request_calls (pos 4)) ((omega arith, tt), tt)
      (((omega arith, tt), tt), ((tt, tt), tt)) refl

abbrev worn_client : OpClient
worn_client = record (client_with []) { msg_idx = 2 ^ 31 - 1 }

after_int_example : ¬ (
    request command next (asking 4) worn_client
    ≡ some (some (status_at (2 ^ 31)), worn_client, request_calls (negsuc (2 ^ 31 - 1))))
after_int_example =
    request_after_int command next (asking 4) worn_client worn_client (status_at (2 ^ 31))
      (request_calls (negsuc (2 ^ 31 - 1))) (tt, tt) (((omega arith, tt), tt), ((tt, tt), tt))
      (omega arith) (omega arith)
