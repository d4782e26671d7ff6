-- ===== src/Examples/SystemRuns.antt =====
-- Runs of the theorems on the server as a whole.
use odroid_player.Prelude.{
  ◌≡◌, refl, pos, minus_one, List, [], ◌∷◌, some, true, false, replicate, arith,
}
use odroid_player.Sys.{Call}
use odroid_player.Message.{create_node, copy_data}
use odroid_player.Queue.{enqueue, dequeue}
use odroid_player.Pool.{ClientPool, empty_client, find_client, find_client_id}
use odroid_player.FdSet.{init_set, fd_ready, set_fd}
use odroid_player.Player.{Player}
use odroid_player.Lifecycle.{StartWorld, start_player}
use odroid_player.Playback.Frame.{top}
use odroid_player.Receive.{receive_part, receive_rest, receive_sized, receive_message}
use odroid_player.Server.{client_slot, take_message, handle_received}
use odroid_player.Response.{respond}
use odroid_player.System.{System, idle, holding, Step, slot, take, here, next, begin, accepted}
use odroid_player.System.Live.{IsServer, Reach-executes}
use odroid_player.Examples.{three_files, list_at, list_at_first, good_net, ready_player}
use odroid_player.Examples.PlaylistRuns.{empty_player}
use odroid_player.Examples.ServerRuns.{all_ready, input_of, next_node}
use odroid_player.Examples.ResponseRuns.{world, next_is_counted}

-- A server between two files whose two clients are watched.
abbrev pub watched_player : Player
watched_player = record (ready_player 0) {
  serv_set = set_fd (pos 5) (set_fd (pos 6) init_set);
  serv_maxfd = pos 6;
}

abbrev server : System
server = record { phase = top; stage = idle; client_id = 2; player = watched_player }

server-IsServer : IsServer three_files server
server-IsServer = record {
  live = record {
    play = ((refl, refl), (0, list_at_first));
    steady = record {
      sized = record { counted = refl; bounded = omega arith };
      texts = tt;
      prev = tt;
    };
  };
  stage = tt;
}

-- The second client asks for the next file, and the response thread takes the node.
abbrev asked : System
asked = record server {
  player = record watched_player {
    queue = record { nodes = next_node ∷ []; size = 1; running = true };
  };
}

abbrev in_hand : System
in_hand = record asked {
  stage = holding next_node;
  player = record watched_player { queue = record { nodes = []; size = 0; running = true } };
}

asking : Step good_net server asked
unfolding client_slot find_client find_client_id fd_ready handle_received take_message
    receive_message receive_part receive_sized receive_rest create_node copy_data enqueue
asking = slot server true true all_ready (pos 1) (input_of ("next" ∷ [])) asked.player [] refl

taking : Step good_net asked in_hand
unfolding dequeue
taking = take asked next_node (in_hand.player).queue refl refl

executes_example :
    (p : Player) × (calls : List Call) × (respond world next_node in_hand.player ≡ some (p, calls))
executes_example =
    Reach-executes three_files good_net server world next_node (omega arith) server-IsServer
      (next (next here asking) taking) refl next_is_counted

abbrev pub created_player : Player
created_player = record empty_player {
  client_pool = record { client_arr = replicate 8 empty_client; client_cnt = pos 0 };
  serv_thread_id = 0;
  resp_thread_id = 0;
  strm_thread_id = 0;
  wtdg_thread_id = 0;
  play_thread_id = 0;
  running = false;
  serv_set = init_set;
  strm_set = init_set;
  log_level = pos 6;
}

abbrev prepared_player : Player
prepared_player = record created_player { playlist = list_at 0 }

abbrev threads : StartWorld
threads = record { strm = some 3; serv = some 1; resp = some 2; wtdg = some 4; play = some 5 }

abbrev begun : System
begun = begin (pos 3) (start_player threads prepared_player).1

-- A client comes, and two removals of it overlap: it is counted down twice.
abbrev torn_pool : ClientPool
torn_pool = record (created_player.client_pool) { client_cnt = minus_one }

abbrev torn : System
torn = record (accepted good_net (pos 7) begun) {
  player = record ((accepted good_net (pos 7) begun).player) {
    client_pool = torn_pool;
    serv_maxfd = pos 3;
    serv_set = init_set;
    strm_maxfd = pos 0;
    strm_set = init_set;
  };
}
