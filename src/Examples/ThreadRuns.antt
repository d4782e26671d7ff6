-- ===== src/Examples/ThreadRuns.antt =====
-- Runs of the theorems on the loops of the server's threads.
use odroid_player.Prelude.{◌≡◌, refl, ℤ, pos, List, [], ◌∷◌, none, some, true, false}
use odroid_player.Sys.{Call}
use odroid_player.Pool.Change.{add_client}
use odroid_player.Pool.{first_index, find_client, get_client_cnt}
use odroid_player.FdSet.{fd_ready, set_fd, init_set, update_fd_set}
use odroid_player.FdSet.Wait.{wait_fd}
use odroid_player.Player.{Player, get_player_running}
use odroid_player.Queue.{dequeue}
use odroid_player.Server.{client_slot, accept_step, connect_new_client}
use odroid_player.Stream.{delivered, stream_slot}
use odroid_player.System.{watch_server}
use odroid_player.Threads.{
  Ran, WaitTurn, ServerTurn, ResponseTurn, StreamTurn, run_server, run_response, run_stream,
}
use odroid_player.Threads.Ends.{Ends, closing_calls, threads-Ends}
use odroid_player.Examples.{good_net, at_time}
use odroid_player.Examples.ServerRuns.{input_of}
use odroid_player.Examples.ResponseRuns.{world}
use odroid_player.Examples.SystemRuns.{created_player}

abbrev player_of : Ran → Player
player_of none = created_player
player_of (some (over, p, calls)) = p

abbrev calls_of : Ran → List Call
calls_of none = []
calls_of (some (over, p, calls)) = calls

-- The descriptor that `pselect` leaves.
abbrev finds : ℤ → WaitTurn
finds fd = record {
  changes = λ p. p;
  pselect = λ nfds s. record { ret = pos 1; interrupted = false; left = set_fd fd init_set };
  woken = λ p. p;
}

-- The player is stopped before the turn.
abbrev stops : WaitTurn
stops = record (finds (pos 3)) { changes = λ p. record p { running = false } }

abbrev client_comes : ServerTurn
client_comes = record {
  wait = finds (pos 3);
  accepted = pos 7;
  slots = λ i. record { node_ok = true; data_ok = true; input = input_of [] };
}

abbrev running_player : Player
running_player = record created_player { running = true }

abbrev server_turns : List ServerTurn
server_turns = client_comes ∷ record client_comes { wait = stops } ∷ []

abbrev response_turns : List ResponseTurn
response_turns =
    record {
      changes = λ p. p;
      wakes =
          record running_player {
            running = false;
            queue = record { nodes = []; size = 0; running = false };
          }
          ∷ [];
      world = world;
    }
    ∷ []

abbrev stream_turns : List StreamTurn
stream_turns =
    record { wait = finds (pos 9); sent = λ fd. delivered; now = at_time 100 }
    ∷ record { wait = stops; sent = λ fd. delivered; now = at_time 100 }
    ∷ []

abbrev served : Ran
served = run_server good_net (pos 3) server_turns running_player

abbrev answered : Ran
answered = run_response response_turns running_player

abbrev streamed : Ran
streamed = run_stream stream_turns running_player

serves : served ≡ some (true, player_of served, calls_of served)
unfolding run_server watch_server wait_fd get_player_running fd_ready set_fd init_set accept_step
    connect_new_client client_slot find_client get_client_cnt add_client first_index update_fd_set
serves = refl

answers : answered ≡ some (true, player_of answered, calls_of answered)
unfolding run_response get_player_running dequeue
answers = refl

streams : streamed ≡ some (true, player_of streamed, calls_of streamed)
unfolding run_stream wait_fd get_player_running set_fd init_set stream_slot
streams = refl

threads_example :
    Ends (closing_calls (pos 3)) (some (true, player_of served, calls_of served))
    × Ends [] (some (true, player_of answered, calls_of answered))
    × Ends [] (some (true, player_of streamed, calls_of streamed))
threads_example =
    threads-Ends good_net 2 server_turns response_turns stream_turns running_player
      (player_of served) (player_of answered) (player_of streamed) (calls_of served)
      (calls_of answered) (calls_of streamed) serves answers streams
