-- ===== src/Examples/ResponseRuns.antt =====
-- Runs of the theorems on src/server/response/response.c and src/server/agmp/agmp_cmds.c.
use odroid_player.Prelude.{
  ℕ, suc, ◌≡◌, ◌≢◌, refl, pos, String, List, [], ◌∷◌, some, true, get_elem?, arith,
}
use odroid_player.Sys.{Call}
use odroid_player.Message.{success, command, Node, next, cmd_count}
use odroid_player.Send.{Attempt, went, blocked}
use odroid_player.Player.{Player}
use odroid_player.Playback.{again, reaped, current_file}
use odroid_player.Command.{cmd_next}
use odroid_player.Command.Moves.{cmd_next-reaped}
use odroid_player.Response.{World, resend, respond}
use odroid_player.Response.Outcome.{Outcome, resend-Outcome, respond_returns}
use odroid_player.Examples.{three_files, list_at_second, good_net, busy_player, at_time}
use odroid_player.Message.{stream, time}
use odroid_player.Pool.Valid.{client_of}
use odroid_player.Pool.Streams.{with_stream}
use odroid_player.Pool.Search.{find_slot}
use odroid_player.Response.{Executed, execute_command}
use odroid_player.Response.Streaming.{timed, execute_command-stream}
use odroid_player.Examples.{two_clients, two_clients-IsValid, plain_client}

-- The first answer times out, and the next one is sent.
abbrev attempt : ℕ → Attempt
attempt ℕ.zero = record { answer_ok = true; length_sending = blocked; answer_sending = went }
attempt (suc k) = record { answer_ok = true; length_sending = went; answer_sending = went }

abbrev pub world : World
world = record {
  now = at_time 110;
  api = record { create_socket_name = λ s. some s; create_socket_uds = λ type path. pos 12 };
  killed = pos 0;
  net = good_net;
  items_ok = true;
  saved_ok = true;
  saved_items_ok = true;
  attempts = attempt;
}

abbrev node_next : Node
node_next = record {
  client_id = pos 1;
  client_fd = pos 6;
  msg_idx = pos 3;
  status = success;
  type = command;
  cmd = next;
  n_data = 1;
  items = some (some "next" ∷ []);
}

pub next_is_counted : next ≢ cmd_count
next_is_counted e = cc

next_example :
    (f : String) × (p q : Player) × (calls sent : List Call) × (get_elem? three_files 2 ≡ some f)
    × (cmd_next success (busy_player 1) (at_time 110)
        ≡ some (record { text = some f; status = success; player = p; calls = calls }))
    × (reaped good_net p ≡ again q sent)
    × (current_file q ≡ some f)
next_example =
    cmd_next-reaped good_net three_files 1 success (busy_player 1) (at_time 110) list_at_second
      (omega arith) refl

returns_example :
    (p : Player) × (calls : List Call) × (respond world node_next (busy_player 1) ≡ some (p, calls))
returns_example =
    respond_returns world node_next (busy_player 1) three_files 1 "next" refl next_is_counted
      list_at_second (omega arith) tt

resend_example :
    Outcome world node_next success
      (some "b.mp4" ∷ [])
      3
      0
      (busy_player 1)
      (resend world node_next success (some "b.mp4" ∷ []) 3 0 (busy_player 1)).0
resend_example = resend-Outcome world node_next success (some "b.mp4" ∷ []) 3 0 (busy_player 1)

abbrev node_stream : Node
node_stream = record node_next { type = stream; cmd = time }

abbrev streaming_player : Player
streaming_player = record (busy_player 1) { client_pool = two_clients }

stream_request_example :
    (e : Executed) × (execute_command world node_stream streaming_player ≡ some e)
    × (e.items ≡ some (some "ops_stream" ∷ some "opc_stream" ∷ []))
    × (e.status ≡ success)
    × (client_of (e.player).client_pool (pos 6)
        ≡ some (timed (with_stream plain_client (pos 12) "ops_stream" "opc_stream")))
unfolding find_slot
stream_request_example =
    execute_command-stream world node_stream streaming_player 5 11 "ops_stream" "opc_stream"
      plain_client refl refl refl two_clients-IsValid refl refl refl refl refl refl refl refl
