-- ===== src/Examples/ExchangeRuns.antt =====
-- Runs of the theorem on a request and its answer, and of the one on src/client/main.c.
use odroid_player.Prelude.{◌≡◌, refl, pos, String, List, [], ◌∷◌, ◌++◌, some, true, arith}
use odroid_player.Sys.{Call, send_length, send_request}
use odroid_player.Message.{command, next}
use odroid_player.Player.{Player}
use odroid_player.Server.{message_node}
use odroid_player.Response.{World, Executed, execute_command, respond}
use odroid_player.Opc.{OpClient}
use odroid_player.Opc.Monitors.{get_monitor_play}
use odroid_player.Opc.Sending.{send_success, send_command}
use odroid_player.Opc.Waiting.{get_command_response}
use odroid_player.Opc.Receiver.{handle_message}
use odroid_player.Exchange.{
  request_message, request_node, answer_to, answer_calls, delivered, good_attempt, good_sending,
}
use odroid_player.Exchange.RoundTrip.{Replies, exchange-Replies}
use odroid_player.Examples.{three_files, list_at_second, busy_player}
use odroid_player.Examples.ResponseRuns.{world, next_is_counted}
use odroid_player.Examples.OpcRuns.{node_at, queue_of, client_with, quiet_visit}
use odroid_player.Examples.ReceiverRuns.{closing}

abbrev good_world : World
good_world = record world { attempts = λ k. good_attempt }

exchange_example :
    (text : String) × let node = request_node (pos 1) (pos 6) 3 next text in
      (send_command good_sending (client_with (node_at 2 ∷ [])) command next send_success
        ≡ some (
          true,
          send_success,
          send_length (pos 4) ∷ send_request (pos 4) (request_message 3 next text) ∷ [],
        ))
      × (message_node true true (pos 1) (pos 6) (request_message 3 next text) ≡ some node)
      × ((e : Executed) × (t : String) × (p : Player) × (before : List Call) × (c : OpClient)
          × (execute_command good_world node (busy_player 1) ≡ some e)
          × (e.items ≡ some (some t ∷ []))
          × (respond good_world node (busy_player 1)
              ≡ some (p, before ++ answer_calls node e.status (some t ∷ [])))
          × (handle_message closing
                (client_with (node_at 2 ∷ []))
                (delivered (answer_to node e.status (some t ∷ [])) (t ∷ []))
              ≡ some (c, []))
          × Replies 3 e.status t
              (get_command_response true true (quiet_visit ∷ quiet_visit ∷ []) c))
unfolding get_monitor_play
exchange_example =
    exchange-Replies good_world (busy_player 1) three_files 1 (pos 1) (pos 6) next send_success
      closing (client_with (node_at 2 ∷ [])) (queue_of (node_at 2 ∷ []))
      (quiet_visit ∷ quiet_visit ∷ []) next_is_counted list_at_second (omega arith) tt refl refl
      refl refl refl (omega arith) (omega arith) (refl, tt) (refl, tt)
      ((refl, tt), ((refl, tt), tt)) (omega arith)
