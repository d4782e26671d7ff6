-- ===== src/Examples/ConnectionRuns.antt =====
-- Runs of the theorems on the connection of src/client/opc.
use odroid_player.Prelude.{
  ℕ, suc, ◌≡◌, refl, pos, negsuc, List, [], ◌∷◌, none, some, Bool, true, false,
}
use odroid_player.Sys.{Call, close, connect}
use odroid_player.Opc.{OpClient, max_connect_wait}
use odroid_player.Opc.Connection.{
  PrepareWorld, ConnectAnswer, connected, refused, failed, opc_connect,
}
use odroid_player.Opc.Connection.Tries.{sleeps, Tried, opc_connect-Tried, opc_connect_stuck}
use odroid_player.Examples.OpcRuns.{client_with}

-- The second call of `connect` is accepted.
abbrev pub second_try : ℕ → ConnectAnswer
second_try ℕ.zero = refused
second_try (suc k) = connected

connect_example :
    (done : Bool) × (calls : List Call) × (opc_connect (pos 7) second_try (client_with [])
      ≡ some (done, record (client_with []) { client_fd = pos 7 }, calls))
    × Tried second_try max_connect_wait 0 done (sleeps calls)
connect_example = opc_connect-Tried (pos 7) second_try (client_with []) 4 refl

abbrev pub all_fail : ℕ → ConnectAnswer
all_fail k = failed

stuck_example :
    opc_connect (pos 7) second_try (record (client_with []) { client_fd = negsuc 0 })
    ≡ some (false, record (client_with []) { client_fd = negsuc 0 }, close (negsuc 0) ∷ [])
unfolding opc_connect
stuck_example =
    opc_connect_stuck 4 0 all_fail second_try (client_with [])
      (record (client_with []) { client_fd = negsuc 0 }) false
      (close (pos 4) ∷ connect (negsuc 0) ∷ []) (pos 7) refl refl

abbrev bare_client : OpClient
bare_client = record (client_with []) { monitor = none; msg_queue = none; cmd_queue = none }

abbrev pub preparing : PrepareWorld
preparing = record {
  monitor_ok = true;
  msg_queue_ok = true;
  cmd_queue_ok = true;
  thread_id = 1;
  thread_ok = true;
}
