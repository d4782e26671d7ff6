-- ===== src/Opc/Monitors.antt =====
-- src/client/opc/monitor/monitor.c: the flag that keeps the client's threads running, and the status
-- that it was set with.
use odroid_player.Prelude.{List, [], ◌∷◌, ◌++◌, Option, none, some, Bool, true, false}
use odroid_player.Sys.{Call, cond_signal, queue_cond}
use odroid_player.Message.{Status, success}
use odroid_player.Opc.{Monitor, OpClient, OpcQueue}

unfoldable pub create_monitor : Bool → Option Monitor
create_monitor true = some (record { play = true; status = success })
create_monitor false = none

-- What becomes of one queue of the client: its flag, and the signal to whoever waits on it.
unfoldable pub set_queue : Bool → Option OpcQueue → Option OpcQueue × List Call
set_queue play none = (none, [])
set_queue play (some q) = (some (record q { running = play }), cond_signal queue_cond ∷ [])

unfoldable pub set_monitor : OpClient → Bool → Status → OpClient × List Call
unfolding set_queue
set_monitor client play status =
    let (msg_queue, told_msg) = set_queue play client.msg_queue in
    let (cmd_queue, told_cmd) = set_queue play client.cmd_queue in
    elim (client.monitor) [
      | none ↦ (client, [])
      | some _ ↦ (
        record client {
          monitor = some (record { play = play; status = status });
          msg_queue = msg_queue;
          cmd_queue = cmd_queue;
        },
        told_msg ++ told_cmd,
      )
    ]

unfoldable pub get_monitor_play : Option Monitor → Bool
get_monitor_play none = false
get_monitor_play (some monitor) = monitor.play

-- A NULL monitor fails the assertion.
unfoldable pub get_monitor_status : Option Monitor → Option Status
get_monitor_status none = none
get_monitor_status (some monitor) = some monitor.status
