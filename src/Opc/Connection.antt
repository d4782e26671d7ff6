-- ===== src/Opc/Connection.antt =====
-- src/client/opc/opclient.c, `opc_init` to `opc_destroy`: how a client is made, prepared, connected
-- and destroyed.
pub mod Tries
pub mod Preparing
use odroid_player.Prelude.{
  ℕ, zero, suc, leb, ℤ, pos, ltb_ℤ, eq_ℤ, List, [], ◌∷◌, ◌++◌, Option, none, some, Bool, true,
  false, if◌then◌else◌,
}
use odroid_player.Sys.{Call, close, connect, sleep}
use odroid_player.Opc.{OpcNode, OpcQueue, Monitor, OpClient, max_connect_wait}
use odroid_player.Opc.Queues.{create_queue, remove_queue}
use odroid_player.Opc.Monitors.{create_monitor, set_queue}
use odroid_player.Opc.Waiting.{opc_thread_timeout}

unfoldable pub opc_init : Bool → Option OpClient
opc_init false = none
opc_init true = some (record {
  client_fd = pos 0;
  msg_idx = 0;
  monitor = none;
  msg_queue = none;
  cmd_queue = none;
  recv_thread_id = 0;
})

-- The answers of the three `malloc` calls and of `pthread_create`.
pub record PrepareWorld : Type 0 where
  pub monitor_ok : Bool
  pub msg_queue_ok : Bool
  pub cmd_queue_ok : Bool
  pub thread_id : ℕ
  pub thread_ok : Bool

-- What becomes of the client with the monitor and the two queues that there was memory for;
-- `pthread_create` writes its identifier also when it fails.
unfoldable pub prepared :
    PrepareWorld → OpClient → Option Monitor → Option OpcQueue → Option OpcQueue → Bool × OpClient
prepared world client none _ _ = (false, record client { monitor = none })
prepared world client (some monitor) none _ =
    (false, record client { monitor = none; msg_queue = none })
prepared world client (some monitor) (some msg_queue) none =
    (false, record client { monitor = none; msg_queue = none; cmd_queue = none })
prepared world client (some monitor) (some msg_queue) (some cmd_queue) =
    if world.thread_ok
    then (
      true,
      record client {
        monitor = some monitor;
        msg_queue = some msg_queue;
        cmd_queue = some cmd_queue;
        recv_thread_id = world.thread_id;
      },
    )
    else (
      false,
      record client {
        monitor = none;
        msg_queue = none;
        cmd_queue = none;
        recv_thread_id = world.thread_id;
      },
    )

unfoldable pub opc_prepare : PrepareWorld → OpClient → Bool × OpClient
unfolding prepared
opc_prepare world client =
    prepared world client (create_monitor world.monitor_ok) (create_queue world.msg_queue_ok)
      (create_queue world.cmd_queue_ok)

-- The answer of `connect`; `refused` is ECONNREFUSED or ENOENT.
pub data ConnectAnswer : Type 0 where
  connected refused failed : ConnectAnswer

-- What one answer of `connect` leads to; `again` is what the rest of the loop returns.
unfoldable pub connect_answered :
    ℤ → ℕ → Option (Bool × List Call) → ConnectAnswer → Option (Bool × List Call)
connect_answered fd count again connected = some (true, connect fd ∷ [])
connect_answered fd count again failed = some (false, connect fd ∷ [])
connect_answered fd count again refused =
    if leb max_connect_wait (suc count)
    then some (false, connect fd ∷ sleep 1 ∷ [])
    else (elim again [
      | none ↦ none
      | some (done, calls) ↦ some (done, connect fd ∷ sleep 1 ∷ calls)
    ])

-- The loop over the calls of `connect`, numbered by `count`, on fuel; without fuel there is no
-- result.
unfoldable pub connect_loop : ℕ → (ℕ → ConnectAnswer) → ℤ → ℕ → Option (Bool × List Call)
unfolding connect_answered
connect_loop zero answers fd count = none
connect_loop (suc fuel) answers fd count =
    connect_answered fd count (connect_loop fuel answers fd (suc count)) (answers count)

unfoldable pub opc_connected :
    ℤ → OpClient → List Call → Option (Bool × List Call) → Option (Bool × OpClient × List Call)
opc_connected fd client closed none = none
opc_connected fd client closed (some (done, calls)) =
    some (done, record client { client_fd = fd }, closed ++ calls)

-- `fd` is the answer of `socket`; the test after it is of the old descriptor, as in the code.
unfoldable pub opc_connect :
    ℤ → (ℕ → ConnectAnswer) → OpClient → Option (Bool × OpClient × List Call)
unfolding connect_loop opc_connected
opc_connect fd answers client =
    let closed = if eq_ℤ client.client_fd (pos 0) then [] else close client.client_fd ∷ [] in
    let tried = opc_connected fd client closed (connect_loop max_connect_wait answers fd 0) in
    if ltb_ℤ client.client_fd (pos 0) then some (false, client, closed) else tried

-- The process exits when the receiver does not end; otherwise the nodes of both queues are freed,
-- and the client after them.
pub data Destroyed : Type 0 where
  exited : Destroyed
  destroyed : List OpcNode → List OpcNode → List Call → Destroyed

unfoldable pub opc_destroy : Option ℤ → ℤ → OpClient → Destroyed
unfolding set_queue
opc_destroy joined errno client =
    let (msg_queue, told_msg) = set_queue false client.msg_queue in
    let (cmd_queue, told_cmd) = set_queue false client.cmd_queue in
    if eq_ℤ (opc_thread_timeout joined errno) (pos 0)
    then destroyed (remove_queue msg_queue) (remove_queue cmd_queue)
        (told_msg ++ (told_cmd ++ close client.client_fd ∷ []))
    else exited
