-- ===== src/Opc/Connection/Preparing.antt =====
-- What the preparation of a client by src/client/opc/opclient.c comes to.
use odroid_player.Prelude.{◌≡◌, refl, ◌⊎◌, inl, inr, none, Bool, true, false, Bool-cases}
use odroid_player.Queue.{create_queue as empty_queue}
use odroid_player.Queue.Size.{create_queue-IsWellFormed}
use odroid_player.Opc.{OpClient}
use odroid_player.Opc.Queues.{create_queue}
use odroid_player.Opc.Monitors.{create_monitor, get_monitor_play}
use odroid_player.Opc.Connection.{PrepareWorld, prepared, opc_prepare}
use odroid_player.Opc.Reception.Sound.{IsSound}

abbrev pub IsEmpty : OpClient → Type 0
IsEmpty c = (c.monitor ≡ none) × (c.msg_queue ≡ none) × (c.cmd_queue ≡ none)

abbrev pub Prepares : Bool × OpClient → Type 0
Prepares (done, c) =
    ((done ≡ true) × IsSound c × (get_monitor_play c.monitor ≡ true)) ⊎ ((done ≡ false) × IsEmpty c)

prepared-Prepares :
    (world : PrepareWorld) (client : OpClient) (a b c : Bool)
    → IsEmpty client
    → Prepares (prepared world client (create_monitor a) (create_queue b) (create_queue c))
unfolding prepared create_monitor create_queue get_monitor_play empty_queue
prepared-Prepares world client false b c h = (let (_, q, r) = h in inr (refl, (refl, q, r)))
prepared-Prepares world client true false c h = (let (_, _, r) = h in inr (refl, (refl, refl, r)))
prepared-Prepares world client true true false h = inr (refl, (refl, refl, refl))
prepared-Prepares world client true true true h = elim (Bool-cases world.thread_ok) [
  | inr e ↦ simp e (inr (refl, (refl, refl, refl)))
  | inl e ↦ simp e (
      inl (
        refl,
        record {
          watched = (_, refl);
          msg_sound = (create_queue-IsWellFormed, tt);
          cmd_sound = (create_queue-IsWellFormed, tt);
        },
        refl,
      ))
]

-- A client without a monitor and queues either gets all three, the monitor and the queues running,
-- or, when memory or the thread fails, still has none of them.
pub opc_prepare-Prepares :
    (world : PrepareWorld) (client : OpClient)
    → IsEmpty client
    → Prepares (opc_prepare world client)
unfolding opc_prepare
opc_prepare-Prepares world client h =
    prepared-Prepares world client world.monitor_ok world.msg_queue_ok world.cmd_queue_ok h
