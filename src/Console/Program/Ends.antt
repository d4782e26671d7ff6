-- ===== src/Console/Program/Ends.antt =====
-- How the command line client of src/client/main.c ends, and how it leaves the terminal.
use odroid_player.Prelude.{
  ◌≡◌, refl, sym, ap, subst, ◌⊎◌, inl, inr, ℤ, pos, eq_ℤ, String, List, [], ◌∷◌, ◌++◌, append_assoc,
  Option, none, some, Bool, true, false, All, Bool-cases,
}
use odroid_player.Sys.{Call, close}
use odroid_player.Listener.{set_my_async_receiver}
use odroid_player.Queue.{clear_queue}
use odroid_player.Opc.{OpClient, OpcNode, OpcQueue}
use odroid_player.Opc.Queues.{remove_queue}
use odroid_player.Opc.Monitors.{set_queue}
use odroid_player.Opc.Waiting.{opc_thread_timeout}
use odroid_player.Opc.Connection.{Destroyed, exited, destroyed, opc_init, opc_destroy}
use odroid_player.Opc.Connection.Tries.{opc_connect-Tried}
use odroid_player.Opc.Connection.Preparing.{IsEmpty, Prepares, opc_prepare-Prepares}
use odroid_player.Opc.Reception.Sound.{IsSound}
use odroid_player.Console.{Console}
use odroid_player.Console.Loop.{CarefulMoment, ConsoleEnds, run_console-ConsoleEnds}
use odroid_player.Console.Program.{
  ClientArg, Terminal, interrupt_handler, enter_loop, leave_loop, ClientWorld, usage, failed,
  loop_fault, looping, closed, endless, ClientEnd, end_loop, fail_with, run_loop, after_prepare,
  after_connect, after_init, after_options, main,
}

abbrev pub nodes_of : Option OpcQueue → List OpcNode
nodes_of none = []
nodes_of (some q) = q.nodes

-- The client is freed with all that its queues hold, and its socket is closed last, when the receiver
-- is joined; the process exits before when it is not.
abbrev pub Frees : Option ℤ → ℤ → OpClient → Destroyed → Type 0
Frees joined errno c d =
    ((eq_ℤ (opc_thread_timeout joined errno) (pos 0) ≡ false) × (d ≡ exited))
    ⊎ ((eq_ℤ (opc_thread_timeout joined errno) (pos 0) ≡ true)
        × ((calls : List Call) × (d
              ≡ destroyed (nodes_of c.msg_queue) (nodes_of c.cmd_queue)
                  (calls ++ close c.client_fd ∷ []))))

clear_queue-all : (nodes : List OpcNode) → clear_queue nodes ≡ nodes
unfolding clear_queue
clear_queue-all [] = refl
clear_queue-all (x ∷ nodes) = ap (λ xs. x ∷ xs) (clear_queue-all nodes)

remove_queue-set_queue :
    (play : Bool) (queue : Option OpcQueue) → remove_queue (set_queue play queue).0 ≡ nodes_of queue
unfolding remove_queue set_queue
remove_queue-set_queue play none = refl
remove_queue-set_queue play (some q) = clear_queue-all q.nodes

opc_destroy-Frees :
    (joined : Option ℤ) (errno : ℤ) (c : OpClient)
    → Frees joined errno c (opc_destroy joined errno c)
unfolding opc_destroy
opc_destroy-Frees joined errno c =
    elim (Bool-cases (eq_ℤ (opc_thread_timeout joined errno) (pos 0))) [
      | inr not_joined ↦ inl (not_joined, simp not_joined)
      | inl ended ↦
          let (m, told_msg) = set_queue false c.msg_queue in
          let (r, told_cmd) = set_queue false c.cmd_queue in
          inr (
            ended,
            (
              told_msg ++ told_cmd,
              simp (
                ended,
                remove_queue-set_queue,
                append_assoc told_msg told_cmd (close c.client_fd ∷ []),
              ),
            ),
          )
    ]

-- The attributes and the flags of the terminal are those from before, and the cursor is seen.
abbrev pub Restored : Terminal → Terminal → Type 0
Restored before after =
    (after.attrs ≡ before.attrs) × (after.nonblock ≡ before.nonblock) × (after.hidden ≡ false)

-- What SIGINT leaves in the loop: the attributes are restored, the flags are not.
abbrev pub HalfRestored : Terminal → Terminal → Type 0
HalfRestored before t =
    ((interrupt_handler before.attrs t).attrs ≡ before.attrs)
    × ((interrupt_handler before.attrs t).nonblock ≡ true)

-- The ends of the run of a world.
abbrev pub ClientEnds : ClientWorld → ClientEnd → Type 0
ClientEnds world (usage, t, calls) = (t ≡ world.terminal) × (calls ≡ [])
ClientEnds world (failed none, t, calls) =
    (world.init_ok ≡ false) × (t ≡ world.terminal) × (calls ≡ [])
ClientEnds world (failed (some d), t, calls) =
    ((c : OpClient) × IsEmpty c × Frees world.joined world.errno c d)
    × (t ≡ world.terminal)
    × (calls ≡ [])
ClientEnds world (loop_fault, t, calls) = calls ≡ set_my_async_receiver world.async_thread
ClientEnds world (looping c, t, calls) =
    IsSound c.client
    × HalfRestored world.terminal t
    × (calls ≡ set_my_async_receiver world.async_thread)
ClientEnds world (closed c d, t, calls) =
    IsSound c
    × Frees world.joined world.errno c d
    × Restored world.terminal t
    × (calls ≡ set_my_async_receiver world.async_thread)
ClientEnds world (endless, t, calls) = ⊥

-- What the other threads do keeps the client sound, up to its end.
abbrev pub CarefulWorld : ClientWorld → Type 0
CarefulWorld world =
    All CarefulMoment world.moments × ((c : OpClient) → IsSound c → IsSound (world.changes c))

module _ (world : ClientWorld) where
  fail_with-Ends : (client : OpClient) → IsEmpty client → ClientEnds world (fail_with world client)
  unfolding fail_with
  fail_with-Ends client h =
      ((client, h, opc_destroy-Frees world.joined world.errno client), refl, refl)

  end_loop-Ends :
      (outcome : Option (Bool × Console))
      → ((c : OpClient) → IsSound c → IsSound (world.changes c))
      → ConsoleEnds outcome
      → let (saved, flags, entered) = enter_loop world.terminal in
        let (run, left) = end_loop world saved flags entered outcome in
        ClientEnds world (run, left, set_my_async_receiver world.async_thread)
  unfolding end_loop enter_loop leave_loop interrupt_handler
  end_loop-Ends none k h = refl
  end_loop-Ends (some (false, c)) k h = (h, (refl, refl), refl)
  end_loop-Ends (some (true, c)) k h =
      (k c.client h.0, opc_destroy-Frees world.joined world.errno _, (refl, refl, refl), refl)

  after_prepare-Ends :
      (prepared : Bool × OpClient)
      → CarefulWorld world
      → Prepares prepared
      → ClientEnds world (after_prepare world prepared)
  unfolding after_prepare run_loop
  after_prepare-Ends (true, client) k (inl (_, v, _)) =
      end_loop-Ends _ k.1 (run_console-ConsoleEnds world.moments _ k.0 v)
  after_prepare-Ends (true, client) k (inr (e, _)) = absurd cc
  after_prepare-Ends (false, client) k (inl (e, _, _)) = absurd cc
  after_prepare-Ends (false, client) k (inr (_, h)) = fail_with-Ends client h

  after_connect-Ends :
      (done : Bool) (client : OpClient) (calls : List Call)
      → CarefulWorld world
      → IsEmpty client
      → ClientEnds world (after_connect world (some (done, client, calls)))
  unfolding after_connect
  after_connect-Ends false client calls k h = fail_with-Ends client h
  after_connect-Ends true client calls k h =
      after_prepare-Ends _ k (opc_prepare-Prepares world.prepare client h)

  after_init-Ends :
      (init_ok : Bool)
      → world.init_ok ≡ init_ok
      → CarefulWorld world
      → ClientEnds world (after_init world (opc_init init_ok))
  unfolding after_init opc_init
  after_init-Ends false e k = (e, refl, refl)
  after_init-Ends true e k =
      let (done, calls, f, _) = opc_connect-Tried world.socket_fd world.connects _ 0 refl in
      subst (λ o. ClientEnds world (after_connect world o)) (sym f)
        (after_connect-Ends done _ calls k (refl, refl, refl))

  after_options-Ends :
      (log_level : Option ℤ) → CarefulWorld world → ClientEnds world (after_options world log_level)
  unfolding after_options
  after_options-Ends none k = (refl, refl)
  after_options-Ends (some n) k = after_init-Ends world.init_ok refl k

-- Whatever the arguments, the keys, the server and the system, and whatever the receiver does that
-- keeps a client sound, the command line client goes one of these ways. It ends for `--help` or
-- because there is no client, with the terminal untouched. It cannot connect or prepare its client:
-- it frees it, and leaves the terminal untouched. It is in its loop, with a sound client; SIGINT
-- then restores the attributes of the terminal and leaves its input O_NONBLOCK. It reads past the
-- texts of a status. Or it leaves its loop: the attributes and flags of the terminal are restored
-- and the client is freed. A client is freed with all that its queues hold, its socket closed last,
-- just when the join of its receiver answers 0; the process exits before when it does not. The
-- attempts to connect come to an end, and the listening thread is started only with a prepared
-- client.
pub main-ClientEnds :
    (parse : String → ClientArg) (args : List String) (world : ClientWorld)
    → CarefulWorld world
    → ClientEnds world (main parse args world)
unfolding main
main-ClientEnds parse args world k = after_options-Ends world _ k
