-- ===== src/Console/Program.antt =====
-- src/client/main.c: the options, the terminal and `main` of the command line client, and its
-- SIGINT handler. How `strncmp` and `sscanf` read an option is an argument.
pub mod Ends
use odroid_player.Prelude.{
  ℕ, zero, ℤ, pos, leb_ℤ, String, List, [], ◌∷◌, Option, none, some, Bool, true, false, ◌&&◌,
  if◌then◌else◌,
}
use odroid_player.Sys.{Call}
use odroid_player.Startup.Options.{quiet}
use odroid_player.Opc.{OpClient}
use odroid_player.Opc.Connection.{
  PrepareWorld, ConnectAnswer, Destroyed, opc_init, opc_connect, opc_prepare, opc_destroy,
}
use odroid_player.Listener.{set_my_async_receiver}
use odroid_player.Console.{Console, Moment, run_console}

-- What an argument is: `level` with its number, `other` for what is passed over.
pub data ClientArg : Type 0 where
  help other : ClientArg
  level : ℤ → ClientArg

-- The log level that the arguments set; none where `--help` ends the process.
unfoldable pub handle_argument : (String → ClientArg) → List String → ℤ → Option ℤ
handle_argument parse [] log_level = some log_level
handle_argument parse (arg ∷ args) log_level = elim (parse arg) [
  | help ↦ none
  | other ↦ handle_argument parse args log_level
  | level n ↦
      handle_argument parse args (if leb_ℤ (pos 0) n && leb_ℤ n (pos 6) then n else log_level)
]

-- The parts of `struct termios` that the program changes.
pub record Termios : Type 0 where
  pub icanon : Bool
  pub echo : Bool
  pub vmin : ℕ
  pub vtime : ℕ

-- The terminal: its attributes, whether the input is O_NONBLOCK, and whether the cursor is hidden.
pub record Terminal : Type 0 where
  pub attrs : Termios
  pub nonblock : Bool
  pub hidden : Bool

-- `g_orig_term` before `enable_raw_mode`: a static variable is zero.
abbrev pub zero_term : Termios
zero_term = record { icanon = false; echo = false; vmin = 0; vtime = 0 }

-- The attributes that are kept in `g_orig_term`, and the terminal.
unfoldable pub enable_raw_mode : Terminal → Termios × Terminal
enable_raw_mode t =
    (t.attrs, record t { attrs = record { icanon = false; echo = false; vmin = 1; vtime = 0 } })

unfoldable pub disable_raw_mode : Termios → Terminal → Terminal
disable_raw_mode g_orig_term t = record t { attrs = g_orig_term }

-- What SIGINT does before the process exits.
unfoldable pub interrupt_handler : Termios → Terminal → Terminal
unfolding disable_raw_mode
interrupt_handler g_orig_term t = record (disable_raw_mode g_orig_term t) { hidden = false }

-- The terminal as the loop finds it, and what is kept for its end: the attributes and the flag.
unfoldable pub enter_loop : Terminal → Termios × Bool × Terminal
unfolding enable_raw_mode
enter_loop t =
    let (g_orig_term, raw) = enable_raw_mode t in
    (g_orig_term, raw.nonblock, record raw { nonblock = true; hidden = true })

unfoldable pub leave_loop : Termios → Bool → Terminal → Terminal
unfolding disable_raw_mode
leave_loop g_orig_term flags t =
    disable_raw_mode g_orig_term (record t { nonblock = flags; hidden = false })

-- What the client finds: the answers of `malloc`, of `socket` and `connect`, and of the
-- preparation; the thread that listens, none where it cannot be made; its keys; what the receiver does after the last of them; and the answers of
-- the join in `opc_destroy`.
pub record ClientWorld : Type 0 where
  pub init_ok : Bool
  pub socket_fd : ℤ
  pub connects : ℕ → ConnectAnswer
  pub prepare : PrepareWorld
  pub async_thread : Option ℕ
  pub moments : List Moment
  pub changes : OpClient → OpClient
  pub joined : Option ℤ
  pub errno : ℤ
  pub terminal : Terminal

-- How far the process is: it ended for `--help`, or with a failure, with what was destroyed if there
-- was a client; it reads past an array; it is still in its loop; or it left the loop with a client
-- that is then destroyed, and ends with success, or with a failure where the receiver cannot be
-- joined. `endless` is a connection that is never given up.
pub data ClientRun : Type 0 where
  usage : ClientRun
  failed : Option Destroyed → ClientRun
  loop_fault : ClientRun
  looping : Console → ClientRun
  closed : OpClient → Destroyed → ClientRun
  endless : ClientRun

-- With the terminal, and the calls that start the thread of Listener.antt.
abbrev pub ClientEnd : Type 0
ClientEnd = ClientRun × Terminal × List Call

-- The end of the loop; the client that is destroyed is the one that the receiver leaves.
unfoldable pub end_loop :
    ClientWorld → Termios → Bool → Terminal → Option (Bool × Console) → ClientRun × Terminal
unfolding leave_loop
end_loop world saved flags t none = (loop_fault, t)
end_loop world saved flags t (some (false, c)) = (looping c, t)
end_loop world saved flags t (some (true, c)) =
    let client = world.changes c.client in
    (closed client (opc_destroy world.joined world.errno client), leave_loop saved flags t)

unfoldable pub fail_with : ClientWorld → OpClient → ClientEnd
fail_with world client =
    (failed (some (opc_destroy world.joined world.errno client)), world.terminal, [])

unfoldable pub run_loop : ClientWorld → OpClient → ClientEnd
unfolding enter_loop end_loop
run_loop world client =
    let (saved, flags, entered) = enter_loop world.terminal in
    let (run, left) =
      end_loop world saved flags entered
        (run_console world.moments (record { client = client; paused = false })) in
    (run, left, set_my_async_receiver world.async_thread)

unfoldable pub after_prepare : ClientWorld → Bool × OpClient → ClientEnd
unfolding run_loop fail_with
after_prepare world (true, client) = run_loop world client
after_prepare world (false, client) = fail_with world client

unfoldable pub after_connect : ClientWorld → Option (Bool × OpClient × List Call) → ClientEnd
unfolding after_prepare fail_with
after_connect world none = (endless, world.terminal, [])
after_connect world (some (false, client, calls)) = fail_with world client
after_connect world (some (true, client, calls)) =
    after_prepare world (opc_prepare world.prepare client)

unfoldable pub after_init : ClientWorld → Option OpClient → ClientEnd
unfolding after_connect
after_init world none = (failed none, world.terminal, [])
after_init world (some client) =
    after_connect world (opc_connect world.socket_fd world.connects client)

unfoldable pub after_options : ClientWorld → Option ℤ → ClientEnd
unfolding after_init
after_options world none = (usage, world.terminal, [])
after_options world (some log_level) = after_init world (opc_init world.init_ok)

-- `args` are the arguments behind the name of the program.
unfoldable pub main : (String → ClientArg) → List String → ClientWorld → ClientEnd
unfolding handle_argument after_options
main parse args world = after_options world (handle_argument parse args quiet)
