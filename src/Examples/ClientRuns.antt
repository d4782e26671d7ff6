-- ===== src/Examples/ClientRuns.antt =====
-- Runs of the theorems on the programs of src/client and src/examples.
use odroid_player.Prelude.{ℕ, refl, pos, String, [], ◌∷◌, some, true, false}
use odroid_player.Message.{eserver, play}
use odroid_player.Queue.{enqueue as enqueue_node}
use odroid_player.Opc.{OpClient}
use odroid_player.Viewer.{ViewWorld}
use odroid_player.Console.{KeyPress, key_space, key_t, key_q, Console, Moment}
use odroid_player.Console.Loop.{CarefulMoment}
use odroid_player.Console.Program.{ClientArg, level, ClientWorld, main}
use odroid_player.Console.Program.Ends.{ClientEnds, main-ClientEnds}
use odroid_player.Keypad.{ev_key_enter, ev_key_home, ev_key, events}
use odroid_player.Keypad.Program.{IrArg, other, IrWorld, main as ir_main}
use odroid_player.Examples.ConnectionRuns.{second_try, preparing}
use odroid_player.Examples.OpcRuns.{playing, quiet_visit, node_at, client_with, asking}

-- A text comes, and `t` is typed.
abbrev view : ViewWorld
view = record {
  stream_fd = pos 7;
  bind_ok = true;
  chmod_ok = true;
  turns = record { changes = λ c. c; text = some "00:00:01"; is_t = some true } ∷ [];
}

-- A key, and the answer to its request, which arrives during the wait.
abbrev moment : ℕ → KeyPress → Moment
moment n key = record { changes = λ c. c; world = asking n; view = view; key = key }

moment-CarefulMoment : (n : ℕ) (key : KeyPress) → CarefulMoment (moment n key)
moment-CarefulMoment n key = ((λ c v. v), ((((_, refl), tt), tt), ((tt, tt), tt)), ((λ c v. v), tt))

abbrev console : Console
console = record { client = client_with (node_at 2 ∷ []); paused = false }

-- The answer of the stream names its two paths.
abbrev time_shown : Moment
time_shown = record (moment 1 key_t) {
  world = record (asking 1) {
    visits =
        record {
          monitor = playing;
          arrived =
              record (node_at 1) { n_data = 2; items = some (some "st" ∷ some "ct" ∷ []) } ∷ [];
          wakes = [];
        }
        ∷ [];
  };
}

-- The client connects at the second try, shows the time, pauses and quits.
abbrev client_world : ClientWorld
client_world = record {
  init_ok = true;
  socket_fd = pos 4;
  connects = second_try;
  prepare = preparing;
  async_thread = some 2;
  moments = time_shown ∷ moment 2 key_space ∷ moment 3 key_q ∷ moment 3 key_q ∷ [];
  changes = λ c. c;
  joined = some (pos 0);
  errno = pos 0;
  terminal = record {
    attrs = record { icanon = true; echo = true; vmin = 1; vtime = 0 };
    nonblock = false;
    hidden = false;
  };
}

-- The first log level that is named is out of range.
abbrev parse_level : String → ClientArg
parse_level _ = level (pos 7)

client_example : ClientEnds client_world (main parse_level ("--log-level=7" ∷ []) client_world)
client_example = main-ClientEnds parse_level ("--log-level=7" ∷ []) client_world (
  (
    ((λ c v. v), ((((_, refl), tt), tt), tt), ((λ c v. v), tt)),
    (
      moment-CarefulMoment 2 key_space,
      (moment-CarefulMoment 3 key_q, (moment-CarefulMoment 3 key_q, tt)),
    ),
  ),
  λ c v. v,
)

-- The library is found in the second place, and ENTER and HOME are pressed.
abbrev ir_world : IrWorld
ir_world = record {
  uid = pos 0;
  devices =
      record { path = "/dev/input/event3"; opens = true; is_keypad = true; is_common = false } ∷ [];
  fd = pos 5;
  system_ok = false;
  local_ok = true;
  dlsym = λ name. true;
  init_ok = true;
  connect_ok = true;
  prepare_ok = true;
  destroy_ok = true;
  captures = events (ev_key ev_key_enter 1 ∷ ev_key ev_key_home 1 ∷ []) ∷ [];
}

abbrev parse_other : String → IrArg
parse_other _ = other

-- The answer to PLAY says that the server failed.
abbrev failing : Moment
failing = record (moment 4 key_space) {
  world = record (asking 4) {
    visits =
        record {
          monitor = playing;
          arrived = record (node_at 4) { status = eserver; cmd = play } ∷ [];
          wakes = [];
        }
        ∷ quiet_visit
        ∷ [];
  };
}

abbrev paused_console : Console
paused_console = record console { paused = true }

abbrev answered_console : OpClient
answered_console = record (client_with []) { msg_idx = 4 }
