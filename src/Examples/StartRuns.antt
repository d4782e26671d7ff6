-- ===== src/Examples/StartRuns.antt =====
-- Runs of the theorems on the start and the end of the server, its watchdog, its sockets and its media
-- back end, and of those on the remote control of src/examples/ir.
use odroid_player.Prelude.{
  ◌≤◌, ◌≡◌, refl, ◌≢◌, negsuc, pos, String, List, [], ◌∷◌, ◌++◌, some, true, false, map, arith,
}
use odroid_player.Sys.{sigusr1, sigusr2}
use odroid_player.Playback.{forward_playlist, backward_playlist}
use odroid_player.Agmp.{load_next, load_prev}
use odroid_player.Agmp.Moves.{SameMove, load_next-forward_playlist}
use odroid_player.Watchdog.{
  Waited, signalled, timed_out, wait_failed, waiting, expired, finished, run_watchdog,
}
use odroid_player.Watchdog.Expiry.{run_watchdog-expired}
use odroid_player.Socket.{SocketWorld}
use odroid_player.Lifecycle.{wait_player, clear_player}
use odroid_player.Lifecycle.Threads.{joins, play_thread_joined_twice}
use odroid_player.Keypad.{ev_key_enter, ev_key, Capture, events, Remote, Device}
use odroid_player.Startup.{FileApi}
use odroid_player.Startup.Options.{Arg, help, MainWorld, main}
use odroid_player.Startup.Options.Listed.{Lists, main-Lists}
use odroid_player.Examples.PlaylistRuns.{empty_player, empty_player-Shows}
use odroid_player.Examples.{three_files, list_at_second, ready_player, good_net}

load_example :
    SameMove (load_next good_net (ready_player 1)) (forward_playlist good_net (ready_player 1))
    × SameMove (load_prev good_net (ready_player 1)) (backward_playlist good_net (ready_player 1))
load_example =
    load_next-forward_playlist good_net (ready_player 1) three_files 1 list_at_second (omega arith)

-- Two waits, one of them cut short by another SIGUSR1, and the ten that are there.
abbrev two_waits : List Waited
two_waits = timed_out ∷ signalled sigusr1 ∷ []

abbrev ten_waits : List Waited
ten_waits =
    timed_out ∷ timed_out ∷ timed_out ∷ timed_out ∷ timed_out ∷ timed_out ∷ timed_out ∷ timed_out
    ∷ two_waits

expired_example :
    (run_watchdog waiting (signalled sigusr1 ∷ ten_waits ++ timed_out ∷ []) ≡ expired)
    × (run_watchdog waiting (signalled sigusr1 ∷ two_waits ++ signalled sigusr2 ∷ timed_out ∷ [])
        ≡ run_watchdog waiting (timed_out ∷ []))
    × (run_watchdog waiting (signalled sigusr1 ∷ two_waits ++ wait_failed ∷ timed_out ∷ [])
        ≡ finished)
expired_example =
    run_watchdog-expired ten_waits two_waits (timed_out ∷ [])
      (tt, (tt, (tt, (tt, (tt, (tt, (tt, (tt, (tt, (tt, tt)))))))))) (tt, (tt, tt)) refl
      (omega arith)

-- `bind` fails.
abbrev refusing : SocketWorld
refusing = record { socket_fd = pos 7; bound = negsuc 0; chmodded = pos 0; listening = pos 0 }

five_is_a_thread : (ready_player 1).play_thread_id ≢ 0
five_is_a_thread e = omega arith

joined_example : 2 ≤ joins 5 (wait_player (ready_player 1) ++ (clear_player (ready_player 1)).1)
joined_example = play_thread_joined_twice (ready_player 1) five_is_a_thread

abbrev plain_names : FileApi
plain_names = record { access = λ f. true; is_option = λ f. false; uri_of = λ f. f }

abbrev no_parse : String → Arg
no_parse text = help

abbrev main_world : MainWorld
main_world = record {
  euid = pos 0;
  socket_exists = false;
  create = λ is_loop level. some empty_player;
  start = record { strm = some 1; serv = some 2; resp = some 3; wtdg = some 4; play = some 5 };
}

main_example :
    Lists main_world empty_player
      (map plain_names.uri_of ("a.mp4" ∷ "b.mp4" ∷ []))
      (main plain_names no_parse main_world ("a.mp4" ∷ "b.mp4" ∷ []))
main_example =
    main-Lists plain_names no_parse main_world empty_player "a.mp4" ("b.mp4" ∷ [])
      (refl, refl, (refl, refl, tt)) refl refl refl empty_player-Shows

-- ENTER is pressed and released.
abbrev enter_pressed : Capture
enter_pressed = events (ev_key ev_key_enter 1 ∷ ev_key ev_key_enter 0 ∷ [])

abbrev playing_remote : Remote
playing_remote = record { paused = false; stop = false }

abbrev common_device : Device
common_device = record {
  path = "/dev/input/event0";
  opens = true;
  is_keypad = true;
  is_common = true;
}

abbrev keypad_device : Device
keypad_device = record {
  path = "/dev/input/event1";
  opens = true;
  is_keypad = true;
  is_common = false;
}
