-- ===== src/Playback.antt =====
-- src/server/player/player.c: the play thread, which runs one child process for each file. The function
-- `run_player` is taken apart at the points where it waits: `before_spawn` is the top of its loop,
-- `spawned` what follows a successful fork, and `reaped` what follows `waitpid`.
pub mod Cursor
pub mod Frame
pub mod Turns
pub mod Machine
pub mod Stopping
use odroid_player.Prelude.{
  ℕ, ℤ, pos, minus_one, ltb_ℤ, leb_ℤ, succ_ℤ, pred_ℤ, size_of_int, String, List, [], ◌∷◌, ◌++◌,
  Option, none, some, Bool, true, false, not, ◌&&◌, leb, if◌then◌else◌,
}
use odroid_player.Sys.{Call}
use odroid_player.Message.{brdinfo, uri}
use odroid_player.Playlist.{
  Playlist, get_playlist_filenum, get_playlist_cur_idx, set_playlist_cur_idx, get_playlist_uri,
}
use odroid_player.Send.{Net, send_broadcast_message}
use odroid_player.Player.{
  Player, PlayerCmd, Timeval, zero_time, play_cmd_none, play_cmd_next, play_cmd_prev, play_cmd_stop,
  play_cmd_pause, play_cmd_resume, play_cmd_replay, get_player_running, set_player_running,
}

-- The cursor is set, and the new uri is broadcast to the clients.
unfoldable pub go_to : Net → Player → ℤ → Player × List Call
go_to net player cur =
    let playlist = set_playlist_cur_idx player.playlist cur in
    (
      record player { playlist = playlist },
      (send_broadcast_message net player.client_pool (get_playlist_uri playlist cur) minus_one
          brdinfo uri).1,
    )

unfoldable pub forward_playlist : Net → Player → Bool × Player × List Call
unfolding go_to
forward_playlist net player =
    let cur = succ_ℤ (get_playlist_cur_idx player.playlist) in
    let (p, calls) = go_to net player cur in
    let (q, loop_calls) = go_to net player (pos 0) in
    if leb (get_playlist_filenum player.playlist) (size_of_int cur)
    then (if not player.loop then (false, player, []) else (true, q, loop_calls))
    else (true, p, calls)

unfoldable pub backward_playlist : Net → Player → Bool × Player × List Call
unfolding go_to
backward_playlist net player =
    let cur = get_playlist_cur_idx player.playlist in
    let (p, calls) = go_to net player (pred_ℤ cur) in
    if leb_ℤ cur (pos 0) then (false, player, []) else (true, p, calls)

abbrev pub is_none_cmd : PlayerCmd → Bool
is_none_cmd play_cmd_none = true
is_none_cmd _ = false

-- The thread waits in `pthread_cond_wait`, leaves the loop, or goes on to play a file.
pub data Wakeup : Type 0 where
  asleep : Wakeup
  leave : Wakeup
  proceed : Player → List Call → Wakeup

-- "Case: STOP -> NEXT | PREV".
unfoldable pub wake_by : Net → PlayerCmd → Player → Player × List Call
wake_by net play_cmd_next player = let (moved, p, calls) = forward_playlist net player in (p, calls)
wake_by net play_cmd_prev player =
    let (moved, p, calls) = backward_playlist net player in (p, calls)
wake_by net _ player = (player, [])

unfoldable pub before_spawn : Net → Player → Wakeup
unfolding wake_by get_player_running
before_spawn net player =
    let awake : Player = record player { pending_command = play_cmd_none; child_stopped = false } in
    let (p, calls) = wake_by net player.pending_command awake in
    if not (get_player_running player)
    then leave
    else if player.child_stopped && is_none_cmd player.pending_command
    then asleep
    else if player.child_stopped
    then proceed p calls
    else proceed player []

-- The file to play, or NULL.
unfoldable pub current_file : Player → Option String
unfolding get_playlist_cur_idx
current_file player = get_playlist_uri player.playlist (get_playlist_cur_idx player.playlist)

-- The answer of `fork` in the parent; the child becomes gst-launch or ends with status 127.
unfoldable pub spawn_child : Option String → ℤ → ℤ
spawn_child none fork = minus_one
spawn_child (some file) fork = if ltb_ℤ fork (pos 0) then minus_one else fork

unfoldable pub spawned : Player → ℤ → Timeval → Player
spawned player pid now = record player {
  child_pid = pid;
  child_paused = false;
  paused_offset_us = pos 0;
  child_start_time = now;
}

-- What the loop does next: from the top again, or out.
pub data Next : Type 0 where
  again : Player → List Call → Next
  out : Player → List Call → Next

-- `child` is the player with the old child's state cleared, `pending` the command that was pending.
unfoldable pub after_child : Net → Player → PlayerCmd → Next
after_child net child play_cmd_stop = again (record child { child_stopped = true }) []
after_child net child play_cmd_prev =
    let (moved, p, calls) = backward_playlist net child in again p calls
after_child net child play_cmd_replay = again child []
after_child net child _ =
    let (moved, p, calls) = forward_playlist net child in
    let (q, stops) = set_player_running p false in if moved then again p calls else out q stops

unfoldable pub reaped : Net → Player → Next
unfolding after_child get_player_running
reaped net player =
    let child : Player = record player {
      pending_command = play_cmd_none;
      child_pid = pos 0;
      child_paused = false;
      child_start_time = zero_time;
    } in
    if not (get_player_running player)
    then out child []
    else after_child net child player.pending_command
