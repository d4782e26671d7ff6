-- ===== src/Examples/PlayerRuns.antt =====
-- Runs of the theorems on src/server/player/player.c and on the time text of src/server/stream/stream.c.
use odroid_player.Prelude.{◌≡◌, ◌≢◌, refl, pos, ◌*ℤ◌, ◌-ℤ◌, ◌+ℤ◌, List, [], ◌∷◌, false, arith}
use odroid_player.Sys.{Call}
use odroid_player.Playlist.{get_playlist_uri, get_playlist_filenum}
use odroid_player.Playlist.Valid.{Shows}
use odroid_player.Player.{
  Player, PlayerCmd, Timeval, play_cmd_none, play_cmd_next, play_cmd_stop, play_cmd_pause,
  play_cmd_resume, command_player, get_player_position, played_us,
}
use odroid_player.Player.Clock.{IsPlaying, position-resume}
use odroid_player.Player.Commands.{commands, stopped_after, commands_track}
use odroid_player.Playback.{
  proceed, before_spawn, spawned, current_file, again, reaped, forward_playlist,
}
use odroid_player.Playback.Frame.{top, IsSound}
use odroid_player.Playback.Machine.{command, spawn, child_ends, Reach, here, next, Reach-IsSound}
use odroid_player.Playback.Stopping.{
  IsStopped, Starts, resumes_at, stopped_restarts, stop_overwritten,
}
use odroid_player.Examples.{
  three_files, list_at_first, list_at_second, good_net, ready_player, busy_player, stopped_player,
  at_time,
}

busy_player-IsPlaying : IsPlaying (busy_player 1)
busy_player-IsPlaying = record { child = refl; unpaused = refl }

resume_example :
    get_player_position
      (command_player
        (command_player (busy_player 1) play_cmd_pause (at_time 105)).0
        play_cmd_resume
        (at_time 125)).0
      (at_time 125)
    ≡ get_player_position (busy_player 1) (at_time 105)
resume_example = position-resume (busy_player 1) (at_time 105) (at_time 125) busy_player-IsPlaying

position_run : get_player_position (busy_player 1) (at_time 105) ≡ pos 5000000000
unfolding get_player_position played_us ◌*ℤ◌ ◌-ℤ◌ ◌+ℤ◌
position_run = refl

abbrev pause_and_next : List (PlayerCmd × Timeval)
pause_and_next = (play_cmd_pause, at_time 101) ∷ (play_cmd_next, at_time 102) ∷ []

track_example :
    let (p, calls) = commands pause_and_next (busy_player 1) in
    stopped_after (pos 700) calls false ≡ p.child_paused
track_example = commands_track pause_and_next (busy_player 1) 699 refl

-- The first file is played; a NEXT ends its child.
abbrev first_child : Player
first_child = spawned (ready_player 0) (pos 700) (at_time 100)

abbrev told_next : Player
told_next = (command_player first_child play_cmd_next (at_time 101)).0

abbrev then_ready : Player
then_ready =
    (forward_playlist good_net (record told_next {
      pending_command = play_cmd_none;
      child_pid = pos 0;
      child_paused = false;
      child_start_time = (ready_player 0).child_start_time;
    })).1

ready-IsSound : IsSound three_files top (ready_player 0)
ready-IsSound = ((refl, refl), (0, list_at_first))

two_files_played : Reach good_net top (ready_player 0) top then_ready
unfolding spawned command_player before_spawn current_file reaped forward_playlist get_playlist_uri
    get_playlist_filenum
two_files_played =
    next
      (next
        (next here (spawn (ready_player 0) (ready_player 0) [] "a.mp4" 699 (at_time 100) refl refl))
        (command first_child play_cmd_next (at_time 101)))
      (child_ends told_next then_ready _ refl)

reach_example : IsSound three_files top then_ready
reach_example = Reach-IsSound good_net three_files (omega arith) ready-IsSound two_files_played

nothing_yet : Reach good_net top (ready_player 0) top (ready_player 0)
nothing_yet = here

-- A player whose child ends while STOP is pending.
abbrev told_stop : Player
told_stop = record (busy_player 1) { pending_command = play_cmd_stop }

stopped_player-IsStopped : IsStopped stopped_player
stopped_player-IsStopped = record { running = refl; stopped = refl; idle = refl; no_child = refl }

next_is_some : play_cmd_next ≢ play_cmd_none
next_is_some e = cc

restarts_example :
    (p : Player) × (calls : List Call) × (before_spawn good_net
        (command_player stopped_player play_cmd_next (at_time 110)).0
      ≡ proceed p calls)
    × Starts stopped_player three_files (resumes_at play_cmd_next stopped_player.loop 3 1) p
restarts_example =
    stopped_restarts good_net stopped_player three_files 1 play_cmd_next (at_time 110)
      stopped_player-IsStopped next_is_some list_at_second (omega arith)

overwritten_example :
    let q =
      (command_player
        (command_player (busy_player 1) play_cmd_stop (at_time 110)).0
        play_cmd_pause
        (at_time 111)).0 in
    (p : Player) × (calls : List Call) × (reaped good_net q ≡ again p calls)
    × Shows p.playlist three_files 2
    × (p.child_stopped ≡ false)
overwritten_example =
    stop_overwritten good_net (busy_player 1) three_files 1 (at_time 110) (at_time 111) refl
      list_at_second (omega arith)
