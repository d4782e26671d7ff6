-- ===== src/Playback/Machine.antt =====
-- The play thread of src/server/player/player.c among the threads that send it commands: a step
-- relation, and what holds in every state that it reaches.
use odroid_player.Prelude.{
  ℕ, suc, ◌<◌, ◌≡◌, refl, ◌∙◌, subst, pos, String, List, none, some, false, length,
}
use odroid_player.Sys.{Call}
use odroid_player.Playlist.Valid.{get_playlist_current_uri_lem, get_playlist_uri_lem}
use odroid_player.Send.{Net}
use odroid_player.Player.{Player, PlayerCmd, Timeval, command_player, set_player_running}
use odroid_player.Playback.{leave, proceed, before_spawn, spawned, current_file, again, out, reaped}
use odroid_player.Playback.Frame.{
  Phase, top, playing, finished, IsSound, OnFile, command-IsSound, running-IsSound,
}
use odroid_player.Playback.Turns.{NextIsSound, before_spawn_proceeds, reaped-IsSound}

-- `command` and `stop_flag` are other threads'; `retry` is a fork that failed.
pub data Step (net : Net) : Phase → Player → Phase → Player → Type 0 where
  command :
      {phase : Phase} (player : Player) (c : PlayerCmd) (now : Timeval)
      → Step net phase player phase (command_player player c now).0
  stop_flag :
      {phase : Phase} (player : Player)
      → Step net phase player phase (set_player_running player false).0
  spawn :
      (player p : Player) (calls : List Call) (file : String) (pid : ℕ) (now : Timeval)
      → before_spawn net player ≡ proceed p calls
      → current_file p ≡ some file
      → Step net top player playing (spawned p (pos (suc pid)) now)
  retry :
      (player p : Player) (calls : List Call)
      → before_spawn net player ≡ proceed p calls
      → Step net top player top p
  quit :
      (player : Player)
      → before_spawn net player ≡ leave
      → Step net top player finished (set_player_running player false).0
  no_file :
      (player p : Player) (calls : List Call)
      → before_spawn net player ≡ proceed p calls
      → current_file p ≡ none
      → Step net top player finished (set_player_running p false).0
  child_ends :
      (player p : Player) (calls : List Call)
      → reaped net player ≡ again p calls
      → Step net playing player top p
  play_ends :
      (player p : Player) (calls : List Call)
      → reaped net player ≡ out p calls
      → Step net playing player finished (set_player_running p false).0

pub Step-IsSound :
    (net : Net) (files : List String) {phase phase' : Phase} {player p : Player}
    → 0 < length files
    → Step net phase player phase' p
    → IsSound files phase player
    → IsSound files phase' p
unfolding spawned
Step-IsSound net files some_file (command player c now) v = command-IsSound files _ player c now v
Step-IsSound net files some_file (stop_flag player) v = running-IsSound files _ player false v
Step-IsSound net files some_file (spawn player p calls file pid now e f) v =
    let (on, same_pid, same_pause, up) =
      before_spawn_proceeds net files player p calls some_file v.1 e in
    (((pid, refl), up), on)
Step-IsSound net files some_file (retry player p calls e) v =
    let (on, same_pid, same_pause, up) =
      before_spawn_proceeds net files player p calls some_file v.1 e in
    ((same_pid ∙ v.0.0, same_pause ∙ v.0.1), on)
Step-IsSound net files some_file (quit player e) v = running-IsSound files finished player false v
Step-IsSound net files some_file (no_file player p calls e f) v =
    let (on, same_pid, same_pause, up) =
      before_spawn_proceeds net files player p calls some_file v.1 e in
    running-IsSound files finished p false ((same_pid ∙ v.0.0, same_pause ∙ v.0.1), on)
Step-IsSound net files some_file (child_ends player p calls e) v =
    subst (NextIsSound files) e (reaped-IsSound net files player some_file v.1)
Step-IsSound net files some_file (play_ends player p calls e) v =
    running-IsSound files finished p false
      (subst (NextIsSound files) e (reaped-IsSound net files player some_file v.1))

-- Any number of steps.
pub data Reach (net : Net) (phase : Phase) (player : Player) : Phase → Player → Type 0 where
  here : Reach net phase player phase player
  next :
      {phase' phase'' : Phase} {p q : Player}
      → Reach net phase player phase' p
      → Step net phase' p phase'' q
      → Reach net phase player phase'' q

-- Whatever the other threads command and whenever children end, a play thread that starts without
-- a child and with its cursor on a file keeps that: it knows its child exactly while it waits for
-- it, a stopped or paused player has the child that the phase says, and the cursor is on a file.
pub Reach-IsSound :
    (net : Net) (files : List String) {phase : Phase} {player : Player} {phase' : Phase}
    {p : Player}
    → 0 < length files
    → IsSound files phase player
    → Reach net phase player phase' p
    → IsSound files phase' p
Reach-IsSound net files some_file v here = v
Reach-IsSound net files some_file v (next r s) =
    Step-IsSound net files some_file s (Reach-IsSound net files some_file v r)

OnFile-current :
    (files : List String) (p : Player)
    → 0 < length files
    → OnFile files p
    → (file : String) × (current_file p ≡ some file)
unfolding current_file
OnFile-current files p some_file (cur, v) =
    let (f, e, d) = get_playlist_current_uri_lem p.playlist files cur v some_file in
    (f, simp v.current ((get_playlist_uri_lem p.playlist files cur v).0 cur ∙ e))

-- The play thread never leaves its loop for want of a file: in every state that it reaches, the
-- player that it goes on with has a file to play.
pub no_file_unreachable :
    (net : Net) (files : List String) {phase : Phase} {player p q : Player} (calls : List Call)
    → 0 < length files
    → IsSound files phase player
    → Reach net phase player top p
    → before_spawn net p ≡ proceed q calls
    → (file : String) × (current_file q ≡ some file)
no_file_unreachable net files {p} {q} calls some_file v r e =
    OnFile-current files q some_file
      (before_spawn_proceeds net files p q calls some_file (Reach-IsSound net files some_file v r).1
        e).0
