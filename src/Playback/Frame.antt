-- ===== src/Playback/Frame.antt =====
-- The play thread of src/server/player/player.c: its phases, and what the commands do to the child's
-- state and to the cursor.
use odroid_player.Prelude.{ℕ, suc, ◌≡◌, sym, ◌∙◌, subst, pos, String, List, Bool, false, arith}
use odroid_player.Playlist.Valid.{Shows}
use odroid_player.Player.{
  Player, PlayerCmd, Timeval, play_cmd_none, command_player, set_player_running,
}

-- Where the play thread stands: at the top of its loop, in `waitpid` for a child, or finished.
pub data Phase : Type 0 where
  top playing finished : Phase

-- The child is known exactly while the thread waits for it, only then can it be paused, and a
-- stopped player has no child.
abbrev pub ChildOf : Phase → Player → Type 0
ChildOf playing player =
    ((pid : ℕ) × (player.child_pid ≡ pos (suc pid))) × (player.child_stopped ≡ false)
ChildOf top player = (player.child_pid ≡ pos 0) × (player.child_paused ≡ false)
ChildOf finished player = (player.child_pid ≡ pos 0) × (player.child_paused ≡ false)

-- The cursor stands on one of the files.
abbrev pub OnFile : List String → Player → Type 0
OnFile files player = (cur : ℕ) × Shows player.playlist files cur

abbrev pub IsSound : List String → Phase → Player → Type 0
IsSound files phase player = ChildOf phase player × OnFile files player

-- What a command leaves alone, and without a child it does not pause one.
pub command_keeps :
    (player : Player) (c : PlayerCmd) (now : Timeval)
    → let p = (command_player player c now).0 in
      (p.child_pid ≡ player.child_pid)
      × (p.child_stopped ≡ player.child_stopped)
      × (p.playlist ≡ player.playlist)
      × (player.child_pid ≡ pos 0 → p.child_paused ≡ player.child_paused)
      × (p.running ≡ player.running)
      × (p.pending_command ≡ c)
unfolding command_player
command_keeps player play_cmd_none now = ground arith
command_keeps player _ now = ground arith

pub on_same :
    (files : List String) (player p : Player)
    → p.playlist ≡ player.playlist
    → OnFile files player
    → OnFile files p
on_same files player p e (cur, v) = (cur, subst (λ l. Shows l files cur) (sym e) v)

pub command-IsSound :
    (files : List String) (phase : Phase) (player : Player) (c : PlayerCmd) (now : Timeval)
    → IsSound files phase player
    → IsSound files phase (command_player player c now).0
command-IsSound files playing player c now (((pid, e), up), on) =
    let (same_pid, same_stop, same_list, quiet, runs, pending) = command_keeps player c now in
    (
      ((pid, same_pid ∙ e), same_stop ∙ up),
      on_same files player (command_player player c now).0 same_list on,
    )
command-IsSound files _ player c now ((none_there, unpaused), on) =
    let (same_pid, same_stop, same_list, quiet, runs, pending) = command_keeps player c now in
    (
      (same_pid ∙ none_there, quiet none_there ∙ unpaused),
      on_same files player (command_player player c now).0 same_list on,
    )

pub running-IsSound :
    (files : List String) (phase : Phase) (player : Player) (flag : Bool)
    → IsSound files phase player
    → IsSound files phase (set_player_running player flag).0
unfolding set_player_running
running-IsSound files playing player flag v = v
running-IsSound files _ player flag v = v
