-- ===== src/System/Start.antt =====
-- The server of src/server from the start that src/server/main.c makes of it.
use odroid_player.Prelude.{◌≡◌, pos, [], Option, none, some, false}
use odroid_player.Playlist.{Playlist}
use odroid_player.Playlist.Valid.{Shows}
use odroid_player.Player.{Player}
use odroid_player.System.{System}
use odroid_player.System.Shared.{shared, IsSteady}
use odroid_player.System.Frame.{media}

-- A player as it is created: no files, no child, no client, nothing watched.
record IsFresh (p : Player) : Type 0 where
  list : Shows p.playlist [] 0
  childless : (p.child_pid ≡ pos 0) × (p.child_paused ≡ false)
  steady : IsSteady (shared p)

abbrev Creates : Option Player → Type 0
Creates none = Unit {0}
Creates (some p) = IsFresh p

-- What starting the threads leaves alone.
abbrev Alike : Player → Player → Type 0
Alike player p = (shared p ≡ shared player) × (media p ≡ media player)
