-- ===== src/Console/Closing.antt =====
-- How the loop over the keys of src/client/main.c comes to its end.
use odroid_player.Prelude.{◌≡◌, ◌⊎◌, List, Option, none, some, Bool, true, false, not}
use odroid_player.Sys.{Call}
use odroid_player.Message.{success, eserver, command, Cmd, play, stop, pause, next, prev, uri, ack}
use odroid_player.Opc.{OpClient, OpStatus}
use odroid_player.Opc.Monitors.{set_monitor}
use odroid_player.Opc.Requests.{request}
use odroid_player.Console.{
  KeyPress, key_q, key_space, key_esc, key_a, key_n, key_b, key_u, Console, has_texts, Moment,
}

-- The command that a key sends, and whether the player is paused after it, for a player that is paused
-- or not.
abbrev pub asks : KeyPress → Bool → Option Cmd
asks key_space true = some play
asks key_space false = some pause
asks key_esc paused = some stop
asks key_a paused = some ack
asks key_n paused = some next
asks key_b paused = some prev
asks key_u paused = some uri
asks _ paused = none

abbrev pub pauses : KeyPress → Bool → Bool
pauses key_space paused = not paused
pauses key_esc paused = true
pauses _ paused = paused

-- The answer to the command of a key has a text and says that the server failed.
pub record Failed (m : Moment) (c : Console) (d : OpClient) : Type 0 where
  pub cmd : Cmd
  pub status : OpStatus
  pub client : OpClient
  pub calls : List Call
  pub asked : asks m.key c.paused ≡ some cmd
  pub answered :
      request command cmd m.world (m.changes c.client) ≡ some (some status, client, calls)
  pub has_text : has_texts 1 status.items ≡ true
  pub is_failure : status.status ≡ eserver
  pub stopped : d ≡ (set_monitor client false eserver).0

-- A key that closes the client, and the client that it leaves.
abbrev pub Closes : Moment → Console → OpClient → Type 0
Closes m c d =
    ((m.key ≡ key_q) × (d ≡ (set_monitor (m.changes c.client) false success).0)) ⊎ Failed m c d
