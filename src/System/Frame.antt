-- ===== src/System/Frame.antt =====
-- A player of src/server/player/player.h in two parts, what the play thread goes by and what the other
-- threads share, and the operations that keep the one and change the other.
use odroid_player.Prelude.{◌≡◌, refl, sym, ap, ◌∙◌, subst, ℤ, String, List, Bool, arith}
use odroid_player.Message.{Node}
use odroid_player.Player.{Player, PlayerCmd, Timeval, play_cmd_none, command_player}
use odroid_player.Playback.Frame.{Phase, playing, IsSound, command-IsSound, on_same}
use odroid_player.Playlist.{Playlist}
use odroid_player.Server.{disconnect_client}
use odroid_player.Server.Slots.{HasText}
use odroid_player.Response.{save_prev_resp}
use odroid_player.System.Shared.{shared, IsSteady}
use odroid_player.System.Steady.{save-IsSteady}

-- What the play thread goes by.
pub record Media : Type 0 where
  pub playlist : Playlist
  pub child_pid : ℤ
  pub child_paused : Bool
  pub child_stopped : Bool

abbrev pub media : Player → Media
media p = record {
  playlist = p.playlist;
  child_pid = p.child_pid;
  child_paused = p.child_paused;
  child_stopped = p.child_stopped;
}

pub media-IsSound :
    (files : List String) (phase : Phase) (player p : Player)
    → media p ≡ media player
    → IsSound files phase player
    → IsSound files phase p
media-IsSound files playing player p e (((pid, f), up), on) = (
  ((pid, ap (λ m. m.child_pid) e ∙ f), ap (λ m. m.child_stopped) e ∙ up),
  on_same files player p (ap (λ m. m.playlist) e) on,
)
media-IsSound files _ player p e ((none_there, unpaused), on) = (
  (ap (λ m. m.child_pid) e ∙ none_there, ap (λ m. m.child_paused) e ∙ unpaused),
  on_same files player p (ap (λ m. m.playlist) e) on,
)

-- The play thread is sound in its phase, and what the threads share is steady.
pub record IsLive (files : List String) (phase : Phase) (p : Player) : Type 0 where
  pub play : IsSound files phase p
  pub steady : IsSteady (shared p)

pub command_shares :
    (player : Player) (c : PlayerCmd) (now : Timeval)
    → shared (command_player player c now).0 ≡ shared player
unfolding command_player
command_shares player play_cmd_none now = ground arith
command_shares player _ now = ground arith

module _ (files : List String) (phase : Phase) where
  pub command-IsLive :
      (player : Player) (c : PlayerCmd) (now : Timeval)
      → IsLive files phase player
      → IsLive files phase (command_player player c now).0
  command-IsLive player c now v = record {
    play = command-IsSound files phase player c now v.play;
    steady = subst IsSteady (sym (command_shares player c now)) v.steady;
  }

  -- A steady player with the same media.
  pub same_media :
      (player p : Player)
      → media p ≡ media player
      → IsLive files phase player
      → IsSteady (shared p)
      → IsLive files phase p
  same_media player p e v w = record {
    play = media-IsSound files phase player p e v.play;
    steady = w;
  }

  media-disconnect :
      (fd : ℤ) (player : Player) → media (disconnect_client fd player).0 ≡ media player
  unfolding disconnect_client
  media-disconnect fd player = ground arith

  disconnect_shares :
      (fd : ℤ) (player : Player) → shared (disconnect_client fd player).0 ≡ shared player
  unfolding disconnect_client
  disconnect_shares fd player = ground arith

  pub disconnect-IsLive :
      (fd : ℤ) (player : Player)
      → IsLive files phase player
      → IsLive files phase (disconnect_client fd player).0
  disconnect-IsLive fd player v =
      same_media player (disconnect_client fd player).0 (media-disconnect fd player) v
        (subst IsSteady (sym (disconnect_shares fd player)) v.steady)

  pub save-IsLive :
      (saved_ok saved_items_ok : Bool) (node : Node) (player : Player)
      → HasText node
      → IsLive files phase player
      → IsLive files phase (save_prev_resp saved_ok saved_items_ok node player)
  unfolding save_prev_resp
  save-IsLive saved_ok saved_items_ok node player t v =
      same_media player (save_prev_resp saved_ok saved_items_ok node player) refl v
        (save-IsSteady saved_ok saved_items_ok node player t v.steady)
