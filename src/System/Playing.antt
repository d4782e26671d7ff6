-- ===== src/System/Playing.antt =====
-- What the play thread of src/server/player/player.c keeps of the part of a player that the other
-- threads share: it moves the cursor, and tells them to end.
use odroid_player.Prelude.{◌≡◌, refl, sym, subst, inl, inr, List, false, arith, Bool-cases}
use odroid_player.Sys.{Call}
use odroid_player.Send.{Net}
use odroid_player.Player.{
  Player, PlayerCmd, play_cmd_none, play_cmd_next, play_cmd_prev, play_cmd_stop, play_cmd_replay,
  get_player_running,
}
use odroid_player.Playback.{
  asleep, leave, proceed, Wakeup, before_spawn, Next, again, out, reaped, go_to, forward_playlist,
  backward_playlist, wake_by, after_child,
}
use odroid_player.Playback.Turns.{awake, before_spawn_cases}
use odroid_player.System.Shared.{shared, IsSteady}
use odroid_player.System.Steady.{running-IsSteady}

forward_shares :
    (net : Net) (player : Player) → shared (forward_playlist net player).1 ≡ shared player
unfolding forward_playlist go_to
forward_shares net player = ground arith

backward_shares :
    (net : Net) (player : Player) → shared (backward_playlist net player).1 ≡ shared player
unfolding backward_playlist go_to
backward_shares net player = ground arith

wake_shares :
    (net : Net) (c : PlayerCmd) (player : Player) → shared (wake_by net c player).0 ≡ shared player
unfolding wake_by
wake_shares net play_cmd_next player = forward_shares net player
wake_shares net play_cmd_prev player = backward_shares net player
wake_shares net _ player = refl

abbrev Woken : Player → Wakeup → Type 0
Woken player asleep = Unit {0}
Woken player leave = Unit {0}
Woken player (proceed p calls) = shared p ≡ shared player

before_spawn-Woken : (net : Net) (player : Player) → Woken player (before_spawn net player)
before_spawn-Woken net player = elim (before_spawn_cases net player) [
  | inl e ↦ subst (Woken player) (sym e) tt
  | inr (inl e) ↦ subst (Woken player) (sym e) tt
  | inr (inr (inl e)) ↦
      subst (Woken player) (sym e) (wake_shares net player.pending_command (awake player))
  | inr (inr (inr (up, e))) ↦ subst (Woken player) (sym e) refl
]

pub proceeds-IsSteady :
    (net : Net) (player p : Player) (calls : List Call)
    → before_spawn net player ≡ proceed p calls
    → IsSteady (shared player)
    → IsSteady (shared p)
proceeds-IsSteady net player p calls e v =
    let same : shared p ≡ shared player = subst (Woken player) e (before_spawn-Woken net player) in
    subst IsSteady (sym same) v

abbrev pub NextSteady : Next → Type 0
NextSteady (again p calls) = IsSteady (shared p)
NextSteady (out p calls) = IsSteady (shared p)

by_forward :
    (net : Net) (player : Player)
    → IsSteady (shared player)
    → NextSteady (after_child net player play_cmd_none)
unfolding after_child
by_forward net player v =
    let moved = subst IsSteady (sym (forward_shares net player)) v in
    elim (Bool-cases (forward_playlist net player).0) [
      | inl on ↦ rw on moved
      | inr stuck ↦ rw stuck (running-IsSteady (forward_playlist net player).1 false moved)
    ]

after_child-Steady :
    (net : Net) (player : Player) (c : PlayerCmd)
    → IsSteady (shared player)
    → NextSteady (after_child net player c)
unfolding after_child
after_child-Steady net player play_cmd_stop v = v
after_child-Steady net player play_cmd_prev v = subst IsSteady (sym (backward_shares net player)) v
after_child-Steady net player play_cmd_replay v = v
after_child-Steady net player _ v = by_forward net player v

pub reaped-Steady :
    (net : Net) (player : Player) → IsSteady (shared player) → NextSteady (reaped net player)
unfolding reaped
reaped-Steady net player v = elim (Bool-cases player.running) [
  | inr halted ↦ simp (get_player_running, halted) v
  | inl runs ↦ simp (get_player_running, runs) (after_child-Steady net _ player.pending_command v)
]
