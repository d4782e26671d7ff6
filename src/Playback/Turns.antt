-- ===== src/Playback/Turns.antt =====
-- The parts of the play thread of src/server/player/player.c: what its wake-up and the end of its
-- child make of a player with its cursor on a file.
use odroid_player.Prelude.{
  suc, ◌<◌, ◌≡◌, refl, sym, ap, subst, ◌⊎◌, inl, inr, pos, String, List, [], false, not, length,
  if◌then◌else◌, Bool-cases,
}
use odroid_player.Sys.{Call}
use odroid_player.Send.{Net}
use odroid_player.Player.{
  Player, PlayerCmd, zero_time, play_cmd_none, play_cmd_next, play_cmd_prev, play_cmd_stop,
  play_cmd_replay, get_player_running,
}
use odroid_player.Playback.{
  asleep, leave, proceed, before_spawn, Next, again, out, reaped, forward_playlist,
  backward_playlist, wake_by, after_child, is_none_cmd,
}
use odroid_player.Playback.Cursor.{forward_playlist-At, backward_playlist-At}
use odroid_player.Playback.Frame.{top, finished, IsSound, OnFile, running-IsSound}

-- A player that differs from another in its playlist alone, and has its cursor on a file.
abbrev Moves : List String → Player → Player → Type 0
Moves files player p = OnFile files p × (p ≡ record player { playlist = p.playlist })

forward_Moves :
    (net : Net) (files : List String) (player : Player)
    → 0 < length files
    → OnFile files player
    → Moves files player (forward_playlist net player).1
forward_Moves net files player some_file (cur, v) =
    elim (forward_playlist-At net player files cur v some_file) [
      | inl (_, _, (w, e)) ↦ ((suc cur, w), e)
      | inr (_, inl (_, e)) ↦ rw e ((cur, v), refl)
      | inr (_, inr (_, _, (w, e))) ↦ ((0, w), e)
    ]

backward_Moves :
    (net : Net) (files : List String) (player : Player)
    → 0 < length files
    → OnFile files player
    → Moves files player (backward_playlist net player).1
backward_Moves net files player some_file (cur, v) =
    elim (backward_playlist-At net player files cur v some_file) [
      | inl (_, e) ↦ rw e ((cur, v), refl)
      | inr (before, _, _, (w, e)) ↦ ((before, w), e)
    ]

wake_Moves :
    (net : Net) (files : List String) (c : PlayerCmd) (player : Player)
    → 0 < length files
    → OnFile files player
    → Moves files player (wake_by net c player).0
unfolding wake_by
wake_Moves net files play_cmd_next player some_file on = forward_Moves net files player some_file on
wake_Moves net files play_cmd_prev player some_file on =
    backward_Moves net files player some_file on
wake_Moves net files _ player some_file on = (on, refl)

-- The player that a wake-up by a command leaves.
abbrev pub awake : Player → Player
awake player = record player { pending_command = play_cmd_none; child_stopped = false }

pub before_spawn_cases :
    (net : Net) (player : Player)
    → (before_spawn net player ≡ leave)
      ⊎ (before_spawn net player ≡ asleep)
      ⊎ (before_spawn net player
          ≡ proceed
              (wake_by net player.pending_command (awake player)).0
              (wake_by net player.pending_command (awake player)).1)
      ⊎ ((player.child_stopped ≡ false) × (before_spawn net player ≡ proceed player []))
unfolding before_spawn
before_spawn_cases net player = elim (Bool-cases player.running) [
  | inr halted ↦ inl (simp (get_player_running, halted))
  | inl runs ↦ elim (Bool-cases player.child_stopped) [
    | inr up ↦ inr (inr (inr (up, simp (get_player_running, runs, up))))
    | inl stopped ↦ elim (Bool-cases (is_none_cmd player.pending_command)) [
      | inl idle ↦ inr (inl (simp (get_player_running, runs, stopped, idle)))
      | inr called ↦ inr (inr (inl (simp (get_player_running, runs, stopped, called))))
    ]
  ]
]

-- What the thread proceeds with: a player that is not stopped, and otherwise as it was but for the
-- cursor and the pending command.
abbrev pub Ready : List String → Player → Player → Type 0
Ready files player p =
    OnFile files p
    × (p.child_pid ≡ player.child_pid)
    × (p.child_paused ≡ player.child_paused)
    × (p.child_stopped ≡ false)

woken_Ready :
    (files : List String) (player p q : Player)
    → Moves files (awake player) q
    → q ≡ p
    → Ready files player p
woken_Ready files player p q (on, same) e =
    subst (Ready files player) e (
      on,
      ap (λ r. r.child_pid) same,
      ap (λ r. r.child_paused) same,
      ap (λ r. r.child_stopped) same,
    )

pub before_spawn_proceeds :
    (net : Net) (files : List String) (player p : Player) (calls : List Call)
    → 0 < length files
    → OnFile files player
    → before_spawn net player ≡ proceed p calls
    → Ready files player p
before_spawn_proceeds net files player p calls some_file on e =
    elim (before_spawn_cases net player) [
      | inl gone ↦ cc
      | inr (inl idle) ↦ cc
      | inr (inr (inl woken)) ↦
          woken_Ready files player p _
            (wake_Moves net files player.pending_command (awake player) some_file on) (cc)
      | inr (inr (inr (up, straight))) ↦
          let same : player ≡ p = cc in subst (Ready files player) same (on, refl, refl, up)
    ]

-- The player with its child forgotten.
abbrev pub childless : Player → Player
childless player = record player {
  pending_command = play_cmd_none;
  child_pid = pos 0;
  child_paused = false;
  child_start_time = zero_time;
}

moved_top :
    (files : List String) (player p : Player)
    → Moves files (childless player) p
    → IsSound files top p
moved_top files player p (on, same) =
    ((ap (λ r. r.child_pid) same, ap (λ r. r.child_paused) same), on)

-- Whatever was pending, the player that the loop goes on with has no child, and its cursor is on a
-- file.
abbrev pub NextIsSound : List String → Next → Type 0
NextIsSound files (again p calls) = IsSound files top p
NextIsSound files (out p calls) = IsSound files finished p

by_forward :
    (net : Net) (files : List String) (player : Player)
    → 0 < length files
    → OnFile files player
    → NextIsSound files (after_child net (childless player) play_cmd_none)
unfolding after_child
by_forward net files player some_file on =
    let moved = forward_Moves net files (childless player) some_file on in
    let sound = moved_top files player _ moved in
    elim (Bool-cases (forward_playlist net (childless player)).0) [
      | inl yes_moved ↦ rw yes_moved sound
      | inr stuck ↦ rw stuck (running-IsSound files finished _ false sound)
    ]

after_child-IsSound :
    (net : Net) (files : List String) (player : Player) (c : PlayerCmd)
    → 0 < length files
    → OnFile files player
    → NextIsSound files (after_child net (childless player) c)
unfolding after_child
after_child-IsSound net files player play_cmd_stop some_file on = ((refl, refl), on)
after_child-IsSound net files player play_cmd_prev some_file on =
    moved_top files player _ (backward_Moves net files (childless player) some_file on)
after_child-IsSound net files player play_cmd_replay some_file on = ((refl, refl), on)
after_child-IsSound net files player _ some_file on = by_forward net files player some_file on

pub reaped-IsSound :
    (net : Net) (files : List String) (player : Player)
    → 0 < length files
    → OnFile files player
    → NextIsSound files (reaped net player)
unfolding reaped
reaped-IsSound net files player some_file on = elim (Bool-cases player.running) [
  | inl runs ↦
      subst (λ b. NextIsSound files (if not b then halt else go_on)) (sym runs)
        (after_child-IsSound net files player player.pending_command some_file on)
  | inr halted ↦
      subst (λ b. NextIsSound files (if not b then halt else go_on)) (sym halted)
        (((refl, refl), on))
]
  where
    halt : Next
    halt = out (childless player) []

    go_on : Next
    go_on = after_child net (childless player) player.pending_command
