-- ===== src/Player/Commands.antt =====
-- `command_player` of src/server/player/player.c: the signals that the child gets, against the flag that
-- says whether it is paused.
use odroid_player.Prelude.{
  ◌≡◌, refl, ap, ◌∙◌, pos, List, [], ◌∷◌, ◌++◌, Bool, true, false, arith, suc, ℕ, ℤ, eq_ℤ, eq_ℤ_iff,
  if◌then◌else◌,
}
use odroid_player.Sys.{Call, Signal, kill, close, sigcont, sigstop, sigterm}
use odroid_player.Player.{
  Player, PlayerCmd, Timeval, play_cmd_none, play_cmd_next, play_cmd_prev, play_cmd_stop,
  play_cmd_replay, command_player,
}

-- Whether a process is stopped, after a signal to it and after a list of calls.
abbrev pub stopped_by : Signal → Bool → Bool
stopped_by sigstop b = true
stopped_by sigcont b = false
stopped_by _ b = b

abbrev pub signalled : ℤ → ℤ → Signal → Bool → Bool
signalled child pid signal b = if eq_ℤ pid child then stopped_by signal b else b

abbrev pub stopped_after : ℤ → List Call → Bool → Bool
stopped_after child [] b = b
stopped_after child (kill pid signal ∷ calls) b =
    stopped_after child calls (signalled child pid signal b)
stopped_after child (_ ∷ calls) b = stopped_after child calls b

-- A command at its time, and a list of them: the player and all the calls.
unfoldable pub commands : List (PlayerCmd × Timeval) → Player → Player × List Call
commands [] player = (player, [])
commands ((c, now) ∷ cs) player =
    let (p, calls) = command_player player c now in
    let rest = commands cs p in (rest.0, calls ++ rest.1)

stopped_after-append :
    (child : ℤ) (xs ys : List Call) (b : Bool)
    → stopped_after child (xs ++ ys) b ≡ stopped_after child ys (stopped_after child xs b)
stopped_after-append child [] ys b = refl
stopped_after-append child (kill pid signal ∷ xs) ys b =
    stopped_after-append child xs ys (signalled child pid signal b)
stopped_after-append child (close x ∷ xs) ys b = stopped_after-append child xs ys b
stopped_after-append child (_ ∷ xs) ys b = stopped_after-append child xs ys b

command_tracks :
    (player : Player) (c : PlayerCmd) (now : Timeval) (n : ℕ)
    → player.child_pid ≡ pos (suc n)
    → let (p, calls) = command_player player c now in
      (p.child_pid ≡ pos (suc n))
      × (stopped_after (pos (suc n)) calls player.child_paused ≡ p.child_paused)
unfolding command_player
command_tracks player play_cmd_none now n e = ground (arith, eq_ℤ_iff (pos (suc n)) (pos (suc n)))
command_tracks player _ now n e = ground (arith, eq_ℤ_iff (pos (suc n)) (pos (suc n)))

-- The flag `child_paused` mirrors the process: after any commands to a child, the signals that were
-- sent to the child have left it stopped exactly if the flag says that it is paused, if that held
-- before.
pub commands_track :
    (cs : List (PlayerCmd × Timeval)) (player : Player) (n : ℕ)
    → player.child_pid ≡ pos (suc n)
    → let (p, calls) = commands cs player in
      stopped_after (pos (suc n)) calls player.child_paused ≡ p.child_paused
unfolding commands
commands_track [] player n e = refl
commands_track ((c, now) ∷ cs) player n e =
    let (p, calls) = command_player player c now in
    let (same, tracked) = command_tracks player c now n e in
    stopped_after-append (pos (suc n)) calls (commands cs p).1 player.child_paused
    ∙ ap (stopped_after (pos (suc n)) (commands cs p).1) tracked
    ∙ commands_track cs p n same

abbrev pub ends_child : PlayerCmd → Bool
ends_child play_cmd_next = true
ends_child play_cmd_prev = true
ends_child play_cmd_stop = true
ends_child play_cmd_replay = true
ends_child _ = false

abbrev pub terminated : List Call → Bool
terminated [] = false
terminated (kill pid sigterm ∷ calls) = true
terminated (_ ∷ calls) = terminated calls

-- A command that ends the child terminates it and leaves it running to receive that, paused or not;
-- no other command terminates it.
pub command_terminates :
    (player : Player) (c : PlayerCmd) (now : Timeval) (n : ℕ)
    → player.child_pid ≡ pos (suc n)
    → let (p, calls) = command_player player c now in
      (terminated calls ≡ ends_child c)
      × (ends_child c ≡ true → stopped_after (pos (suc n)) calls player.child_paused ≡ false)
unfolding command_player
command_terminates player play_cmd_none now n e =
    ground (arith, eq_ℤ_iff (pos (suc n)) (pos (suc n)))
command_terminates player _ now n e = ground (arith, eq_ℤ_iff (pos (suc n)) (pos (suc n)))
