-- ===== src/Player/Clock.antt =====
-- `get_player_position` of src/server/player/player.c against the time that the media has played.
use odroid_player.Prelude.{
  ℕ, ◌+◌, ◌*◌, ◌≡◌, refl, ◌⊎◌, inl, inr, ℤ, pos, minus_one, ltb_ℤ, ◌+ℤ◌, ◌-ℤ◌, ◌*ℤ◌, pos_part,
  neg_part, true, false, arith, int_laws, Bool-cases, if◌then◌else◌,
}
use odroid_player.Player.{
  Player, Timeval, elapsed_us, play_cmd_pause, play_cmd_resume, command_player, get_player_position,
  no_media, played_us,
}

micros_parts :
    (a : ℤ)
    → pos_part (a *ℤ pos 1000000) + neg_part a * 1000000
      ≡ neg_part (a *ℤ pos 1000000) + pos_part a * 1000000
unfolding ◌*ℤ◌
micros_parts a = ground arith

-- The time up to `now` less the time since the pause is the time up to the pause.
elapsed_sub :
    (start pause now : Timeval) (offset : ℤ)
    → elapsed_us start now -ℤ offset -ℤ elapsed_us pause now ≡ elapsed_us start pause -ℤ offset
elapsed_sub start pause now offset = omega (int_laws, micros_parts)

elapsed_offset :
    (start pause now : Timeval) (offset : ℤ)
    → elapsed_us start now -ℤ (offset +ℤ elapsed_us pause now) ≡ elapsed_us start pause -ℤ offset
elapsed_offset start pause now offset = omega (int_laws, micros_parts)

-- Media that plays: a child that is not paused, with a start time.
pub record IsPlaying (player : Player) : Type 0 where
  pub child : ltb_ℤ (pos 0) player.child_pid ≡ true
  pub unpaused : player.child_paused ≡ false

-- What the two commands do to such a player.
abbrev paused : Player → Timeval → Player
paused player t = record player {
  child_paused = true;
  pause_started = t;
  pending_command = play_cmd_pause;
}

paused_lem :
    (player : Player) (t : Timeval)
    → IsPlaying player
    → (command_player player play_cmd_pause t).0 ≡ paused player t
unfolding command_player
paused_lem player t v = simp (v.child, v.unpaused)

resumed_lem :
    (player : Player) (now : Timeval)
    → ltb_ℤ (pos 0) player.child_pid ≡ true
    → player.child_paused ≡ true
    → (command_player player play_cmd_resume now).0 ≡ record player {
      paused_offset_us = player.paused_offset_us +ℤ elapsed_us player.pause_started now;
      child_paused = false;
      pending_command = play_cmd_resume;
    }
unfolding command_player
resumed_lem player now child paused = simp (child, paused)

-- The position depends on the time that was played alone.
position_of :
    (p q : Player) (t u : Timeval)
    → no_media p ≡ no_media q
    → played_us p t ≡ played_us q u
    → get_player_position p t ≡ get_player_position q u
unfolding get_player_position
position_of p q t u e f = simp (e, f)

-- While the child is paused the position stays: at any later time it is the position at the pause.
pub position-pause :
    (player : Player) (t now : Timeval)
    → IsPlaying player
    → get_player_position (command_player player play_cmd_pause t).0 now
      ≡ get_player_position player t
unfolding played_us
position-pause player t now v = rw (paused_lem player t v) (
    position_of _ player now t refl
      (rw v.unpaused (elapsed_sub player.child_start_time t now player.paused_offset_us)))

-- A pause that ends takes nothing from the position and adds nothing: at the moment of the resume
-- the media is where it was at the pause.
pub position-resume :
    (player : Player) (t now : Timeval)
    → IsPlaying player
    → get_player_position
        (command_player (command_player player play_cmd_pause t).0 play_cmd_resume now).0
        now
      ≡ get_player_position player t
unfolding played_us
position-resume player t now v = rw (paused_lem player t v) (
    rw (resumed_lem (paused player t) now v.child refl) (
      position_of _ player now t refl
        (rw v.unpaused (elapsed_offset player.child_start_time t now player.paused_offset_us))))

nonneg_times :
    (a : ℤ) → (n : ℕ) × ((if ltb_ℤ a (pos 0) then pos 0 else a) *ℤ pos 1000 ≡ pos (n * 1000))
unfolding ◌*ℤ◌
nonneg_times a = (pos_part a, ground arith)

-- A position is -1, without a child or a start time, or a whole number of microseconds, in
-- nanoseconds.
pub position_range :
    (player : Player) (now : Timeval)
    → ((no_media player ≡ true) × (get_player_position player now ≡ minus_one))
      ⊎ ((no_media player ≡ false) × ((n : ℕ) × (get_player_position player now ≡ pos (n * 1000))))
unfolding get_player_position
position_range player now = elim (Bool-cases (no_media player)) [
  | inl e ↦ inl (e, rw e)
  | inr e ↦ let (n, h) = nonneg_times (played_us player now) in inr (e, (n, rw e h))
]
