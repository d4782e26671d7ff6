-- ===== src/Playback/Cursor.antt =====
-- The moves of the playlist's cursor in src/server/player/player.c.
use odroid_player.Prelude.{
  ℕ, zero, suc, ◌≤◌, ◌<◌, ◌≡◌, refl, ◌⊎◌, inl, inr, String, List, [], true, false, arith, length,
  leb, leb→le, not-leb→lt, leb-suc-zero, Bool-cases,
}
use odroid_player.Playlist.{get_playlist_filenum, get_playlist_cur_idx}
use odroid_player.Playlist.Valid.{Shows, set_playlist_cur_idx-Shows}
use odroid_player.Send.{Net}
use odroid_player.Player.{Player}
use odroid_player.Playback.{forward_playlist, backward_playlist}

-- The player with the cursor of its playlist on `cur`, and nothing else changed.
abbrev pub At : Player → List String → ℕ → Player → Type 0
At player files cur p = Shows p.playlist files cur × (p ≡ record player { playlist = p.playlist })

-- `forward_playlist` goes to the next file; from the last one it goes to the first if the player
-- loops, and otherwise fails and changes nothing.
pub forward_playlist-At :
    (net : Net) (player : Player) (files : List String) (cur : ℕ)
    → Shows player.playlist files cur
    → 0 < length files
    → let (moved, p, calls) = forward_playlist net player in
      ((suc cur < length files) × (moved ≡ true) × At player files (suc cur) p)
      ⊎ ((length files ≤ suc cur)
          × (((player.loop ≡ false) × (forward_playlist net player ≡ (false, player, [])))
              ⊎ ((player.loop ≡ true) × (moved ≡ true) × At player files 0 p)))
unfolding forward_playlist get_playlist_filenum get_playlist_cur_idx
forward_playlist-At net player files cur v some_file =
    elim (Bool-cases (leb (length files) (suc cur))) [
      | inl end ↦ elim (Bool-cases player.loop) [
        | inl loop ↦
            simp (v.current, v.counted, end, loop)
              (inr (
                leb→le _ _ end,
                inr (
                  refl,
                  refl,
                  ((set_playlist_cur_idx-Shows player.playlist files cur v).0 0 some_file, refl),
                ),
              ))
        | inr once ↦ simp (v.current, v.counted, end, once) (inr (leb→le _ _ end, inl (refl, refl)))
      ]
      | inr more ↦
          simp (v.current, v.counted, more)
            (inl (
              not-leb→lt _ _ more,
              refl,
              (
                (set_playlist_cur_idx-Shows player.playlist files cur v).0 (suc cur)
                    (not-leb→lt _ _ more),
                refl,
              ),
            ))
    ]

-- `backward_playlist` goes to the file before; from the first one it fails and changes nothing,
-- even if the player loops.
pub backward_playlist-At :
    (net : Net) (player : Player) (files : List String) (cur : ℕ)
    → Shows player.playlist files cur
    → 0 < length files
    → let (moved, p, calls) = backward_playlist net player in
      ((cur ≡ 0) × (backward_playlist net player ≡ (false, player, [])))
      ⊎ ((before : ℕ) × (cur ≡ suc before) × (moved ≡ true) × At player files before p)
unfolding backward_playlist get_playlist_cur_idx
backward_playlist-At net player files zero v some_file = simp v.current (inl (refl, refl))
backward_playlist-At net player files (suc before) v some_file =
    simp (v.current, leb-suc-zero)
      (inr (
        before,
        refl,
        refl,
        (
          (set_playlist_cur_idx-Shows player.playlist files (suc before) v).0 before
              (omega (arith, v.inside)),
          refl,
        ),
      ))
