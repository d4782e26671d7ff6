-- ===== src/Agmp/Moves.antt =====
-- That src/server/agmp/agmp_utils.c moves in the playlist as the play thread of
-- src/server/player/player.c does.
use odroid_player.Prelude.{
  ℕ, zero, suc, ◌<◌, leb, ◌≡◌, refl, sym, subst, ◌⊎◌, inl, inr, pos, String, List, ◌∷◌, Bool, true,
  false, length, arith, Bool-cases, leb-suc-zero, leb-false, ltb-zero,
}
use odroid_player.Sys.{Call, agmp_set_uri, agmp_unset_uri}
use odroid_player.Playlist.{
  increase_playlist_cur_idx, decrease_playlist_cur_idx, get_playlist_cur_idx, set_playlist_cur_idx,
  get_playlist_filenum, get_playlist_uri,
}
use odroid_player.Playlist.Valid.{Shows}
use odroid_player.Send.{Net}
use odroid_player.Player.{Player}
use odroid_player.Playback.{forward_playlist, backward_playlist, go_to}
use odroid_player.Agmp.{load_uri, load_next, load_prev}

-- The same move: whether there is a file, the player, and the calls but for those to the back end.
abbrev pub SameMove : Bool × Player × List Call → Bool × Player × List Call → Type 0
SameMove (loaded, p, calls) (moved, q, told) =
    (loaded ≡ moved)
    × (p ≡ q)
    × (((loaded ≡ false) × (calls ≡ told))
        ⊎ ((loaded ≡ true)
            × (calls
                ≡ agmp_unset_uri
                  ∷ agmp_set_uri (get_playlist_uri q.playlist (get_playlist_cur_idx q.playlist))
                  ∷ told)))

-- A player with a playlist of so many files and its cursor on a number.
abbrev with_list : Player → ℕ → ℕ → Player
with_list player n cur = record player {
  playlist = record { uri_arr = player.playlist.uri_arr; filenum = n; cur_idx = pos cur };
}

with_list-Shows :
    (player : Player) (files : List String) (cur : ℕ)
    → Shows player.playlist files cur
    → with_list player (length files) cur ≡ player
with_list-Shows player files cur v = λ i. record player {
  playlist = record {
    uri_arr = player.playlist.uri_arr;
    filenum = sym v.counted i;
    cur_idx = sym v.current i;
  };
}

next_moves :
    (net : Net) (player : Player) (n cur : ℕ)
    → 0 < n
    → let p = with_list player n cur in SameMove (load_next net p) (forward_playlist net p)
unfolding load_next load_uri forward_playlist go_to get_playlist_filenum get_playlist_cur_idx
    increase_playlist_cur_idx decrease_playlist_cur_idx set_playlist_cur_idx
next_moves net player n cur some_file = elim (Bool-cases (leb n (suc cur))) [
  | inl end ↦ elim (Bool-cases player.loop) [
    | inr once ↦ simp (end, once) (refl, refl, inl (refl, refl))
    | inl loop ↦ simp (end, loop, leb-false n 0 some_file) (refl, refl, inr (refl, refl))
  ]
  | inr more ↦ simp (more, ltb-zero) (refl, refl, inr (refl, refl))
]

prev_moves :
    (net : Net) (player : Player) (n cur : ℕ)
    → cur < n
    → let p = with_list player n cur in SameMove (load_prev net p) (backward_playlist net p)
unfolding load_prev load_uri backward_playlist go_to get_playlist_filenum get_playlist_cur_idx
    increase_playlist_cur_idx decrease_playlist_cur_idx set_playlist_cur_idx
prev_moves net player n zero some_file = (refl, refl, inl (refl, refl))
prev_moves net player n (suc cur) some_file =
    simp (leb-suc-zero, ltb-zero, leb-false n cur (omega arith)) (refl, refl, inr (refl, refl))

-- With the cursor on a file, `load_next` and `forward_playlist` come to the same, and so do
-- `load_prev` and `backward_playlist`: both move or both fail, the player is the same afterwards,
-- and the clients are told the same; the former set the file at the back end before.
pub load_next-forward_playlist :
    (net : Net) (player : Player) (files : List String) (cur : ℕ)
    → Shows player.playlist files cur
    → 0 < length files
    → SameMove (load_next net player) (forward_playlist net player)
      × SameMove (load_prev net player) (backward_playlist net player)
load_next-forward_playlist net player files cur v some_file =
    let same = with_list-Shows player files cur v in
    (
      subst (λ p. SameMove (load_next net p) (forward_playlist net p)) same
          (next_moves net player (length files) cur some_file),
      subst (λ p. SameMove (load_prev net p) (backward_playlist net p)) same
          (prev_moves net player (length files) cur (omega (arith, v.inside))),
    )
