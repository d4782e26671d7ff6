-- ===== src/Player/Prepare.antt =====
-- `prepare_player` of src/server/player/player.c fills the playlist.
use odroid_player.Prelude.{
  ℕ, ◌+◌, ◌≤◌, ◌<◌, ◌≡◌, refl, sym, String, List, [], ◌∷◌, ◌++◌, some, true, false, arith, length,
  append-nil, append_assoc, length-append, leb, ◌⊎◌, leb-false, inl, inr, Bool-cases, subst,
}
use odroid_player.Playlist.{Playlist, max_filenum, get_playlist_filenum}
use odroid_player.Playlist.Valid.{Shows, append_playlist-Shows}
use odroid_player.Player.{Player, fill_playlist, prepare_player}

-- `fill_playlist` appends the names while there is room.
fill_playlist-Shows :
    (files : List String) (p : Playlist) (held : List String) (cur : ℕ)
    → Shows p held cur
    → length held + length files ≤ max_filenum
    → (q : Playlist) × (fill_playlist files p ≡ some (true, q)) × Shows q (held ++ files) cur
unfolding fill_playlist get_playlist_filenum
fill_playlist-Shows [] p held cur v room =
    (p, refl, subst (λ l. Shows p l cur) (sym (append-nil held)) v)
fill_playlist-Shows (file ∷ files) p held cur v room =
    let (q, e, w) = append_playlist-Shows p held cur file v (omega arith) in
    let (r, f, u) =
      fill_playlist-Shows files q (held ++ file ∷ []) cur w
        (omega (arith, length-append held (file ∷ []))) in
    (
      r,
      rw (leb-false max_filenum p.filenum (omega (arith, v.counted))) (rw (e, fill_playlist) f),
      subst (λ l. Shows r l cur) (append_assoc held (file ∷ []) files) u,
    )

-- A full playlist: the first `max_filenum` of the names that were to stand in it.
abbrev pub Full : List String → ℕ → Playlist → Type 0
Full names cur q =
    (taken : List String) × (rest : List String) × (names ≡ taken ++ rest)
    × (length taken ≡ max_filenum)
    × Shows q taken cur

-- `fill_playlist` stops with an error when the array is full and a name is left.
fill_playlist-Full :
    (files : List String) (p : Playlist) (held : List String) (cur : ℕ)
    → Shows p held cur
    → max_filenum < length held + length files
    → (q : Playlist) × (fill_playlist files p ≡ some (false, q)) × Full (held ++ files) cur q
unfolding fill_playlist get_playlist_filenum
fill_playlist-Full [] p held cur v over = absurd (omega (arith, v.fits))
fill_playlist-Full (file ∷ files) p held cur v over =
    elim (Bool-cases (leb max_filenum p.filenum)) [
      | inl full ↦ (p, rw full, (held, file ∷ files, refl, ground arith, v))
      | inr room ↦
          let (q, e, w) = append_playlist-Shows p held cur file v (ground arith) in
          let (r, f, u) =
            fill_playlist-Full files q (held ++ file ∷ []) cur w
              (omega (arith, length-append held (file ∷ []))) in
          (
            r,
            rw room (rw (e, fill_playlist) f),
            subst (λ l. Full l cur r) (append_assoc held (file ∷ []) files) u,
          )
    ]

-- The names of a command line that fit are the playlist, in their order, with the cursor on the
-- first, and the call succeeds.
pub prepare_player-Shows :
    (player : Player) (files : List String)
    → Shows player.playlist [] 0
    → 0 < length files
    → length files ≤ max_filenum
    → (q : Playlist) × (prepare_player player files ≡ some (true, record player { playlist = q }))
      × Shows q files 0
unfolding prepare_player get_playlist_filenum
prepare_player-Shows player files v some_file fits =
    let (q, e, w) = fill_playlist-Shows files player.playlist [] 0 v (omega arith) in
    (q, rw (e, prepare_player) (ground (arith, w.counted)), w)

-- Too many names are refused, once the array is full, and no names at all are refused too: neither
-- is a fault.
pub prepare_player_refuses :
    (player : Player) (files : List String)
    → Shows player.playlist [] 0
    → (length files ≡ 0) ⊎ (max_filenum < length files)
    → (q : Playlist) × (prepare_player player files ≡ some (false, record player { playlist = q }))
unfolding prepare_player fill_playlist get_playlist_filenum
prepare_player_refuses player [] v h = (player.playlist, ground (arith, v.counted))
prepare_player_refuses player (file ∷ files) v (inl none_given) = absurd (omega arith)
prepare_player_refuses player (file ∷ files) v (inr over) =
    let (q, e, w) = fill_playlist-Full (file ∷ files) player.playlist [] 0 v (omega arith) in
    (q, rw (e, prepare_player))
