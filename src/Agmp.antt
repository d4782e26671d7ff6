-- ===== src/Agmp.antt =====
-- src/server/agmp/agmp_utils.c: how the GStreamer back end goes to another file when it says that one
-- ends. The functions of the back end itself are calls; its handle is left out, and what the callback prints.
pub mod Moves
pub mod Media
use odroid_player.Prelude.{
  ℕ, ℤ, pos, minus_one, ltb_ℤ, leb, size_of_int, List, [], ◌∷◌, ◌++◌, Bool, true, false, not,
  if◌then◌else◌,
}
use odroid_player.Sys.{
  Call, agmp_set_uri, agmp_unset_uri, agmp_stop, agmp_prepare, agmp_play, agmp_deferred_callback,
}
use odroid_player.Message.{brdinfo, uri}
use odroid_player.Playlist.{
  increase_playlist_cur_idx, decrease_playlist_cur_idx, get_playlist_cur_idx, set_playlist_cur_idx,
  get_playlist_filenum, get_playlist_uri,
}
use odroid_player.Send.{Net, send_broadcast_message}
use odroid_player.Player.{Player, set_player_running}

-- The file at an index is set at the back end and announced to the clients.
unfoldable pub load_uri : Net → Player → ℤ → List Call
load_uri net player cur =
    agmp_unset_uri
    ∷ agmp_set_uri (get_playlist_uri player.playlist cur)
    ∷ (send_broadcast_message net player.client_pool (get_playlist_uri player.playlist cur)
        minus_one brdinfo uri).1

unfoldable pub load_next : Net → Player → Bool × Player × List Call
unfolding load_uri
load_next net player =
    let p : Player = record player { playlist = increase_playlist_cur_idx player.playlist } in
    let cur = get_playlist_cur_idx p.playlist in
    let back : Player = record player { playlist = decrease_playlist_cur_idx p.playlist } in
    let first : Player = record player { playlist = set_playlist_cur_idx p.playlist (pos 0) } in
    if leb (get_playlist_filenum p.playlist) (size_of_int cur)
    then (if not player.loop then (false, back, []) else (true, first, load_uri net first (pos 0)))
    else (true, p, load_uri net p cur)

unfoldable pub load_prev : Net → Player → Bool × Player × List Call
unfolding load_uri
load_prev net player =
    let p : Player = record player { playlist = decrease_playlist_cur_idx player.playlist } in
    let cur = get_playlist_cur_idx p.playlist in
    let back : Player = record player { playlist = increase_playlist_cur_idx p.playlist } in
    if ltb_ℤ cur (pos 0) then (false, back, []) else (true, p, load_uri net p cur)

-- The messages that the callback tells apart; `other` are those that it only logs.
pub data AgmpMessage : Type 0 where
  about_finish eos error other : AgmpMessage

-- `start_stream`: the pipeline is flushed, and the new stream set and played.
abbrev pub start_stream : List Call
start_stream = agmp_stop ∷ agmp_prepare ∷ agmp_play ∷ []

unfoldable pub agmp_message_callback : Net → AgmpMessage → Player → Player × List Call
unfolding load_next
agmp_message_callback net about_finish player =
    let (loaded, p, calls) = load_next net player in
    let (q, stops) = set_player_running p false in
    if not loaded then (q, stops) else (p, calls ++ agmp_deferred_callback ∷ [])
agmp_message_callback net eos player =
    let (loaded, p, calls) = load_next net player in
    let (q, stops) = set_player_running p false in
    if not loaded then (q, stops) else (p, calls ++ start_stream)
agmp_message_callback net error player = set_player_running player false
agmp_message_callback net other player = (player, [])
