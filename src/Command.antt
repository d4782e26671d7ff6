-- ===== src/Command.antt =====
-- src/server/agmp/agmp_cmds.c: what the server does for each command, and the table of them in
-- src/server/response/response.c. A handler has no result where the code would read through NULL:
-- `strdup(NULL)`, or `data[0]` of a response without data.
pub mod Moves
use odroid_player.Prelude.{
  pos, ltb_ℤ, leb_ℤ, eq_ℤ, succ_ℤ, pred_ℤ, int_of_size, String, List, [], ◌∷◌, Option, none, some,
  not, if◌then◌else◌,
}
use odroid_player.Sys.{Call}
use odroid_player.Message.{
  Status, success, invalid, Cmd, nothing, play, stop, pause, next, prev, quit, seek, time, uri, ack,
  cmd_count,
}
use odroid_player.Playlist.{
  get_playlist_cur_idx, get_playlist_filenum, get_playlist_uri, get_playlist_current_uri,
}
use odroid_player.Player.{
  Player, Timeval, play_cmd_next, play_cmd_prev, play_cmd_stop, play_cmd_pause, play_cmd_resume,
  play_cmd_replay, command_player,
}

-- What a handler returns, the status that it leaves, the player and the calls.
pub record Reply : Type 0 where
  pub text : Option String
  pub status : Status
  pub player : Player
  pub calls : List Call

abbrev pub Handler : Type 0
Handler = Status → Player → Timeval → Option Reply

abbrev pub answer : Status → Option String → Player → List Call → Option Reply
answer status text player calls =
    some (record { text = text; status = status; player = player; calls = calls })

unfoldable pub cmd_none : Handler
cmd_none status player now = answer invalid none player []

unfoldable pub cmd_play : Handler
cmd_play status player now =
    let (resumed, resume_calls) = command_player player play_cmd_resume now in
    let (replayed, replay_calls) = command_player player play_cmd_replay now in
    if player.child_paused
    then answer success (some "play") resumed resume_calls
    else if eq_ℤ player.child_pid (pos 0)
    then answer success (some "play") replayed replay_calls
    else answer success (some "play") player []

unfoldable pub cmd_stop : Handler
cmd_stop status player now =
    let (p, calls) = command_player player play_cmd_stop now in answer success (some "stop") p calls

unfoldable pub cmd_pause : Handler
cmd_pause status player now =
    let (p, calls) = command_player player play_cmd_pause now in
    answer success (some "pause") p calls

-- `strdup` of a uri, after which the rest runs; NULL is a fault.
abbrev pub with_copy : Option String → (String → Option Reply) → Option Reply
with_copy none rest = none
with_copy (some filename) rest = rest filename

unfoldable pub cmd_next : Handler
cmd_next status player now =
    let idx = get_playlist_cur_idx player.playlist in
    let filenum = int_of_size (get_playlist_filenum player.playlist) in
    let (p, calls) = command_player player play_cmd_next now in
    let first =
      with_copy (get_playlist_uri player.playlist (pos 0)) (λ f. answer success (some f) p calls) in
    let following =
      with_copy (get_playlist_uri player.playlist (succ_ℤ idx))
        (λ f. answer success (some f) p calls) in
    if leb_ℤ filenum (succ_ℤ idx)
    then (if not player.loop then answer success (some "End of the playlist") player [] else first)
    else following

unfoldable pub cmd_prev : Handler
cmd_prev status player now =
    let idx = get_playlist_cur_idx player.playlist in
    let (p, calls) = command_player player play_cmd_prev now in
    let before =
      with_copy (get_playlist_uri player.playlist (pred_ℤ idx))
        (λ f. answer success (some f) p calls) in
    if ltb_ℤ (pred_ℤ idx) (pos 0)
    then answer success (some "Start of the playlist") player []
    else before

unfoldable pub cmd_quit : Handler
cmd_quit status player now = answer invalid (some "not implemented") player []

unfoldable pub cmd_seek : Handler
cmd_seek status player now = answer invalid (some "not implemented") player []

unfoldable pub cmd_time : Handler
cmd_time status player now = answer invalid (some "should be used with stream type") player []

unfoldable pub cmd_uri : Handler
cmd_uri status player now = elim (get_playlist_current_uri player.playlist) [
  | none ↦ none
  | some current ↦ with_copy current (λ f. answer status (some f) player [])
]

-- The first text of a response; none if `data` is NULL or holds no text there.
abbrev pub first_item : Option (List (Option String)) → Option String
first_item none = none
first_item (some []) = none
first_item (some (x ∷ xs)) = x

unfoldable pub cmd_ack : Handler
cmd_ack status player now = elim player.prev_resp [
  | none ↦ answer status (some "couldn't find previous response") player []
  | some prev_resp ↦ with_copy (first_item prev_resp.items) (λ f. answer status (some f) player [])
]

-- The array that `init_cmd_array` fills; it has no entry for `cmd_count`.
unfoldable pub init_cmd_array : Cmd → Option Handler
init_cmd_array nothing = some cmd_none
init_cmd_array play = some cmd_play
init_cmd_array stop = some cmd_stop
init_cmd_array pause = some cmd_pause
init_cmd_array next = some cmd_next
init_cmd_array prev = some cmd_prev
init_cmd_array quit = some cmd_quit
init_cmd_array seek = some cmd_seek
init_cmd_array time = some cmd_time
init_cmd_array uri = some cmd_uri
init_cmd_array ack = some cmd_ack
init_cmd_array cmd_count = none
