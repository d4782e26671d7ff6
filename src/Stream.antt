-- ===== src/Stream.antt =====
-- src/server/stream/stream.c: streams of the playing time to the clients that asked for it.
pub mod TimeText
use odroid_player.Prelude.{
  ℕ, ◌*◌, ◌/◌, ◌%◌, ℤ, pos, negsuc, minus_one, ltb_ℤ, leb_ℤ, eq_ℤ, is_pos, String, List, [], ◌∷◌,
  ◌++◌, Option, none, some, Bool, true, false, not, ◌||◌, if◌then◌else◌,
}
use odroid_player.Sys.{Call, pthread_kill, sigusr1}
use odroid_player.Message.{Cmd, time}
use odroid_player.Pool.{
  ClientPool, StreamFunc, get_stream_time, find_client_index, find_stream_fd, find_client,
  find_stream, get_client_stream_fd, get_client_stream_func, get_client_stream_path,
  check_stream_alive,
}
use odroid_player.Pool.Change.{
  SocketApi, create_client_stream, set_client_stream_func, remove_client_stream,
}
use odroid_player.FdSet.{FdSet, fd_ready, update_fd_set, update_client_add, update_client_remove}
use odroid_player.Player.{Player, Timeval, get_player_position}

abbrev pub second_ns : ℕ
second_ns = 1000000000

-- The four numbers that `sprintf` writes as "%ld:%02ld:%02ld.%ld".
pub record TimeParts : Type 0 where
  pub hour : ℕ
  pub minute : ℕ
  pub second : ℕ
  pub msecond : ℕ

unfoldable pub time_parts : ℕ → TimeParts
time_parts pos_ns = record {
  hour = pos_ns / (second_ns * 60 * 60);
  minute = pos_ns / (second_ns * 60) % 60;
  second = pos_ns / second_ns % 60;
  msecond = pos_ns % second_ns / 100000000;
}

-- A negative position counts as 0.
abbrev pub not_negative : ℤ → ℕ
not_negative (pos n) = n
not_negative (negsuc n) = 0

unfoldable pub stream_time : Player → Timeval → TimeParts
stream_time player now = time_parts (not_negative (get_player_position player now))

unfoldable pub set_new_stream : SocketApi → ℤ → Player → Bool × Player × List Call
set_new_stream api client_fd player =
    let (made, pool, calls) = create_client_stream api client_fd player.client_pool in
    let p : Player = record player { client_pool = pool } in
    let stream_fd = get_client_stream_fd client_fd pool in
    let (maxfd, fds) =
      update_fd_set stream_fd player.strm_maxfd player.strm_set update_client_add in
    if not made
    then (false, p, calls)
    else if leb_ℤ stream_fd (pos 0)
    then (false, p, calls)
    else (true, record p { strm_maxfd = maxfd; strm_set = fds }, calls)

abbrev pub is_time : Cmd → Bool
is_time time = true
is_time _ = false

-- `killed` is the value of `pthread_kill`. The value of `set_client_stream_func` is not looked at.
unfoldable pub trigger_stream : ℤ → ℤ → Player → Cmd → Bool × Player × List Call
trigger_stream killed client_fd player cmd =
    let set = set_client_stream_func client_fd (some get_stream_time) player.client_pool in
    let p : Player = if is_time cmd then record player { client_pool = set.1 } else player in
    (not (ltb_ℤ (pos 0) killed), p, pthread_kill player.strm_thread_id sigusr1 ∷ [])

-- The path that `prepare_stream` writes to the address.
unfoldable pub prepare_stream : ℤ → ClientPool → Option String
prepare_stream stream_fd pool =
    get_client_stream_path (find_client (find_client_index stream_fd pool find_stream_fd) pool) pool

unfoldable pub get_stream_data : ℤ → Player → Timeval → Option TimeParts
get_stream_data stream_fd player now =
    let client_idx = find_client_index stream_fd player.client_pool find_stream_fd in
    let client_fd = find_client client_idx player.client_pool in
    elim (get_client_stream_func client_fd player.client_pool) [
      | none ↦ none
      | some get_stream_time ↦ some (stream_time player now)
    ]

-- The answer of `sendto`.
pub data Sent : Type 0 where
  delivered timed_out no_peer failed : Sent

-- The value, and what was sent where, if anything was.
unfoldable pub send_stream_data : Sent → ℤ → Player → Timeval → ℤ × Option (String × TimeParts)
send_stream_data sent stream_fd player now = elim (prepare_stream stream_fd player.client_pool) [
  | none ↦ (minus_one, none)
  | some path ↦ elim (get_stream_data stream_fd player now) [
    | none ↦ (minus_one, none)
    | some text ↦
        if not (check_stream_alive stream_fd player.client_pool)
        then (minus_one, none)
        else (elim sent [
          | delivered ↦ (pos 1, some (path, text))
          | timed_out ↦ (minus_one, none)
          | no_peer ↦ (pos 0, none)
          | failed ↦ (minus_one, none)
        ])
  ]
]

-- One round of the loop of `run_stream` over the slots: a stream that fails is removed.
unfoldable pub stream_slot : (ℤ → Sent) → FdSet → ℤ → Player → Timeval → Player × List Call
stream_slot sent write_set i player now =
    let stream_fd = find_stream i player.client_pool in
    let (maxfd, fds) =
      update_fd_set stream_fd player.strm_maxfd player.strm_set update_client_remove in
    let (pool, calls) = remove_client_stream stream_fd player.client_pool in
    if leb_ℤ stream_fd (pos 0) || not (fd_ready stream_fd write_set)
    then (player, [])
    else if ltb_ℤ (send_stream_data (sent stream_fd) stream_fd player now).0 (pos 0)
    then (record player { client_pool = pool; strm_maxfd = maxfd; strm_set = fds }, calls)
    else (player, [])
