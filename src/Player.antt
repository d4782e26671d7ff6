-- ===== src/Player.antt =====
-- src/server/player/player.h and the parts of src/server/player/player.c that are not the play thread: the
-- state that the threads share, its flags, the commands to the child process, and the position.
-- A function is one critical section of `play_mutex`; `gettimeofday` answers with an argument.
pub mod Clock
pub mod Commands
pub mod Prepare
use odroid_player.Prelude.{
  ℕ, suc, ℤ, pos, negsuc, minus_one, ltb_ℤ, leb_ℤ, eq_ℤ, ◌+ℤ◌, ◌-ℤ◌, ◌*ℤ◌, String, List, [], ◌∷◌,
  ◌++◌, Option, none, some, Bool, true, false, not, ◌&&◌, ◌||◌, ◌==◌, leb, if◌then◌else◌,
}
use odroid_player.Sys.{
  Call, kill, pthread_kill, cond_signal, queue_cond, play_cond, sigcont, sigstop, sigterm, sigusr1,
}
use odroid_player.Message.{Node}
use odroid_player.Queue.{Queue}
use odroid_player.Playlist.{Playlist, max_filenum, append_playlist, get_playlist_filenum}
use odroid_player.Pool.{ClientPool}
use odroid_player.FdSet.{FdSet, init_set}

pub data PlayerCmd : Type 0 where
  play_cmd_none play_cmd_next play_cmd_prev play_cmd_stop play_cmd_pause play_cmd_resume
        play_cmd_replay :
      PlayerCmd

-- `struct timeval`.
pub record Timeval : Type 0 where
  pub tv_sec : ℤ
  pub tv_usec : ℤ

abbrev pub zero_time : Timeval
zero_time = record { tv_sec = pos 0; tv_usec = pos 0 }

pub record Player : Type 0 where
  pub playlist : Playlist
  pub client_pool : ClientPool
  pub queue : Queue Node
  pub serv_thread_id : ℕ
  pub resp_thread_id : ℕ
  pub strm_thread_id : ℕ
  pub wtdg_thread_id : ℕ
  pub play_thread_id : ℕ
  pub running : Bool
  pub loop : Bool
  pub serv_set : FdSet
  pub strm_set : FdSet
  pub serv_maxfd : ℤ
  pub strm_maxfd : ℤ
  pub prev_resp : Option Node
  pub child_pid : ℤ
  pub child_paused : Bool
  pub child_stopped : Bool
  pub child_start_time : Timeval
  pub paused_offset_us : ℤ
  pub pause_started : Timeval
  pub pending_command : PlayerCmd
  pub log_level : ℤ

-- `none` where an allocation failed. `playlist`, `client_pool` and `queue` are the answers of their
-- own constructor functions.
unfoldable pub create_player :
    Bool → Option Playlist → Option ClientPool → Option (Queue Node) → Bool → ℤ → Option Player
create_player false _ _ _ is_loop log_level = none
create_player true none _ _ is_loop log_level = none
create_player true (some playlist) none _ is_loop log_level = none
create_player true (some playlist) (some client_pool) none is_loop log_level = none
create_player true (some playlist) (some client_pool) (some queue) is_loop log_level =
    some (record {
      playlist = playlist;
      client_pool = client_pool;
      queue = queue;
      serv_thread_id = 0;
      resp_thread_id = 0;
      strm_thread_id = 0;
      wtdg_thread_id = 0;
      play_thread_id = 0;
      running = false;
      loop = is_loop;
      serv_set = init_set;
      strm_set = init_set;
      serv_maxfd = pos 0;
      strm_maxfd = pos 0;
      prev_resp = none;
      child_pid = pos 0;
      child_paused = false;
      child_stopped = false;
      child_start_time = zero_time;
      paused_offset_us = pos 0;
      pause_started = zero_time;
      pending_command = play_cmd_none;
      log_level = log_level;
    })

-- The first loop of `prepare_player`, over the list of names up to its NULL: the playlist so far,
-- and whether every name was taken. A fault of `append_playlist` is the outer `none`.
pub fill_playlist : List String → Playlist → Option (Bool × Playlist)
fill_playlist [] p = some (true, p)
fill_playlist (file ∷ files) p =
    if leb max_filenum (get_playlist_filenum p)
    then some (false, p)
    else (elim (append_playlist p file) [ none ↦ none | some q ↦ fill_playlist files q ])

unfoldable pub prepare_player : Player → List String → Option (Bool × Player)
unfolding fill_playlist
prepare_player player filelist = elim (fill_playlist filelist player.playlist) [
  | none ↦ none
  | some (taken, p) ↦
      some (taken && not (get_playlist_filenum p == 0), record player { playlist = p })
]

unfoldable pub get_player_running : Player → Bool
get_player_running player = player.running

-- The signal that wakes a thread out of `pselect`, if the thread was started.
abbrev pub wake_thread : ℕ → List Call
wake_thread id = if id == 0 then [] else pthread_kill id sigusr1 ∷ []

unfoldable pub set_player_running : Player → Bool → Player × List Call
set_player_running player flag = (
  record player { running = flag; queue = record (player.queue) { running = flag } },
  cond_signal queue_cond
      ∷ cond_signal play_cond
      ∷ (if flag
          then []
          else wake_thread player.strm_thread_id ++ wake_thread player.serv_thread_id),
)

-- Microseconds from one time to another.
abbrev pub elapsed_us : Timeval → Timeval → ℤ
elapsed_us from now = (now.tv_sec -ℤ from.tv_sec) *ℤ pos 1000000 +ℤ (now.tv_usec -ℤ from.tv_usec)

-- The `switch` of `command_player`, for a child that exists.
signal_child : PlayerCmd → Player → Timeval → Player × List Call
signal_child play_cmd_pause player now =
    if not player.child_paused
    then (
      record player { child_paused = true; pause_started = now },
      kill player.child_pid sigstop ∷ [],
    )
    else (player, [])
signal_child play_cmd_resume player now =
    if player.child_paused
    then (
      record player {
        paused_offset_us = player.paused_offset_us +ℤ elapsed_us player.pause_started now;
        child_paused = false;
      },
      kill player.child_pid sigcont ∷ [],
    )
    else (player, [])
signal_child play_cmd_none player now = (player, [])
signal_child _ player now =
    if player.child_paused
    then (
      record player { child_paused = false },
      kill player.child_pid sigcont ∷ kill player.child_pid sigterm ∷ [],
    )
    else (player, kill player.child_pid sigterm ∷ [])

unfoldable pub command_player : Player → PlayerCmd → Timeval → Player × List Call
unfolding signal_child
command_player player command now =
    let p : Player = record player { pending_command = command } in
    let (q, calls) = signal_child command p now in
    if ltb_ℤ (pos 0) player.child_pid
    then (q, cond_signal play_cond ∷ calls)
    else (p, cond_signal play_cond ∷ [])

-- No child, or no start time.
abbrev pub no_media : Player → Bool
no_media player =
    leb_ℤ player.child_pid (pos 0)
    || (eq_ℤ player.child_start_time.tv_sec (pos 0) && eq_ℤ player.child_start_time.tv_usec (pos 0))

-- The value of `delta_us` before it is cut off at 0.
unfoldable pub played_us : Player → Timeval → ℤ
played_us player now =
    let delta_us = elapsed_us player.child_start_time now -ℤ player.paused_offset_us in
    if player.child_paused then delta_us -ℤ elapsed_us player.pause_started now else delta_us

-- -1 without a child, and the nanoseconds that it has played otherwise.
unfoldable pub get_player_position : Player → Timeval → ℤ
get_player_position player now =
    let delta_us = played_us player now in
    if no_media player
    then minus_one
    else (if ltb_ℤ delta_us (pos 0) then pos 0 else delta_us) *ℤ pos 1000

-- `clear_player` up to its `pthread_join`: the child is told to go.
unfoldable pub stop_child : Player → Player × List Call
stop_child player =
    let (p, calls) = set_player_running player false in
    let child =
      if ltb_ℤ (pos 0) p.child_pid
      then (if p.child_paused
          then kill p.child_pid sigcont ∷ kill p.child_pid sigterm ∷ []
          else kill p.child_pid sigterm ∷ [])
      else [] in
    (
      if ltb_ℤ (pos 0) p.child_pid then record p { child_paused = false } else p,
      calls ++ (child ++ cond_signal play_cond ∷ []),
    )
