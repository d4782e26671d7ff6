-- ===== src/Lifecycle.antt =====
-- src/server/player/player.c, the start and the end of the player: `start_player`, `wait_player` and
-- `clear_player`. Signal handlers and masks are left out.
pub mod Threads
use odroid_player.Prelude.{
  ℕ, ◌==◌, String, List, [], ◌∷◌, ◌++◌, Option, none, some, Bool, true, false, if◌then◌else◌,
}
use odroid_player.Sys.{Call, pthread_create, pthread_detach, pthread_join}
use odroid_player.Message.{Node}
use odroid_player.Queue.{clear_queue}
use odroid_player.Playlist.{clear_playlist}
use odroid_player.Pool.Change.{clear_client_pool}
use odroid_player.Player.{Player, set_player_running, stop_child}

-- The threads that `pthread_create` makes, none where it fails.
pub record StartWorld : Type 0 where
  pub strm : Option ℕ
  pub serv : Option ℕ
  pub resp : Option ℕ
  pub wtdg : Option ℕ
  pub play : Option ℕ

abbrev pub Started : Type 0
Started = Bool × Player × List Call

-- The threads are created one after the other: each step has those that are still to come.
unfoldable pub start_play : Option ℕ → Player → List Call → Started
start_play none player calls = (false, player, calls)
start_play (some id) player calls =
    (true, record player { play_thread_id = id }, calls ++ pthread_create id ∷ [])

unfoldable pub start_watchdog : Option ℕ → Option ℕ → Player → List Call → Started
unfolding start_play
start_watchdog none play player calls = (false, player, calls)
start_watchdog (some id) play player calls =
    start_play play (record player { wtdg_thread_id = id })
      (calls ++ pthread_create id ∷ pthread_detach id ∷ [])

unfoldable pub start_response : Option ℕ → Option ℕ → Option ℕ → Player → List Call → Started
unfolding start_watchdog
start_response none wtdg play player calls = (false, player, calls)
start_response (some id) wtdg play player calls =
    start_watchdog wtdg play (record player { resp_thread_id = id })
      (calls ++ pthread_create id ∷ [])

unfoldable pub start_server :
    Option ℕ → Option ℕ → Option ℕ → Option ℕ → Player → List Call → Started
unfolding start_response
start_server none resp wtdg play player calls = (false, player, calls)
start_server (some id) resp wtdg play player calls =
    start_response resp wtdg play (record player { serv_thread_id = id })
      (calls ++ pthread_create id ∷ [])

unfoldable pub start_stream : StartWorld → Option ℕ → Player → List Call → Started
unfolding start_server
start_stream world none player calls = (false, player, calls)
start_stream world (some id) player calls =
    start_server world.serv world.resp world.wtdg world.play (record player { strm_thread_id = id })
      (calls ++ pthread_create id ∷ [])

unfoldable pub start_player : StartWorld → Player → Started
unfolding start_stream
start_player world player =
    let (p, calls) = set_player_running player true in start_stream world world.strm p calls

unfoldable pub wait_player : Player → List Call
wait_player player =
    pthread_join player.strm_thread_id
    ∷ pthread_join player.serv_thread_id
    ∷ pthread_join player.resp_thread_id
    ∷ pthread_join player.play_thread_id
    ∷ []

-- What `clear_player` frees: the uris, the nodes of the queue and the last response.
pub record Freed : Type 0 where
  pub uris : List (Option String)
  pub nodes : List Node
  pub response : Option Node

unfoldable pub clear_player : Player → Freed × List Call
clear_player player =
    let (p, calls) = stop_child player in
    let joined = if p.play_thread_id == 0 then [] else pthread_join p.play_thread_id ∷ [] in
    let (pool, closed) = clear_client_pool p.client_pool in
    (
      record {
        uris = clear_playlist (p.playlist).filenum (p.playlist).uri_arr;
        nodes = clear_queue (p.queue).nodes;
        response = p.prev_resp;
      },
      calls ++ (joined ++ closed),
    )
