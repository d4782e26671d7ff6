-- ===== src/System.antt =====
-- The server as a whole: the threads of src/server/server/server.c, src/server/response/response.c,
-- src/server/stream/stream.c and src/server/player/player.c over one player, interleaved in any order. A
-- step is a descriptor that is accepted, a round over a slot, a node that is taken, executed or answered,
-- a stream that is served, a turn of the play thread, or what such rounds do to the pool of clients and
-- to the sets of descriptors when they overlap.
pub mod Shared
pub mod Steady
pub mod Answering
pub mod Frame
pub mod Executing
pub mod Playing
pub mod Live
pub mod Start
use odroid_player.Prelude.{ℕ, ◌≡◌, ℤ, String, List, [], Option, none, some, Bool}
use odroid_player.Sys.{Call}
use odroid_player.Message.{Node}
use odroid_player.Queue.{Queue, taken, dequeue}
use odroid_player.Pool.{ClientPool}
use odroid_player.FdSet.{FdSet, set_fd}
use odroid_player.Send.{Net}
use odroid_player.Player.{Player, Timeval}
use odroid_player.Receive.{Input}
use odroid_player.Server.{accept_step, client_slot}
use odroid_player.Response.{World, Executed, execute_command, after_command, first_entry}
use odroid_player.Stream.{Sent, stream_slot}
use odroid_player.Playback.Frame.{Phase, top}
use odroid_player.Playback.Machine as Machine

-- What the response thread has in hand.
pub data Stage : Type 0 where
  idle : Stage
  holding : Node → Stage
  executed : Node → Executed → Stage

-- `client_id` is the static counter of `connect_new_client`.
pub record System : Type 0 where
  pub phase : Phase
  pub stage : Stage
  pub client_id : ℕ
  pub player : Player

-- What `run_server` does before its loop.
unfoldable pub watch_server : ℤ → Player → Player
watch_server server_fd player = record player {
  serv_set = set_fd server_fd player.serv_set;
  serv_maxfd = server_fd;
}

abbrev pub accepted : Net → ℤ → System → System
accepted net fd s =
    let (client_id, player, calls) = accept_step net fd s.client_id s.player in
    record s { client_id = client_id; player = player }

-- `overlap` is for the critical sections of client.c and of the sets of descriptors: a removal looks a
-- client up in one and removes it in another, and both the server thread and the response thread
-- remove clients, so the pool and the sets may be anything between and after them.
pub data Step (net : Net) : System → System → Type 0 where
  overlap :
      (s : System) (pool : ClientPool) (serv_maxfd strm_maxfd : ℤ) (serv_set strm_set : FdSet)
      → Step net s (record s {
        player = record (s.player) {
          client_pool = pool;
          serv_maxfd = serv_maxfd;
          serv_set = serv_set;
          strm_maxfd = strm_maxfd;
          strm_set = strm_set;
        };
      })
  accept : (s : System) (fd : ℤ) → Step net s (accepted net fd s)
  slot :
      (s : System) (node_ok data_ok : Bool) (read_set : FdSet) (i : ℤ) (input : Input) (p : Player)
      (calls : List Call)
      → client_slot net node_ok data_ok read_set i input s.player ≡ some (p, calls)
      → Step net s (record s { player = p })
  take :
      (s : System) (node : Node) (q : Queue Node)
      → s.stage ≡ idle
      → dequeue s.player.queue [] ≡ taken node q
      → Step net s (record s { stage = holding node; player = record (s.player) { queue = q } })
  execute :
      (s : System) (world : World) (node : Node) (e : Executed)
      → s.stage ≡ holding node
      → execute_command world node s.player ≡ some e
      → Step net s (record s { stage = executed node e; player = e.player })
  answer :
      (s : System) (world : World) (node : Node) (e : Executed) (text : Option String)
      → s.stage ≡ executed node e
      → first_entry node.items ≡ some text
      → Step net s (record s {
        stage = idle;
        player = (after_command world node text (record e { player = s.player })).0;
      })
  serve :
      (s : System) (sent : ℤ → Sent) (write_set : FdSet) (i : ℤ) (now : Timeval)
      → Step net s (record s { player = (stream_slot sent write_set i s.player now).0 })
  play :
      (s : System) (phase : Phase) (p : Player)
      → Machine.Step net s.phase s.player phase p
      → Step net s (record s { phase = phase; player = p })

pub data Reach (net : Net) (start : System) : System → Type 0 where
  here : Reach net start start
  next : {s t : System} → Reach net start s → Step net s t → Reach net start t

-- The threads at their start, when the server thread has its socket.
abbrev pub begin : ℤ → Player → System
begin server_fd player = record {
  phase = top;
  stage = idle;
  client_id = 0;
  player = watch_server server_fd player;
}
