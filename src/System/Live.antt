-- ===== src/System/Live.antt =====
-- What holds of the server of src/server in every state that its threads reach together.
use odroid_player.Prelude.{
  ℤ, Bool, arith, ℕ, suc, ◌<◌, ◌≡◌, ◌≢◌, refl, sym, subst, pos, String, List, [], ◌∷◌, some, false,
  length,
}
use odroid_player.Sys.{Call}
use odroid_player.Message.{Node, cmd_count}
use odroid_player.Queue.{enqueue, Queue, Dequeued, taken, stopped, waiting, dequeue, wait_loop}
use odroid_player.Queue.Size.{LeavesWellFormed, dequeue-WellFormed}
use odroid_player.Send.{Net}
use odroid_player.FdSet.{FdSet}
use odroid_player.Player.{Player, Timeval, set_player_running}
use odroid_player.Playback.{spawned}
use odroid_player.Playback.Frame.{Phase, running-IsSound}
use odroid_player.Playback.Machine as Machine
use odroid_player.Receive.{Input}
use odroid_player.Server.{accept_step, connect_new_client, client_slot}
use odroid_player.Stream.{Sent, stream_slot}
use odroid_player.Server.Slots.{HasText, AllText, client_slot-Keeps}
use odroid_player.Response.{World, respond}
use odroid_player.Response.Outcome.{respond_returns}
use odroid_player.Playback.Machine.{Step-IsSound}
use odroid_player.System.{
  Stage, idle, holding, executed, System, Step, overlap, accept, slot, take, execute, answer, serve,
  play, Reach, here, next,
}
use odroid_player.System.Shared.{shared, IsSteady}
use odroid_player.System.Steady.{enqueue-IsSteady, running-IsSteady}
use odroid_player.System.Frame.{IsLive, media, command_shares, disconnect-IsLive, same_media}
use odroid_player.System.Executing.{execute_command-IsLive, after_command-IsLive}
use odroid_player.System.Playing.{proceeds-IsSteady, NextSteady, reaped-Steady}

-- The node that the response thread has in hand has a text.
abbrev pub StageText : Stage → Type 0
StageText idle = Unit {0}
StageText (holding node) = HasText node
StageText (executed node e) = HasText node

pub record IsServer (files : List String) (s : System) : Type 0 where
  pub live : IsLive files s.phase s.player
  pub stage : StageText s.stage

-- What a node that is taken off a queue leaves.
abbrev TakenText : Dequeued Node → Type 0
TakenText (taken node q) = HasText node × AllText q.nodes
TakenText (stopped q) = Unit {0}
TakenText waiting = Unit {0}

wait_loop-TakenText : (xs : List Node) (q : Queue Node) → AllText xs → TakenText (wait_loop xs q [])
unfolding wait_loop
wait_loop-TakenText [] q h = tt
wait_loop-TakenText (x ∷ xs) q h = h

dequeue-TakenText : (q : Queue Node) → AllText q.nodes → TakenText (dequeue q [])
unfolding dequeue
dequeue-TakenText q h = wait_loop-TakenText q.nodes q h

module _ (files : List String) where
  take-IsLive :
      (phase : Phase) (player : Player) (node : Node) (q : Queue Node)
      → dequeue player.queue [] ≡ taken node q
      → IsLive files phase player
      → IsLive files phase (record player { queue = q }) × HasText node
  take-IsLive phase player node q e v =
      let (text, texts) = subst TakenText e (dequeue-TakenText player.queue v.steady.texts) in
      let sized = subst LeavesWellFormed e (dequeue-WellFormed player.queue [] v.steady.sized tt) in
      (
        same_media files phase player (record player { queue = q }) refl v
            (record { sized = sized; texts = texts; prev = v.steady.prev }),
        text,
      )

  running-IsLive :
      (phase : Phase) (player : Player)
      → IsLive files phase player
      → IsLive files phase (set_player_running player false).0
  running-IsLive phase player v = record {
    play = running-IsSound files phase player false v.play;
    steady = running-IsSteady player false v.steady;
  }

  play-IsSteady :
      (net : Net) {phase phase' : Phase} {player p : Player}
      → Machine.Step net phase player phase' p
      → IsSteady (shared player)
      → IsSteady (shared p)
  unfolding spawned
  play-IsSteady net (Machine.command player c now) v =
      subst IsSteady (sym (command_shares player c now)) v
  play-IsSteady net (Machine.stop_flag player) v = running-IsSteady player false v
  play-IsSteady net (Machine.spawn player p calls file pid now e f) v =
      proceeds-IsSteady net player p calls e v
  play-IsSteady net (Machine.retry player p calls e) v = proceeds-IsSteady net player p calls e v
  play-IsSteady net (Machine.quit player e) v = running-IsSteady player false v
  play-IsSteady net (Machine.no_file player p calls e f) v =
      running-IsSteady p false (proceeds-IsSteady net player p calls e v)
  play-IsSteady net (Machine.child_ends player p calls e) v =
      subst NextSteady e (reaped-Steady net player v)
  play-IsSteady net (Machine.play_ends player p calls e) v =
      running-IsSteady p false (subst NextSteady e (reaped-Steady net player v))

  media-accept :
      (net : Net) (fd : ℤ) (id : ℕ) (player : Player)
      → media (accept_step net fd id player).1 ≡ media player
  unfolding accept_step connect_new_client
  media-accept net fd id player = ground arith

  accept_shares :
      (net : Net) (fd : ℤ) (id : ℕ) (player : Player)
      → shared (accept_step net fd id player).1 ≡ shared player
  unfolding accept_step connect_new_client
  accept_shares net fd id player = ground arith

  accept-IsLive :
      (net : Net) (phase : Phase) (fd : ℤ) (id : ℕ) (player : Player)
      → IsLive files phase player
      → IsLive files phase (accept_step net fd id player).1
  accept-IsLive net phase fd id player v =
      same_media files phase player (accept_step net fd id player).1 (media-accept net fd id player)
        v (subst IsSteady (sym (accept_shares net fd id player)) v.steady)

  media-stream_slot :
      (sent : ℤ → Sent) (write_set : FdSet) (i : ℤ) (player : Player) (now : Timeval)
      → media (stream_slot sent write_set i player now).0 ≡ media player
  unfolding stream_slot
  media-stream_slot sent write_set i player now = ground arith

  stream_slot_shares :
      (sent : ℤ → Sent) (write_set : FdSet) (i : ℤ) (player : Player) (now : Timeval)
      → shared (stream_slot sent write_set i player now).0 ≡ shared player
  unfolding stream_slot
  stream_slot_shares sent write_set i player now = ground arith

  serve-IsLive :
      (phase : Phase) (sent : ℤ → Sent) (write_set : FdSet) (i : ℤ) (player : Player)
      (now : Timeval)
      → IsLive files phase player
      → IsLive files phase (stream_slot sent write_set i player now).0
  serve-IsLive phase sent write_set i player now v =
      same_media files phase player (stream_slot sent write_set i player now).0
        (media-stream_slot sent write_set i player now) v
        (subst IsSteady (sym (stream_slot_shares sent write_set i player now)) v.steady)

  slot-IsLive :
      (net : Net) (phase : Phase) (node_ok data_ok : Bool) (read_set : FdSet) (i : ℤ)
      (input : Input) (player p : Player) (calls : List Call)
      → client_slot net node_ok data_ok read_set i input player ≡ some (p, calls)
      → IsLive files phase player
      → IsLive files phase p
  slot-IsLive net phase =
      client_slot-Keeps (IsLive files phase)
        (λ player node t v.
          same_media files phase player (record player { queue = (enqueue player.queue node).1 })
            refl v (enqueue-IsSteady player node t v.steady))
        (λ n player v. disconnect-IsLive files phase (pos (suc n)) player v) net

  Step-IsServer :
      (net : Net) {s t : System}
      → 0 < length files
      → Step net s t
      → IsServer files s
      → IsServer files t
  Step-IsServer net some_file (overlap s pool serv_maxfd strm_maxfd serv_set strm_set) v = record {
    live = same_media files s.phase s.player _ refl v.live v.live.steady;
    stage = v.stage;
  }
  Step-IsServer net some_file (accept s fd) v = record {
    live = accept-IsLive net s.phase fd s.client_id s.player v.live;
    stage = v.stage;
  }
  Step-IsServer net some_file (slot s node_ok data_ok read_set i input p calls e) v = record {
    live = slot-IsLive net s.phase node_ok data_ok read_set i input s.player p calls e v.live;
    stage = v.stage;
  }
  Step-IsServer net some_file (take s node q free e) v =
      let (live, text) = take-IsLive s.phase s.player node q e v.live in
      record { live = live; stage = text }
  Step-IsServer net some_file (execute s world node e held runs) v = record {
    live = execute_command-IsLive files s.phase world node s.player e runs v.live;
    stage = subst StageText held v.stage;
  }
  Step-IsServer net some_file (answer s world node e text done first) v = record {
    live =
        after_command-IsLive files s.phase world node text (record e { player = s.player })
          (subst StageText done v.stage) v.live;
    stage = tt;
  }
  Step-IsServer net some_file (serve s sent write_set i now) v = record {
    live = serve-IsLive s.phase sent write_set i s.player now v.live;
    stage = v.stage;
  }
  Step-IsServer net some_file (play s phase p step) v = record {
    live = record {
      play = Step-IsSound net files some_file step v.live.play;
      steady = play-IsSteady net step v.live.steady;
    };
    stage = v.stage;
  }

  -- The server keeps its state in order under every interleaving of its threads. From a state in which
  -- the play thread has no child or knows it and has its cursor on a file, the queue has its size
  -- right, and its nodes and the response that is kept have a text, every state that is reached is of
  -- this kind, and the node that the response thread has in hand has a text.
  pub Reach-IsServer :
      (net : Net) (start : System) {s : System}
      → 0 < length files
      → IsServer files start
      → Reach net start s
      → IsServer files s
  Reach-IsServer net start some_file v here = v
  Reach-IsServer net start some_file v (next r step) =
      Step-IsServer net some_file step (Reach-IsServer net start some_file v r)

  -- In every state that the threads reach, the response thread can run the node that it has in hand,
  -- if its command is one of the protocol: neither the trace of the node nor the command reads through
  -- NULL, whatever the system answers.
  pub Reach-executes :
      (net : Net) (start : System) {s : System} (world : World) (node : Node)
      → 0 < length files
      → IsServer files start
      → Reach net start s
      → s.stage ≡ holding node
      → node.cmd ≢ cmd_count
      → (p : Player) × (calls : List Call) × (respond world node s.player ≡ some (p, calls))
  Reach-executes net start {s} world node some_file v r held ne =
      let w = Reach-IsServer net start some_file v r in
      let (text, n, has, size) = subst StageText held w.stage in
      let (cur, on) = w.live.play.1 in
      respond_returns world node s.player files cur text has ne on some_file w.live.steady.prev
