-- ===== src/System/Executing.antt =====
-- What an execution and the answering in src/server/response/response.c keep of a player: the part that
-- the threads share, and what the play thread goes by.
use odroid_player.Prelude.{
  ℕ, zero, suc, ◌≡◌, refl, subst, inl, inr, ℤ, pos, leb_ℤ, String, List, [], Option, none, some,
  true, Bool-cases, ◌||◌, if◌then◌else◌,
}
use odroid_player.Message.{Status, Node, CmdType, command, stream, notify, brdcast, Cmd}
use odroid_player.Pool.{
  get_stream_time, get_client_stream_fd, check_stream_is_set, get_server_stream_path,
  get_client_stream_path, is_null,
}
use odroid_player.Pool.Change.{SocketApi, create_client_stream, set_client_stream_func}
use odroid_player.Player.{Player}
use odroid_player.Playback.Frame.{Phase}
use odroid_player.Server.Slots.{HasText}
use odroid_player.Send.{send_response}
use odroid_player.Stream.{set_new_stream, trigger_stream, is_time}
use odroid_player.Response.{
  World, Executed, execute_stream, execute_typed, execute_command, resend, after_command,
  answer_executed, resend_count,
}
use odroid_player.System.Answering.{Runs, run_handler-Runs}
use odroid_player.System.Frame.{IsLive, command-IsLive, same_media, disconnect-IsLive, save-IsLive}

module _ (files : List String) (phase : Phase) where
  -- The attempts to answer, however each of them ends.
  resend-IsLive :
      (world : World) (node : Node) (status : Status) (items : List (Option String))
      (left count : ℕ) (player : Player)
      → HasText node
      → IsLive files phase player
      → IsLive files phase (resend world node status items left count player).0
  unfolding resend
  resend-IsLive world node status items zero count player t v = v
  resend-IsLive world node status items (suc left) count player t v =
      let sent = send_response world.net (world.attempts count) node status items in
      elim (Bool-cases sent.done) [
        | inl done ↦
            rw done (save-IsLive files phase world.saved_ok world.saved_items_ok node player t v)
        | inr undone ↦ elim (Bool-cases sent.timed_out) [
          | inl late ↦
              rw (undone, late) (resend-IsLive world node status items left (suc count) player t v)
          | inr failed ↦ rw (undone, failed) (disconnect-IsLive files phase node.client_fd player v)
        ]
      ]

  answered-IsLive :
      (world : World) (node : Node) (text : Option String) (e : Executed)
      (items : Option (List (Option String)))
      → HasText node
      → IsLive files phase e.player
      → IsLive files phase (answer_executed world node text e items).0
  unfolding answer_executed
  answered-IsLive world node text e none t v = v
  answered-IsLive world node text e (some items) t v =
      resend-IsLive world node e.status items resend_count 0 e.player t v

  pub after_command-IsLive :
      (world : World) (node : Node) (text : Option String) (e : Executed)
      → HasText node
      → IsLive files phase e.player
      → IsLive files phase (after_command world node text e).0
  unfolding after_command
  after_command-IsLive world node text e t v = answered-IsLive world node text e e.items t v

  new_stream-IsLive :
      (api : SocketApi) (fd : ℤ) (player : Player)
      → IsLive files phase player
      → IsLive files phase (set_new_stream api fd player).1
  unfolding set_new_stream
  new_stream-IsLive api fd player v =
      let made = create_client_stream api fd player.client_pool in
      let p : Player = record player { client_pool = made.1 } in
      let stream_fd = get_client_stream_fd fd made.1 in
      let plain = same_media files phase player p refl v v.steady in
      elim (Bool-cases made.0) [
        | inr failed ↦ rw failed plain
        | inl done ↦ elim (Bool-cases (leb_ℤ stream_fd (pos 0))) [
          | inl none_there ↦ rw (done, none_there) plain
          | inr there ↦ rw (done, there) (same_media files phase player _ refl v v.steady)
        ]
      ]

  func-IsLive :
      (fd : ℤ) (player : Player)
      → IsLive files phase player
      → IsLive files phase (record player {
        client_pool = (set_client_stream_func fd (some get_stream_time) player.client_pool).1;
      })
  func-IsLive fd player v = same_media files phase player _ refl v v.steady

  trigger-IsLive :
      (killed fd : ℤ) (player : Player) (cmd : Cmd)
      → IsLive files phase player
      → IsLive files phase (trigger_stream killed fd player cmd).1
  unfolding trigger_stream
  trigger-IsLive killed fd player cmd v = elim (Bool-cases (is_time cmd)) [
    | inl timed ↦ rw timed (func-IsLive fd player v)
    | inr other ↦ rw other v
  ]

  stream_ready-IsLive :
      (api : SocketApi) (fd : ℤ) (player : Player)
      → IsLive files phase player
      → IsLive files phase
          (if check_stream_is_set fd player.client_pool
            then (true, player, [])
            else set_new_stream api fd player).1
  stream_ready-IsLive api fd player v =
      elim (Bool-cases (check_stream_is_set fd player.client_pool)) [
        | inl ready ↦ rw ready v
        | inr bare ↦ rw bare (new_stream-IsLive api fd player v)
      ]

  execute_stream-IsLive :
      (world : World) (node : Node) (player : Player)
      → IsLive files phase player
      → IsLive files phase (execute_stream world node player).player
  unfolding execute_stream
  execute_stream-IsLive world node player v =
      let ready = stream_ready-IsLive world.api node.client_fd player v in
      let p =
        (if check_stream_is_set node.client_fd player.client_pool
          then (true, player, [])
          else set_new_stream world.api node.client_fd player).1 in
      let woken = trigger-IsLive world.killed node.client_fd p node.cmd ready in
      elim (Bool-cases world.items_ok) [
        | inr no_memory ↦ rw no_memory ready
        | inl ok ↦
            elim (Bool-cases (
              is_null (get_server_stream_path node.client_fd p.client_pool)
              || is_null (get_client_stream_path node.client_fd p.client_pool))) [
                | inl missing ↦ rw (ok, missing) ready
                | inr there ↦ rw (ok, there) woken
              ]
      ]

  typed-IsLive :
      (world : World) (type : CmdType) (node : Node) (player : Player)
      → IsLive files phase player
      → Runs
          (IsLive files phase)
          (command-IsLive files phase)
          (execute_typed world type node player)
  unfolding execute_typed
  typed-IsLive world command node player v = elim (Bool-cases world.items_ok) [
    | inr no_memory ↦ rw no_memory v
    | inl ok ↦
        rw ok (
          run_handler-Runs (IsLive files phase) (command-IsLive files phase) world node.cmd player
            v)
  ]
  typed-IsLive world stream node player v = execute_stream-IsLive world node player v
  typed-IsLive world notify node player v = v
  typed-IsLive world brdcast node player v = v

  pub execute_command-IsLive :
      (world : World) (node : Node) (player : Player) (e : Executed)
      → execute_command world node player ≡ some e
      → IsLive files phase player
      → IsLive files phase e.player
  unfolding execute_command
  execute_command-IsLive world node player e runs v =
      subst (Runs (IsLive files phase) (command-IsLive files phase)) runs
        (typed-IsLive world node.type node player v)
