-- ===== src/Console/Loop.antt =====
-- What the command line client of src/client/main.c keeps, and how it ends.
use odroid_player.Prelude.{
  ℕ, ◌≡◌, ◌≢◌, refl, inl, inr, String, List, [], ◌∷◌, ◌++◌, Option, none, some, Bool, true, false,
  All, Bool-cases,
}
use odroid_player.Sys.{Call}
use odroid_player.Message.{
  Status, success, eserver, command, stream, Cmd, play, stop, pause, next, prev, time, uri, ack,
  cmd_count,
}
use odroid_player.Opc.{OpClient}
use odroid_player.Opc.Monitors.{get_monitor_play}
use odroid_player.Opc.Reception.Sound.{IsSound, set_monitor-IsSound}
use odroid_player.Opc.Requests.{
  RequestWorld, Requested, request, opc_send_play, opc_send_stop, opc_send_pause, opc_send_next,
  opc_send_prev, opc_send_ack, opc_recv_time, opc_recv_uri,
}
use odroid_player.Opc.Requests.Returns.{SoundVisit, Returns, request-Returns}
use odroid_player.Viewer.{ViewWorld, Viewed, viewing, viewed}
use odroid_player.Viewer.Texts.{CarefulView, Prints, my_print_stream-Prints}
use odroid_player.Console.{
  KeyPress, key_q, key_space, key_esc, key_a, key_n, key_b, key_t, key_u, other_char, no_key,
  Console, Pressed, fault, in_stream, pressed, has_texts, is_server_error, settle, show_status,
  after_view, show_stream, press_space, press, Moment, after_press, run_console,
}

abbrev PressSound : Pressed → Type 0
PressSound fault = Unit {0}
PressSound (in_stream c) = IsSound c.client
PressSound (pressed c calls) = IsSound c.client

settle-PressSound :
    (status : Status) (paused : Bool) (client : OpClient) (calls : List Call)
    → IsSound client
    → PressSound (settle status paused client calls)
unfolding settle
settle-PressSound status paused client calls v = elim (Bool-cases (is_server_error status)) [
  | inl bad ↦ simp bad (set_monitor-IsSound client false eserver v)
  | inr good ↦ simp good v
]

show_status-PressSound :
    (msg_idx : ℕ) (paused : Bool) (requested : Requested)
    → Returns msg_idx requested
    → PressSound (show_status paused requested)
unfolding show_status
show_status-PressSound msg_idx paused none h = tt
show_status-PressSound msg_idx paused (some (none, client, calls)) h = h.0
show_status-PressSound msg_idx paused (some (some status, client, calls)) h =
    elim (Bool-cases (has_texts 1 status.items)) [
      | inr short ↦ simp short tt
      | inl there ↦ simp there (settle-PressSound status.status paused client calls h.0)
    ]

after_view-PressSound :
    (status : Status) (paused : Bool) (calls closed : List Call) (all : List String) (v : Viewed)
    → Prints all closed v
    → PressSound (after_view status paused calls v)
unfolding after_view
after_view-PressSound status paused calls closed all (viewing texts client) h = h.0
after_view-PressSound status paused calls closed all (viewed done texts client made) h =
    settle-PressSound status paused client (calls ++ made) h.0

show_stream-PressSound :
    (view : ViewWorld) (msg_idx : ℕ) (paused : Bool) (requested : Requested)
    → All CarefulView view.turns
    → Returns msg_idx requested
    → PressSound (show_stream view paused requested)
unfolding show_stream
show_stream-PressSound view msg_idx paused none k h = tt
show_stream-PressSound view msg_idx paused (some (none, client, calls)) k h = h.0
show_stream-PressSound view msg_idx paused (some (some status, client, calls)) k h =
    elim (Bool-cases (has_texts 2 status.items)) [
      | inr short ↦ simp short tt
      | inl there ↦ simp there (
          after_view-PressSound status.status paused calls _ _ _
            (my_print_stream-Prints view client k h.0))
    ]

module _ (world : RequestWorld) (client : OpClient) where
  requested-PressSound :
      (cmd : Cmd) (paused : Bool)
      → cmd ≢ cmd_count
      → IsSound client
      → All SoundVisit world.visits
      → PressSound (show_status paused (request command cmd world client))
  requested-PressSound cmd paused ne v h =
      show_status-PressSound _ paused _ (request-Returns command cmd world client ne v h)

  space-PressSound :
      (paused : Bool)
      → IsSound client
      → All SoundVisit world.visits
      → PressSound (press_space world client paused)
  unfolding press_space opc_send_play opc_send_pause
  space-PressSound true v h = requested-PressSound play false (λ e. cc) v h
  space-PressSound false v h = requested-PressSound pause true (λ e. cc) v h

press-PressSound :
    (world : RequestWorld) (view : ViewWorld) (key : KeyPress) (c : Console)
    → All CarefulView view.turns
    → IsSound c.client
    → All SoundVisit world.visits
    → PressSound (press world view key c)
unfolding press opc_send_stop opc_send_next opc_send_prev opc_send_ack opc_recv_time opc_recv_uri
press-PressSound world view key_q c k v h = set_monitor-IsSound c.client false success v
press-PressSound world view key_space c k v h = space-PressSound world c.client c.paused v h
press-PressSound world view key_esc c k v h =
    requested-PressSound world c.client stop true (λ e. cc) v h
press-PressSound world view key_a c k v h =
    requested-PressSound world c.client ack c.paused (λ e. cc) v h
press-PressSound world view key_n c k v h =
    requested-PressSound world c.client next c.paused (λ e. cc) v h
press-PressSound world view key_b c k v h =
    requested-PressSound world c.client prev c.paused (λ e. cc) v h
press-PressSound world view key_t c k v h =
    show_stream-PressSound view _ c.paused _ k
      (request-Returns stream time world c.client (λ e. cc) v h)
press-PressSound world view key_u c k v h =
    requested-PressSound world c.client uri c.paused (λ e. cc) v h
press-PressSound world view other_char c k v h = v
press-PressSound world view no_key c k v h = v

-- The receiver keeps the client sound, and so is what reaches its queue.
abbrev pub CarefulMoment : Moment → Type 0
CarefulMoment m =
    ((c : OpClient) → IsSound c → IsSound (m.changes c))
    × All SoundVisit m.world.visits
    × All CarefulView m.view.turns

-- The console is sound, and at the end of the loop its monitor is off.
abbrev pub ConsoleEnds : Option (Bool × Console) → Type 0
ConsoleEnds none = Unit {0}
ConsoleEnds (some (true, c)) = IsSound c.client × (get_monitor_play c.client.monitor ≡ false)
ConsoleEnds (some (false, c)) = IsSound c.client

after_press-ConsoleEnds :
    (later : Console → Option (Bool × Console)) (pressed : Pressed)
    → PressSound pressed
    → ((c : Console) → IsSound c.client → ConsoleEnds (later c))
    → ConsoleEnds (after_press later pressed)
unfolding after_press
after_press-ConsoleEnds later fault h k = tt
after_press-ConsoleEnds later (in_stream c) h k = h
after_press-ConsoleEnds later (pressed c calls) h k = k c h

-- Whatever keys are pressed, whatever the server and the system answer, and whatever the receiver
-- does meanwhile that keeps the client sound: unless it reads past the texts of a status, the command
-- line client keeps the client sound, and its loop ends only with the monitor off.
pub run_console-ConsoleEnds :
    (ms : List Moment) (c : Console)
    → All CarefulMoment ms
    → IsSound c.client
    → ConsoleEnds (run_console ms c)
unfolding run_console
run_console-ConsoleEnds [] c h v = v
run_console-ConsoleEnds (m ∷ ms) c h v =
    let seen : Console = record c { client = m.changes c.client } in
    let fine = h.0.0 c.client v in
    elim (Bool-cases (get_monitor_play (seen.client).monitor)) [
      | inr off ↦ simp off (fine, refl)
      | inl on ↦ simp on (
          after_press-ConsoleEnds (λ d. run_console ms d) (press m.world m.view m.key seen)
            (press-PressSound m.world m.view m.key seen h.0.2 fine h.0.1)
            (λ d w. run_console-ConsoleEnds ms d h.1 w))
    ]
