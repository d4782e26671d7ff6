-- ===== src/Console.antt =====
-- src/client/main.c: the command line client, a key at a time. What is printed is left out; without
-- a result it reads past the texts of a status. Its child Program is `main` as a whole.
pub mod Closing
pub mod Loop
pub mod Program
use odroid_player.Prelude.{
  ℕ, List, [], ◌∷◌, ◌++◌, String, Option, none, some, Bool, true, false, if◌then◌else◌,
}
use odroid_player.Sys.{Call}
use odroid_player.Message.{
  Status, success, invalid, toomany, timeout, eserver, eclient, reconnt, brdinfo, CmdType, command,
  stream, Cmd, play, stop, pause, next, prev, time, uri, ack,
}
use odroid_player.Opc.{OpClient, OpStatus}
use odroid_player.Opc.Monitors.{get_monitor_play, set_monitor}
use odroid_player.Viewer.{ViewWorld, Viewed, viewing, viewed, my_print_stream}
use odroid_player.Opc.Requests.{
  RequestWorld, Requested, opc_send_play, opc_send_stop, opc_send_pause, opc_send_next,
  opc_send_prev, opc_send_ack, opc_recv_time, opc_recv_uri,
}

-- The characters that `main` tells apart: q, space, ESC, a, n, b, t, u; `no_key` where `read` fails.
pub data KeyPress : Type 0 where
  key_q key_space key_esc key_a key_n key_b key_t key_u other_char no_key : KeyPress

pub record Console : Type 0 where
  pub client : OpClient
  pub paused : Bool

-- What a key comes to: a read past an array, a stream that is still printed, or the next turn.
pub data Pressed : Type 0 where
  fault : Pressed
  in_stream : Console → Pressed
  pressed : Console → List Call → Pressed

-- Whether the first texts that are printed are there.
abbrev pub has_texts : ℕ → Option (List (Option String)) → Bool
has_texts ℕ.zero items = true
has_texts (ℕ.suc n) none = false
has_texts (ℕ.suc n) (some []) = false
has_texts (ℕ.suc n) (some (x ∷ xs)) = has_texts n (some xs)

abbrev pub is_server_error : Status → Bool
is_server_error eserver = true
is_server_error _ = false

-- After a status is printed: a server error stops the client.
unfoldable pub settle : Status → Bool → OpClient → List Call → Pressed
settle status paused client calls =
    let (stopped, told) = set_monitor client false eserver in
    if is_server_error status
    then pressed (record { client = stopped; paused = paused }) (calls ++ told)
    else pressed (record { client = client; paused = paused }) calls

-- What follows a request of a command: NULL goes to the next key, and else one text is printed.
unfoldable pub show_status : Bool → Requested → Pressed
unfolding settle
show_status paused none = fault
show_status paused (some (none, client, calls)) =
    pressed (record { client = client; paused = paused }) calls
show_status paused (some (some status, client, calls)) =
    let settled = settle status.status paused client calls in
    if has_texts 1 status.items then settled else fault

unfoldable pub after_view : Status → Bool → List Call → Viewed → Pressed
unfolding settle
after_view status paused calls (viewing texts client) =
    in_stream (record { client = client; paused = paused })
after_view status paused calls (viewed done texts client closed) =
    settle status paused client (calls ++ closed)

-- What follows the request of a stream: two texts, the paths, are printed, and then the stream.
unfoldable pub show_stream : ViewWorld → Bool → Requested → Pressed
unfolding after_view
show_stream view paused none = fault
show_stream view paused (some (none, client, calls)) =
    pressed (record { client = client; paused = paused }) calls
show_stream view paused (some (some status, client, calls)) =
    let shown = after_view status.status paused calls (my_print_stream view client) in
    if has_texts 2 status.items then shown else fault

unfoldable pub press_space : RequestWorld → OpClient → Bool → Pressed
unfolding show_status
press_space world client true = show_status false (opc_send_play world client)
press_space world client false = show_status true (opc_send_pause world client)

-- The `switch` on the character.
unfoldable pub press : RequestWorld → ViewWorld → KeyPress → Console → Pressed
unfolding press_space show_stream
press world view key_q c =
    let (stopped, told) = set_monitor c.client false success in
    pressed (record c { client = stopped }) told
press world view key_space c = press_space world c.client c.paused
press world view key_esc c = show_status true (opc_send_stop world c.client)
press world view key_a c = show_status c.paused (opc_send_ack world c.client)
press world view key_n c = show_status c.paused (opc_send_next world c.client)
press world view key_b c = show_status c.paused (opc_send_prev world c.client)
press world view key_t c = show_stream view c.paused (opc_recv_time world c.client)
press world view key_u c = show_status c.paused (opc_recv_uri world c.client)
press world view other_char c = pressed c []
press world view no_key c = pressed c []

-- A key with the system's answers to its request and to the stream after it, and what the receiver
-- has done before it.
pub record Moment : Type 0 where
  pub changes : OpClient → OpClient
  pub world : RequestWorld
  pub view : ViewWorld
  pub key : KeyPress

unfoldable pub after_press : (Console → Option (Bool × Console)) → Pressed → Option (Bool × Console)
after_press later fault = none
after_press later (in_stream c) = some (false, c)
after_press later (pressed c calls) = later c

-- Whether the loop has ended, and the console; none where it reads past an array.
unfoldable pub run_console : List Moment → Console → Option (Bool × Console)
unfolding press after_press
run_console [] c = some (false, c)
run_console (m ∷ ms) c =
    let seen : Console = record c { client = m.changes c.client } in
    let rest = after_press (λ d. run_console ms d) (press m.world m.view m.key seen) in
    if get_monitor_play (seen.client).monitor then rest else some (true, seen)
