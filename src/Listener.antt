-- ===== src/Listener.antt =====
-- src/client/utils.c: `my_async_receiver`, the thread of the command line client that prints what
-- comes besides the answers, and `set_my_async_receiver`, which starts it.
pub mod Order
use odroid_player.Prelude.{
  ℕ, List, [], ◌∷◌, ◌++◌, String, Option, none, some, Bool, true, false, if◌then◌else◌,
}
use odroid_player.Sys.{Call, pthread_create, pthread_detach}
use odroid_player.Message.{
  Status, success, invalid, toomany, timeout, eserver, eclient, reconnt, brdinfo, CmdType, command,
  stream, notify, brdcast,
}
use odroid_player.Opc.{OpcQueue, OpClient, OpStatus}
use odroid_player.Opc.Monitors.{get_monitor_play}
use odroid_player.Opc.Waiting.{Response, answered, no_answer, unfinished, get_message_response}

-- What is printed; a text is NULL where it could not be copied.
pub data Line : Type 0 where
  server_error : Option String → Line
  request_timeout server_reconnected : Line
  broadcast : Option String → Line

-- A line with `data[0]`: none where there is no such entry to read.
abbrev pub with_text : (Option String → Line) → Option (List (Option String)) → Option (List Line)
with_text line (some (x ∷ xs)) = some (line x ∷ [])
with_text line (some []) = none
with_text line none = none

unfoldable pub print_notice : Status → Option (List (Option String)) → Option (List Line)
print_notice eserver items = with_text server_error items
print_notice timeout items = some (request_timeout ∷ [])
print_notice reconnt items = some (server_reconnected ∷ [])
print_notice _ items = some []

unfoldable pub print_status : CmdType → Status → Option (List (Option String)) → Option (List Line)
unfolding print_notice
print_status notify status items = print_notice status items
print_status brdcast status items = with_text broadcast items
print_status _ status items = some []

-- One turn: what the other threads do to the client before it, and the system's answers in it.
pub record Round : Type 0 where
  pub changes : OpClient → OpClient
  pub status_ok : Bool
  pub data_ok : Bool
  pub wakes : List OpcQueue

-- Whether the thread has ended, what it has printed, and the client.
abbrev pub Listened : Type 0
Listened = Option (Bool × List Line × OpClient)

unfoldable pub after_lines : List Line → Listened → Listened
after_lines lines none = none
after_lines lines (some (ended, more, client)) = some (ended, lines ++ more, client)

unfoldable pub printed : Option (List Line) → Listened → Listened
unfolding after_lines
printed none rest = none
printed (some lines) rest = after_lines lines rest

unfoldable pub after_message : OpClient → (OpClient → Listened) → Option Response → Listened
unfolding print_status printed
after_message client next none = none
after_message client next (some (answered status q)) =
    let rest = next (record client { msg_queue = q }) in
    printed (print_status status.type status.status status.items) rest
after_message client next (some (no_answer q)) = some (true, [], record client { msg_queue = q })
after_message client next (some (unfinished q)) = some (false, [], record client { msg_queue = q })

unfoldable pub my_async_receiver : List Round → OpClient → Listened
unfolding after_message
my_async_receiver [] client = some (false, [], client)
my_async_receiver (t ∷ turns) client =
    let found = t.changes client in
    let rest =
      after_message found (λ c. my_async_receiver turns c)
        (get_message_response t.status_ok t.data_ok t.wakes found) in
    if get_monitor_play found.monitor then rest else some (true, [], found)

-- The thread that `pthread_create` makes, none where it fails; nothing comes of a failure.
unfoldable pub set_my_async_receiver : Option ℕ → List Call
set_my_async_receiver none = []
set_my_async_receiver (some id) = pthread_create id ∷ pthread_detach id ∷ []
