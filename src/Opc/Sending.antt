-- ===== src/Opc/Sending.antt =====
-- src/client/opc/send/send.c and src/client/opc/opc_cmd.c: one request, its length first. Packing is
-- generated code, so the message that is packed stands in the list of calls.
use odroid_player.Prelude.{
  ℤ, int_of_size, String, List, [], ◌∷◌, ◌++◌, Option, none, some, Bool, true, false, not,
  if◌then◌else◌,
}
use odroid_player.Sys.{Call, send_length, send_request}
use odroid_player.Message.{
  success, CmdType, Cmd, nothing, play, stop, pause, next, prev, quit, seek, time, uri, ack,
  cmd_count, Message,
}
use odroid_player.Opc.{OpClient}

pub data ErrSend : Type 0 where
  send_success err_send_timeout err_send_closed err_send_internal : ErrSend

-- The answer of one `send`: it went, EAGAIN, EPIPE, or another error.
pub data SendAnswer : Type 0 where
  went again broken_pipe other_error : SendAnswer

-- The answers of the two `malloc` and of the two `send` calls.
pub record SendWorld : Type 0 where
  pub data_ok : Bool
  pub buf_ok : Bool
  pub length_answer : SendAnswer
  pub data_answer : SendAnswer

-- The names of the commands; the array has no entry for CMD_COUNT.
unfoldable pub init_cmd_array : Cmd → Option String
init_cmd_array nothing = some "none"
init_cmd_array play = some "play"
init_cmd_array stop = some "stop"
init_cmd_array pause = some "pause"
init_cmd_array next = some "next"
init_cmd_array prev = some "prev"
init_cmd_array quit = some "quit"
init_cmd_array seek = some "seek"
init_cmd_array time = some "time"
init_cmd_array uri = some "uri"
init_cmd_array ack = some "ack"
init_cmd_array cmd_count = none

-- The read past the array for CMD_COUNT is a fault, `none`.
unfoldable pub command_to_string : Cmd → Option String
unfolding init_cmd_array
command_to_string cmd = init_cmd_array cmd

-- The message that is packed, or no memory for it. `status` keeps the default of the protocol.
unfoldable pub prepare_send_message : SendWorld → CmdType → Cmd → ℤ → Option (Option Message)
unfolding command_to_string
prepare_send_message world type cmd idx =
    if not world.data_ok then some none else (elim (command_to_string cmd) [
      | none ↦ none
      | some text ↦ some (
          if world.buf_ok
          then some
              (record { status = success; type = type; cmd = cmd; idx = idx; items = text ∷ [] })
          else none)
    ])

-- `send_message_length` and `send_message_data` differ in what they send.
unfoldable pub send_message_part : Call → SendAnswer → ErrSend → Bool × ErrSend × List Call
send_message_part call went err = (true, err, call ∷ [])
send_message_part call again err = (false, err_send_timeout, call ∷ [])
send_message_part call broken_pipe err = (false, err_send_closed, call ∷ [])
send_message_part call other_error err = (false, err_send_internal, call ∷ [])

unfoldable pub send_message : SendWorld → ℤ → Option Message → ErrSend → Bool × ErrSend × List Call
unfolding send_message_part
send_message world fd none err = (false, err, [])
send_message world fd (some msg) err =
    let (sized, e, first) = send_message_part (send_length fd) world.length_answer err in
    let (sent, f, second) = send_message_part (send_request fd msg) world.data_answer e in
    if sized then (sent, f, first ++ second) else (false, e, first)

-- The index is the counter of the client, as an `int`. `err` keeps what the caller left in it unless
-- a `send` fails.
unfoldable pub send_command :
    SendWorld → OpClient → CmdType → Cmd → ErrSend → Option (Bool × ErrSend × List Call)
unfolding send_message prepare_send_message
send_command world client type cmd err =
    elim (prepare_send_message world type cmd (int_of_size client.msg_idx)) [
      | none ↦ none
      | some made ↦ some (send_message world client.client_fd made err)
    ]
