-- ===== src/Opc/Requests.antt =====
-- src/client/opc/opclient.c, from `opc_send_play` on: the requests that a program makes, and the
-- parts of the status that it reads.
pub mod Own
pub mod Returns
use odroid_player.Prelude.{
  ℕ, ◌+◌, ◌%◌, ltb, String, List, Option, none, some, Bool, true, false, ◌||◌, if◌then◌else◌,
}
use odroid_player.Sys.{Call}
use odroid_player.Message.{
  Status, CmdType, command, stream, Cmd, play, stop, pause, next, prev, time, uri, ack,
}
use odroid_player.Queue.{size_mod}
use odroid_player.Opc.{OpcQueue, OpClient, OpStatus}
use odroid_player.Opc.Sending.{SendWorld, ErrSend, send_success, send_command}
use odroid_player.Opc.Waiting.{
  Visit, Response, get_command_response, get_message_response, opc_set_timeout,
}

-- The system's answers during one request.
pub record RequestWorld : Type 0 where
  pub sending : SendWorld
  pub status_ok : Bool
  pub data_ok : Bool
  pub visits : List Visit

abbrev pub Requested : Type 0
Requested = Option (Option OpStatus × OpClient × List Call)

-- The wait for the response, under the alarm.
unfoldable pub after_wait : OpClient → List Call → Option Response → Requested
after_wait client calls none = none
after_wait client calls (some response) =
    let (status, queue) = opc_set_timeout response in
    some (status, record client { cmd_queue = queue }, calls)

unfoldable pub after_send :
    RequestWorld → OpClient → Option (Bool × ErrSend × List Call) → Requested
unfolding after_wait
after_send world client none = none
after_send world client (some (false, err, calls)) = some (none, client, calls)
after_send world client (some (true, err, calls)) =
    after_wait client calls (get_command_response world.status_ok world.data_ok world.visits client)

-- `client->msg_idx++`.
abbrev pub counted : OpClient → OpClient
counted client = record client { msg_idx = (client.msg_idx + 1) % size_mod }

-- The status, the client afterwards and the calls. The functions below differ in the type and the
-- command.
unfoldable pub request : CmdType → Cmd → RequestWorld → OpClient → Requested
unfolding after_send
request type cmd world client =
    after_send world (counted client)
      (send_command world.sending (counted client) type cmd send_success)

module _ (world : RequestWorld) (client : OpClient) where
  unfoldable pub opc_send_play : Requested
  unfolding request
  opc_send_play = request command play world client

  unfoldable pub opc_send_stop : Requested
  unfolding request
  opc_send_stop = request command stop world client

  unfoldable pub opc_send_pause : Requested
  unfolding request
  opc_send_pause = request command pause world client

  unfoldable pub opc_send_next : Requested
  unfolding request
  opc_send_next = request command next world client

  unfoldable pub opc_send_prev : Requested
  unfolding request
  opc_send_prev = request command prev world client

  unfoldable pub opc_send_ack : Requested
  unfolding request
  opc_send_ack = request command ack world client

  unfoldable pub opc_recv_time : Requested
  unfolding request
  opc_recv_time = request stream time world client

  unfoldable pub opc_recv_uri : Requested
  unfolding request
  opc_recv_uri = request command uri world client

unfoldable pub opc_recv_amsg : Bool → Bool → List OpcQueue → OpClient → Option Response
opc_recv_amsg status_ok data_ok wakes client = get_message_response status_ok data_ok wakes client

-- The texts that are freed; NULL has none.
unfoldable pub opc_free_status : Option OpStatus → Option (List (Option String))
opc_free_status none = none
opc_free_status (some status) = status.items

module _ (status : OpStatus) where
  unfoldable pub opc_status_get_status : Status
  opc_status_get_status = status.status

  unfoldable pub opc_status_get_type : CmdType
  opc_status_get_type = status.type

  unfoldable pub opc_status_get_cmd : Cmd
  opc_status_get_cmd = status.cmd

  unfoldable pub opc_status_get_msg_idx : ℕ
  opc_status_get_msg_idx = status.msg_idx

  unfoldable pub opc_status_get_n_data : ℕ
  opc_status_get_n_data = status.n_data

  unfoldable pub opc_status_get_data : Option (List (Option String))
  opc_status_get_data = status.items
