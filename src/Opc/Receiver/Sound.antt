-- ===== src/Opc/Receiver/Sound.antt =====
-- What the receiver of src/client/opc/receive/receive.c keeps of the client, whatever the server
-- sends.
use odroid_player.Prelude.{String, List, [], ◌∷◌, length, Option, none, some, Bool, false}
use odroid_player.Sys.{Call}
use odroid_player.Message.{
  Status, success, invalid, toomany, timeout, eserver, eclient, reconnt, brdinfo, CmdType, command,
  stream, notify, brdcast, Message,
}
use odroid_player.Server.{message_items}
use odroid_player.Opc.{OpcQueue, OpClient}
use odroid_player.Opc.Reception.{RecvWorld, gone, idle, received, Kept, Got}
use odroid_player.Opc.Reception.Sound.{
  IsSound, NodeFilled, create_node-Filled, items_read, EnqueueSound, enqueue-QueueSound, KeepsSound,
  KeepsSoundWith, set_monitor-IsSound, receive_message-KeepsSound,
}
use odroid_player.Opc.Receiver.{
  opc_node, put_answer, put_notice, queue_answer, queue_notice, warn_server_error, handle_status,
  handle_notice, handle_typed, handle_message, handled, after_receive, receive_turn,
}

opc_node-Filled :
    (world : RecvWorld) (client : OpClient) (msg : Message) → NodeFilled (opc_node world client msg)
opc_node-Filled world client msg =
    create_node-Filled world.node_ok world.data_ok client.client_fd msg.status msg.type msg.cmd
      msg.idx (length msg.items) (message_items msg.items) (items_read msg.items)

put_answer-KeepsSound :
    (client : OpClient) (put : Option (Bool × OpcQueue))
    → IsSound client
    → EnqueueSound put
    → KeepsSound (put_answer client put)
unfolding put_answer EnqueueSound
put_answer-KeepsSound client none v h = tt
put_answer-KeepsSound client (some (done, q)) v h = record {
  watched = v.watched;
  msg_sound = v.msg_sound;
  cmd_sound = h;
}

put_notice-KeepsSound :
    (client : OpClient) (put : Option (Bool × OpcQueue))
    → IsSound client
    → EnqueueSound put
    → KeepsSound (put_notice client put)
unfolding put_notice EnqueueSound
put_notice-KeepsSound client none v h = tt
put_notice-KeepsSound client (some (done, q)) v h = record {
  watched = v.watched;
  msg_sound = h;
  cmd_sound = v.cmd_sound;
}

queue_notice-KeepsSound :
    (world : RecvWorld) (client : OpClient) (msg : Message)
    → IsSound client
    → KeepsSound (queue_notice world client msg)
unfolding queue_notice
queue_notice-KeepsSound world client msg v =
    put_notice-KeepsSound client _ v
      (enqueue-QueueSound client.msg_queue _ v.msg_sound (opc_node-Filled world client msg))

warn_server_error-KeepsSound :
    (world : RecvWorld) (client : OpClient) (msg : Message) (texts : List String)
    → IsSound client
    → KeepsSound (warn_server_error world client msg texts)
unfolding warn_server_error
warn_server_error-KeepsSound world client msg [] v = tt
warn_server_error-KeepsSound world client msg (x ∷ xs) v =
    queue_notice-KeepsSound world client msg v

handle_status-KeepsSound :
    (world : RecvWorld) (client : OpClient) (msg : Message) (status : Status)
    → IsSound client
    → KeepsSound (handle_status world client msg status)
unfolding handle_status
handle_status-KeepsSound world client msg toomany v = set_monitor-IsSound client false toomany v
handle_status-KeepsSound world client msg eserver v =
    warn_server_error-KeepsSound world client msg msg.items v
handle_status-KeepsSound world client msg success v = queue_notice-KeepsSound world client msg v
handle_status-KeepsSound world client msg invalid v = queue_notice-KeepsSound world client msg v
handle_status-KeepsSound world client msg timeout v = queue_notice-KeepsSound world client msg v
handle_status-KeepsSound world client msg eclient v = queue_notice-KeepsSound world client msg v
handle_status-KeepsSound world client msg reconnt v = queue_notice-KeepsSound world client msg v
handle_status-KeepsSound world client msg brdinfo v = queue_notice-KeepsSound world client msg v

handle_typed-KeepsSound :
    (world : RecvWorld) (client : OpClient) (msg : Message) (type : CmdType)
    → IsSound client
    → KeepsSound (handle_typed world client msg type)
unfolding handle_typed queue_answer handle_notice
handle_typed-KeepsSound world client msg command v =
    put_answer-KeepsSound client _ v
      (enqueue-QueueSound client.cmd_queue _ v.cmd_sound (opc_node-Filled world client msg))
handle_typed-KeepsSound world client msg stream v =
    put_answer-KeepsSound client _ v
      (enqueue-QueueSound client.cmd_queue _ v.cmd_sound (opc_node-Filled world client msg))
handle_typed-KeepsSound world client msg notify v =
    handle_status-KeepsSound world client msg msg.status v
handle_typed-KeepsSound world client msg brdcast v =
    handle_status-KeepsSound world client msg msg.status v

handled-KeepsSound :
    (calls : List Call) (kept : Kept) → KeepsSound kept → KeepsSoundWith (handled calls kept)
unfolding handled
handled-KeepsSound calls none h = tt
handled-KeepsSound calls (some (c, more)) h = h

after_receive-KeepsSound :
    (world : RecvWorld) (got : Got) → KeepsSoundWith got → KeepsSoundWith (after_receive world got)
unfolding after_receive handle_message
after_receive-KeepsSound world none h = tt
after_receive-KeepsSound world (some (gone, c, calls)) h = h
after_receive-KeepsSound world (some (idle, c, calls)) h = h
after_receive-KeepsSound world (some (received msg, c, calls)) h =
    handled-KeepsSound calls _ (handle_typed-KeepsSound world c msg msg.type h)

-- Whatever the server sends, whether it closes the connection, and whether memory is there: unless
-- the turn is a fault, a turn of the receiver leaves a client with its monitor, and with two queues
-- whose sizes are right and whose nodes can be read in full.
pub receive_turn-KeepsSound :
    (world : RecvWorld) (client : OpClient)
    → IsSound client
    → KeepsSoundWith (receive_turn world client)
unfolding receive_turn
receive_turn-KeepsSound world client v =
    after_receive-KeepsSound world _ (receive_message-KeepsSound world client v)
