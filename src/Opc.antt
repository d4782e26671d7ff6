-- ===== src/Opc.antt =====
-- src/client/opc: the library that client programs talk to the server with. This file holds what it
-- keeps: the client, with its monitor and its two queues, and the status that a request returns.
pub mod Queues
pub mod Monitors
pub mod Sending
pub mod Waiting
pub mod Connection
pub mod Reception
pub mod Receiver
pub mod Requests
use odroid_player.Prelude.{ℕ, ℤ, String, List, Option, Bool}
use odroid_player.Message.{Status, CmdType, Cmd}
use odroid_player.Queue.{Queue}

pub record OpcNode : Type 0 where
  pub client_fd : ℤ
  pub status : Status
  pub type : CmdType
  pub cmd : Cmd
  pub msg_idx : ℤ
  pub n_data : ℕ
  pub items : Option (List (Option String))

abbrev pub OpcQueue : Type 0
OpcQueue = Queue OpcNode

pub record Monitor : Type 0 where
  pub play : Bool
  pub status : Status

-- The two queues and the monitor are NULL until the client is prepared.
pub record OpClient : Type 0 where
  pub client_fd : ℤ
  pub msg_idx : ℕ
  pub monitor : Option Monitor
  pub msg_queue : Option OpcQueue
  pub cmd_queue : Option OpcQueue
  pub recv_thread_id : ℕ

pub record OpStatus : Type 0 where
  pub status : Status
  pub type : CmdType
  pub cmd : Cmd
  pub msg_idx : ℕ
  pub n_data : ℕ
  pub items : Option (List (Option String))

abbrev pub max_connect_wait : ℕ
max_connect_wait = 30
