-- ===== src/Message.antt =====
-- src/message/message.proto, and the node type of src/server/utils/queue.h with its constructor function.
-- A `char*` is `Option String`, where `none` is NULL; `malloc` answers with a Boolean.
use odroid_player.Prelude.{
  ℕ, zero, suc, ℤ, String, List, [], ◌∷◌, Option, none, some, Bool, if◌then◌else◌,
}

pub data Status : Type 0 where
  success invalid toomany timeout eserver eclient reconnt brdinfo : Status

pub data CmdType : Type 0 where
  command stream notify brdcast : CmdType

pub data Cmd : Type 0 where
  nothing play stop pause next prev quit seek time uri ack cmd_count : Cmd

-- `AMessage`; protobuf has no NULL among the texts.
pub record Message : Type 0 where
  pub status : Status
  pub type : CmdType
  pub cmd : Cmd
  pub idx : ℤ
  pub items : List String

-- A notice that the server sends unasked: text, index, status, type and command.
pub record Notice : Type 0 where
  pub text : String
  pub msg_idx : ℤ
  pub status : Status
  pub type : CmdType
  pub cmd : Cmd

-- The answer to a client: the texts, and the parts of the command that it repeats.
pub record Answer : Type 0 where
  pub items : List (Option String)
  pub msg_idx : ℤ
  pub status : Status
  pub type : CmdType
  pub cmd : Cmd

pub record Node : Type 0 where
  pub client_id : ℤ
  pub client_fd : ℤ
  pub msg_idx : ℤ
  pub status : Status
  pub type : CmdType
  pub cmd : Cmd
  pub n_data : ℕ
  pub items : Option (List (Option String))

-- The loop that copies `data[i]` for i below `n_data`; `strdup` copies the text. Callers pass an
-- array of `n_data` entries, and an entry past its end is read as NULL.
unfoldable pub copy_data : ℕ → List (Option String) → List (Option String)
copy_data zero xs = []
copy_data (suc n) [] = none ∷ copy_data n []
copy_data (suc n) (x ∷ xs) = x ∷ copy_data n xs

-- `node_ok` and `data_ok` are the answers of the two `malloc` calls.
unfoldable pub create_node :
    (node_ok data_ok : Bool) (client_id client_fd msg_idx : ℤ)
    → Status
    → CmdType
    → Cmd
    → ℕ
    → Option (List (Option String))
    → Option Node
create_node node_ok data_ok client_id client_fd msg_idx status type cmd n_data items =
    if node_ok
    then (elim items [
      | none ↦ some bare
      | some xs ↦
          if data_ok then some (record bare { items = some (copy_data n_data xs) }) else none
    ])
    else none
  where
    bare : Node
    bare = record {
      client_id = client_id;
      client_fd = client_fd;
      msg_idx = msg_idx;
      status = status;
      type = type;
      cmd = cmd;
      n_data = n_data;
      items = none;
    }
