-- ===== src/Send.antt =====
-- src/server/send/send.c: notices to one client and to all of them. Packing is `protobuf-c`'s, so a
-- message that is sent stands in the list of calls as the notice that was packed.
use odroid_player.Prelude.{
  ℤ, pos, minus_one, ltb_ℤ, String, List, [], ◌∷◌, ◌++◌, Option, none, some, Bool, true, false, not,
  if◌then◌else◌,
}
use odroid_player.Sys.{Call, send_length, send_packed, send_answer}
use odroid_player.Message.{
  Answer, Node, Notice, Status, timeout, eserver, CmdType, brdcast, notify, Cmd, nothing,
}
use odroid_player.Pool.{Client, ClientPool, get_client_cnt, get_client_arr}

-- The answers of `malloc` and of `send` at each descriptor.
pub record Net : Type 0 where
  pub arr_ok : Bool
  pub data_ok : Bool
  pub buf_ok : Bool
  pub length_sent : ℤ → ℤ
  pub packed_sent : ℤ → ℤ

unfoldable pub send_notify_message :
    Net → ℤ → Option String → ℤ → Status → CmdType → Cmd → Bool × List Call
send_notify_message net client_fd none msg_idx status type cmd = (true, [])
send_notify_message net client_fd (some msg) msg_idx status type cmd =
    if not net.data_ok
    then (false, [])
    else if not net.buf_ok
    then (false, [])
    else if ltb_ℤ (net.length_sent client_fd) (pos 0)
    then (false, send_length client_fd ∷ [])
    else (
      not (ltb_ℤ (net.packed_sent client_fd) (pos 0)),
      send_length client_fd ∷ send_packed client_fd notice ∷ [],
    )
  where
    notice : Notice
    notice = record { text = msg; msg_idx = msg_idx; status = status; type = type; cmd = cmd }

-- The loop over the copy of the clients, which stops at the first failure.
unfoldable pub broadcast_to : Net → String → ℤ → Status → Cmd → List Client → Bool × List Call
broadcast_to net msg msg_idx status cmd [] = (true, [])
broadcast_to net msg msg_idx status cmd (c ∷ cs) =
    let (sent, calls) = send_notify_message net c.client_fd (some msg) msg_idx status brdcast cmd in
    let rest = broadcast_to net msg msg_idx status cmd cs in
    if sent then (rest.0, calls ++ rest.1) else (false, calls)

unfoldable pub send_broadcast_message :
    Net → ClientPool → Option String → ℤ → Status → Cmd → Bool × List Call
unfolding broadcast_to
send_broadcast_message net pool none msg_idx status cmd = (true, [])
send_broadcast_message net pool (some msg) msg_idx status cmd =
    if ltb_ℤ (get_client_cnt pool) (pos 0)
    then (false, [])
    else (elim (get_client_arr net.arr_ok pool) [
      | none ↦ (false, [])
      | some client_arr ↦ broadcast_to net msg msg_idx status cmd client_arr
    ])

-- The notice that a failed receive or a failed answer sends.
abbrev pub complain : Net → ℤ → String → Status → List Call
complain net fd text status =
    (send_notify_message net fd (some text) minus_one status notify nothing).1

-- What one of the two `send` calls of an answer does; an error comes with the text written of it.
pub data Sending : Type 0 where
  went blocked : Sending
  broke : String → Sending

-- One call of `send_response`: its memory and its two `send` calls.
pub record Attempt : Type 0 where
  pub answer_ok : Bool
  pub length_sending : Sending
  pub answer_sending : Sending

pub record SentAnswer : Type 0 where
  pub done : Bool
  pub timed_out : Bool
  pub calls : List Call

-- `send_response_length` and `send_response_message` treat the answer of `send` alike.
unfoldable pub send_part : Net → ℤ → Call → Sending → SentAnswer
send_part net fd call went = record { done = true; timed_out = false; calls = call ∷ [] }
send_part net fd call blocked = record {
  done = false;
  timed_out = true;
  calls = call ∷ complain net fd "server send timeout" timeout;
}
send_part net fd call (broke text) = record {
  done = false;
  timed_out = false;
  calls = call ∷ complain net fd text eserver;
}

unfoldable pub send_response : Net → Attempt → Node → Status → List (Option String) → SentAnswer
send_response net attempt node status items =
    let first = send_part net node.client_fd (send_length node.client_fd) attempt.length_sending in
    let second =
      send_part net node.client_fd (send_answer node.client_fd answer) attempt.answer_sending in
    if not attempt.answer_ok
    then record { done = false; timed_out = false; calls = [] }
    else if not first.done
    then first
    else record second { calls = first.calls ++ second.calls }
  where
    answer : Answer
    answer = record {
      items = items;
      msg_idx = node.msg_idx;
      status = status;
      type = node.type;
      cmd = node.cmd;
    }
