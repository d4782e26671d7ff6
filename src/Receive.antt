-- ===== src/Receive.antt =====
-- src/server/receive/receive.c: one message of a client, its length first. What the two `recv` calls
-- answer is an argument. The length comes as `ntohl` makes it of the bytes read, and the data as
-- what `amessage__unpack` makes of them, `none` for NULL.
use odroid_player.Prelude.{
  ℕ, ◌*◌, ℤ, String, List, [], Option, none, some, Bool, true, false, ltb, if◌then◌else◌,
}
use odroid_player.Sys.{Call}
use odroid_player.Message.{Message, timeout, eserver}
use odroid_player.Send.{Net, complain}

abbrev pub message_max_byte : ℕ
message_max_byte = 1024 * 1024

-- The answer of `recv`; an error comes with the text that is written of it.
pub data Recv {ℓ} (A : Type ℓ) : Type ℓ where
  got : A → Recv A
  closed would_block : Recv A
  recv_error : String → Recv A

pub record Input : Type 0 where
  pub message_length : Recv ℕ
  pub buffer_ok : Bool
  pub message_data : Recv (Option Message)

-- What is received, whether the time ran out, and the calls.
pub record Received {ℓ} (A : Type ℓ) : Type ℓ where
  pub value : Option A
  pub timed_out : Bool
  pub calls : List Call

-- `receive_message_length` and `receive_message_data` treat the answer alike.
unfoldable pub receive_part {ℓ} : {A : Type ℓ} → Net → ℤ → Recv A → Received A
receive_part net fd (got a) = record { value = some a; timed_out = false; calls = [] }
receive_part net fd closed = record { value = none; timed_out = false; calls = [] }
receive_part net fd would_block = record {
  value = none;
  timed_out = true;
  calls = complain net fd "server recv timeout" timeout;
}
receive_part net fd (recv_error text) = record {
  value = none;
  timed_out = false;
  calls = complain net fd text eserver;
}

-- The data of a message, and what becomes of it.
unfoldable pub receive_rest : Net → ℤ → Received (Option Message) → Received Message
receive_rest net fd part = elim (part.value) [
  | none ↦ record { value = none; timed_out = part.timed_out; calls = part.calls }
  | some unpacked ↦ elim unpacked [
    | none ↦ record {
      value = none;
      timed_out = false;
      calls = complain net fd "couldn't unpack message" eserver;
    }
    | some msg ↦ record { value = some msg; timed_out = false; calls = [] }
  ]
]

unfoldable pub receive_sized : Net → ℤ → Input → ℕ → Received Message
unfolding receive_rest
receive_sized net fd input conv_len =
    if ltb message_max_byte conv_len
    then record {
      value = none;
      timed_out = false;
      calls = complain net fd "invalid message length" eserver;
    }
    else if input.buffer_ok
    then receive_rest net fd (receive_part net fd input.message_data)
    else record { value = none; timed_out = false; calls = [] }

unfoldable pub receive_message : Net → ℤ → Input → Received Message
unfolding receive_sized
receive_message net fd input =
    let part = receive_part net fd input.message_length in
    elim (part.value) [
      | none ↦ record { value = none; timed_out = part.timed_out; calls = part.calls }
      | some conv_len ↦ receive_sized net fd input conv_len
    ]
