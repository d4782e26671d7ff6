-- ===== src/Sys.antt =====
-- What the program asks of the operating system: the calls whose order and arguments a property
-- speaks of, as values. An operation returns the calls that it made, in order.
use odroid_player.Prelude.{ℕ, ℤ, String, Option}
use odroid_player.Message.{Answer, Message, Notice}

pub data Signal : Type 0 where
  sigcont sigstop sigterm sigusr1 sigusr2 : Signal

pub data Condition : Type 0 where
  queue_cond play_cond : Condition

-- `send_length` and `send_packed` are the two `send` calls of a notice, `send_length` and
-- `send_answer` those of an answer; a thread is named by its
-- `pthread_t`. `send_request` is the second `send` of a client's request, `connect` a call of
-- `connect` on a descriptor. The calls of the media back end are named as its functions are.
pub data Call : Type 0 where
  close : ℤ → Call
  unlink : String → Call
  free_path : String → Call
  set_timeout : ℤ → ℕ → Call
  kill : ℤ → Signal → Call
  pthread_kill : ℕ → Signal → Call
  cond_signal : Condition → Call
  send_length : ℤ → Call
  send_packed : ℤ → Notice → Call
  send_answer : ℤ → Answer → Call
  send_request : ℤ → Message → Call
  connect : ℤ → Call
  sleep : ℕ → Call
  agmp_set_uri : Option String → Call
  agmp_unset_uri agmp_stop agmp_prepare agmp_play agmp_deferred_callback : Call
  pthread_create pthread_detach pthread_join : ℕ → Call
