-- ===== src/Keypad.antt =====
-- src/examples/ir: the client program that sends the keys of an infrared remote control to the
-- player, and its loading of the client library. The device and the library's functions are
-- arguments; what is printed is left out.
pub mod Choice
pub mod Program
use odroid_player.Prelude.{
  ℕ, zero, suc, ◌==◌, ℤ, pos, ltb_ℤ, leb_ℤ, String, List, [], ◌∷◌, ◌++◌, Option, none, some, Bool,
  true, false, not, ◌&&◌, ◌||◌, if◌then◌else◌,
}

pub data Key : Type 0 where
  ev_key_up ev_key_down ev_key_left ev_key_right ev_key_enter ev_key_home ev_key_list : Key
  other_key : Key

-- What a key asks of the client library.
pub data Ask : Type 0 where
  send_play send_stop send_pause send_next send_prev : Ask

-- The variables `paused` and `stop`.
pub record Remote : Type 0 where
  pub paused : Bool
  pub stop : Bool

-- The request of a key, if any, and the variables after it.
unfoldable pub process_opc_command : Key → Remote → Option Ask × Remote
process_opc_command ev_key_left r = (some send_prev, r)
process_opc_command ev_key_right r = (some send_next, r)
process_opc_command ev_key_enter r =
    if r.paused
    then (some send_play, record r { paused = false })
    else (some send_pause, record r { paused = true })
process_opc_command ev_key_home r = (none, record r { stop = true })
process_opc_command ev_key_list r = (some send_stop, record r { paused = true })
process_opc_command _ r = (none, r)

-- An event of the device: `ev_syn` and `ev_msc` carry no key, and the value 0 is a release.
pub data Event : Type 0 where
  ev_syn ev_msc : Event
  ev_key : Key → ℕ → Event

-- The loop over the events of one `read`; it goes on after HOME to the end of them.
unfoldable pub process_events : List Event → Remote → List Ask × Remote
unfolding process_opc_command
process_events [] r = ([], r)
process_events (ev_syn ∷ evs) r = process_events evs r
process_events (ev_msc ∷ evs) r = process_events evs r
process_events (ev_key key zero ∷ evs) r = process_events evs r
process_events (ev_key key (suc value) ∷ evs) r =
    let (ask, s) = process_opc_command key r in
    let (asks, t) = process_events evs s in (elim ask [ none ↦ asks | some a ↦ a ∷ asks ], t)

-- SIGINT and SIGTERM.
unfoldable pub interrupt_handler : Remote → Remote
interrupt_handler r = record r { stop = true }

-- One turn of the loop of `capture_ir_event`: `select` fails, as it does when a signal cuts it short;
-- `read` gives too little; there are events; or a signal comes outside `select`, before which there
-- may have been events.
pub data Capture : Type 0 where
  select_failed read_short : Capture
  events interrupted : List Event → Capture

-- Whether the loop has ended, with success or not, none while it waits; the requests, and the
-- variables.
abbrev pub Captured : Type 0
Captured = Option Bool × List Ask × Remote

unfoldable pub after_events : List Ask → Captured → Captured
after_events asks (result, more, r) = (result, asks ++ more, r)

unfoldable pub capture_turn : Capture → (Remote → Captured) → Remote → Captured
unfolding process_events interrupt_handler after_events
capture_turn select_failed next r = (some false, [], r)
capture_turn read_short next r = (some false, [], r)
capture_turn (events evs) next r =
    let (asks, s) = process_events evs r in after_events asks (next s)
capture_turn (interrupted evs) next r =
    let (asks, s) = process_events evs r in after_events asks (next (interrupt_handler s))

unfoldable pub capture_ir_event : List Capture → Remote → Captured
unfolding capture_turn
capture_ir_event [] r = (if r.stop then some true else none, [], r)
capture_ir_event (c ∷ cs) r =
    let turn = capture_turn c (λ s. capture_ir_event cs s) r in
    if r.stop then (some true, [], r) else turn

-- What the devices of `/dev/input` answer: whether one opens, and its name.
pub record Device : Type 0 where
  pub path : String
  pub opens : Bool
  pub is_keypad : Bool
  pub is_common : Bool

-- `strncmp` with "ir_keypad" and with "ir_keypad_common".
unfoldable pub is_ir_keypad : Device → Bool
is_ir_keypad d = d.is_keypad && not d.is_common

-- The loop over the devices: `flag` and the path last written to `fname`.
unfoldable pub find_loop : List Device → Bool → String → Bool × String
unfolding is_ir_keypad
find_loop [] flag fname = (flag, fname)
find_loop (d ∷ ds) true fname = find_loop ds true fname
find_loop (d ∷ ds) false fname =
    let skipped = find_loop ds false d.path in
    let found = find_loop ds (is_ir_keypad d) d.path in if d.opens then found else skipped

unfoldable pub find_ir_device : List Device → Option String
unfolding find_loop
find_ir_device ds = let (flag, fname) = find_loop ds false "" in if flag then some fname else none

-- The functions of the library, in the order in which they are looked up.
abbrev pub symbols : List String
symbols =
    "opc_init" ∷ "opc_prepare" ∷ "opc_connect" ∷ "opc_destroy" ∷ "opc_send_play" ∷ "opc_send_stop"
    ∷ "opc_send_pause" ∷ "opc_send_next" ∷ "opc_send_prev" ∷ "opc_send_ack" ∷ "opc_recv_time"
    ∷ "opc_recv_amsg" ∷ "opc_recv_uri" ∷ "opc_create_status" ∷ "opc_free_status"
    ∷ "opc_status_get_status" ∷ "opc_status_get_type" ∷ "opc_status_get_cmd"
    ∷ "opc_status_get_msg_idx" ∷ "opc_status_get_n_data" ∷ "opc_status_get_data"
    ∷ "opc_set_log_level" ∷ []

-- What the program opens and gives back: the device, the library, and the client.
pub data IrCall : Type 0 where
  ungrab close : ℤ → IrCall
  dlclose opc_destroy : IrCall

-- One lookup after the other: at the first that fails the library is closed.
unfoldable pub load_symbols : (String → Bool) → List String → Bool × List IrCall
load_symbols dlsym [] = (true, [])
load_symbols dlsym (name ∷ names) =
    let rest = load_symbols dlsym names in if dlsym name then rest else (false, dlclose ∷ [])

-- `system_ok` and `local_ok` are the answers of the two `dlopen` calls.
unfoldable pub load_opc_library : (system_ok local_ok : Bool) → (String → Bool) → Bool × List IrCall
unfolding load_symbols
load_opc_library system_ok local_ok dlsym =
    let loaded = load_symbols dlsym symbols in if system_ok || local_ok then loaded else (false, [])

-- The answers of `opc_init`, `opc_connect` and `opc_prepare`, and whether `opc_destroy` returns: it
-- ends the process when it cannot join its thread, and then there is no result. A client that cannot
-- connect or be prepared is destroyed again.
unfoldable pub set_opc_client :
    (init_ok connect_ok prepare_ok destroy_ok : Bool) → Option Bool × List IrCall
set_opc_client init_ok connect_ok prepare_ok destroy_ok =
    let given_up : Option Bool = if destroy_ok then some false else none in
    if not init_ok
    then (some false, [])
    else if not connect_ok
    then (given_up, opc_destroy ∷ [])
    else if not prepare_ok
    then (given_up, opc_destroy ∷ [])
    else (some true, [])
