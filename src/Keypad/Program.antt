-- ===== src/Keypad/Program.antt =====
-- src/examples/ir/client_ir.c: the options, `handle_ir_event` and `main`. How `strncmp` and `sscanf`
-- read an option is an argument.
pub mod Releases
use odroid_player.Prelude.{
  ℤ, pos, ltb_ℤ, leb_ℤ, eq_ℤ, String, List, [], ◌∷◌, ◌++◌, Option, none, some, Bool, true, false,
  not, ◌&&◌, if◌then◌else◌,
}
use odroid_player.Keypad.{
  Ask, Remote, Capture, Captured, capture_ir_event, Device, find_ir_device, IrCall, ungrab, close,
  dlclose, opc_destroy, load_opc_library, set_opc_client,
}

-- What an argument is: `level` with its number, `other` for what is passed over.
pub data IrArg : Type 0 where
  help other : IrArg
  level : ℤ → IrArg

-- The log level that the arguments set; none where `--help` ends the process.
unfoldable pub handle_argument : (String → IrArg) → List String → ℤ → Option ℤ
handle_argument parse [] log_level = some log_level
handle_argument parse (arg ∷ args) log_level = elim (parse arg) [
  | help ↦ none
  | other ↦ handle_argument parse args log_level
  | level n ↦
      handle_argument parse args (if leb_ℤ (pos 0) n && leb_ℤ n (pos 6) then n else log_level)
]

-- The answers of `getuid`, of the devices, of `open`, of the loader and of the client library, and
-- the turns of the loop over the events.
pub record IrWorld : Type 0 where
  pub uid : ℤ
  pub devices : List Device
  pub fd : ℤ
  pub system_ok : Bool
  pub local_ok : Bool
  pub dlsym : String → Bool
  pub init_ok : Bool
  pub connect_ok : Bool
  pub prepare_ok : Bool
  pub destroy_ok : Bool
  pub captures : List Capture

-- The process ends for `--help`, ends with success or not, is ended by `opc_destroy`, with a failure,
-- or is still in its loop; with what it asked of the player and what it gave back.
pub data IrRun : Type 0 where
  usage : IrRun
  ended : Bool → List Ask → List IrCall → IrRun
  exited : List Ask → List IrCall → IrRun
  capturing : List Ask → Remote → IrRun

-- Each of the three ends of the loop gives everything back, in this order.
unfoldable pub end_capture : IrWorld → Captured → IrRun
end_capture world (none, asks, r) = capturing asks r
end_capture world (some ok, asks, r) =
    if world.destroy_ok
    then ended ok asks (ungrab world.fd ∷ close world.fd ∷ opc_destroy ∷ dlclose ∷ [])
    else exited asks (ungrab world.fd ∷ close world.fd ∷ opc_destroy ∷ [])

unfoldable pub after_client : IrWorld → Option Bool × List IrCall → IrRun
unfolding end_capture
after_client world (none, calls) = exited [] calls
after_client world (some false, calls) = ended false [] (calls ++ dlclose ∷ close world.fd ∷ [])
after_client world (some true, calls) =
    end_capture world (capture_ir_event world.captures (record { paused = false; stop = false }))

unfoldable pub after_load : IrWorld → Bool × List IrCall → IrRun
unfolding after_client
after_load world (false, calls) = ended false [] (calls ++ close world.fd ∷ [])
after_load world (true, calls) =
    after_client world
      (set_opc_client world.init_ok world.connect_ok world.prepare_ok world.destroy_ok)

-- The descriptor is closed also where `open` fails.
unfoldable pub handle_ir_event : IrWorld → Option String → IrRun
unfolding after_load
handle_ir_event world none = ended false [] []
handle_ir_event world (some device_path) =
    let opened = after_load world (load_opc_library world.system_ok world.local_ok world.dlsym) in
    if ltb_ℤ world.fd (pos 0) then ended false [] (close world.fd ∷ []) else opened

-- What `main` goes on with, given the log level and the path of the device.
unfoldable pub start_capture : IrWorld → Option ℤ → Option String → IrRun
unfolding handle_ir_event
start_capture world none found = usage
start_capture world (some log_level) none = ended false [] []
start_capture world (some log_level) (some device_path) =
    let captured = handle_ir_event world (some device_path) in
    if eq_ℤ world.uid (pos 0) then captured else ended false [] []

-- `args` are the arguments behind the name of the program.
unfoldable pub main : (String → IrArg) → List String → IrWorld → IrRun
unfolding handle_argument start_capture
main parse args world =
    start_capture world (handle_argument parse args (pos 6)) (find_ir_device world.devices)
