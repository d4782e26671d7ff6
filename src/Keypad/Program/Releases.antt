-- ===== src/Keypad/Program/Releases.antt =====
-- What the program of src/examples/ir gives back when it ends.
use odroid_player.Prelude.{
  ◌≡◌, ◌⊎◌, ℤ, pos, eq_ℤ, List, [], ◌∷◌, ◌++◌, Option, none, some, Bool, true, false, ◌&&◌, ◌||◌,
  if◌then◌else◌,
}
use odroid_player.Keypad.{find_ir_device, IrCall, close, dlclose, opc_destroy, load_opc_library}
use odroid_player.Keypad.Choice.{paused_after}
use odroid_player.Keypad.Program.{IrWorld, IrRun, usage, ended, exited, capturing}

-- The descriptors that are closed.
abbrev pub closes : List IrCall → List ℤ
closes [] = []
closes (close fd ∷ calls) = fd ∷ closes calls
closes (_ ∷ calls) = closes calls

-- What is asked of the library and the loader, in its order.
abbrev pub library_calls : List IrCall → List IrCall
library_calls [] = []
library_calls (dlclose ∷ calls) = dlclose ∷ library_calls calls
library_calls (opc_destroy ∷ calls) = opc_destroy ∷ library_calls calls
library_calls (_ ∷ calls) = library_calls calls

-- Whether the library is loaded with all its functions, and whether there is a client.
abbrev pub is_loaded : IrWorld → Bool
is_loaded world = (load_opc_library world.system_ok world.local_ok world.dlsym).0

-- A client is destroyed, and then the library is closed, where there is one.
abbrev pub given_back : (client library : Bool) → List IrCall
given_back client library =
    (if client then opc_destroy ∷ [] else []) ++ (if library then dlclose ∷ [] else [])

-- The device was opened, and the process ends.
abbrev pub Releases : IrWorld → List IrCall → Type 0
Releases world calls =
    (closes calls ≡ world.fd ∷ [])
    × (library_calls calls
        ≡ given_back (is_loaded world && world.init_ok) (world.system_ok || world.local_ok))

-- `opc_destroy` has ended the process: there was a client, the library stays open, and the device was
-- closed before or stays open.
abbrev pub Exits : IrWorld → List IrCall → Type 0
Exits world calls =
    (world.destroy_ok ≡ false)
    × (is_loaded world ≡ true)
    × (world.init_ok ≡ true)
    × (library_calls calls ≡ opc_destroy ∷ [])
    × ((closes calls ≡ []) ⊎ (closes calls ≡ world.fd ∷ []))

abbrev pub NotStarted : IrWorld → Type 0
NotStarted world = (eq_ℤ world.uid (pos 0) ≡ false) ⊎ (find_ir_device world.devices ≡ none)

-- The ends of the run of a world.
abbrev pub IrEnds : IrWorld → IrRun → Type 0
IrEnds world usage = Unit {0}
IrEnds world (capturing asks r) = r.paused ≡ paused_after false asks
IrEnds world (exited asks calls) = Exits world calls
IrEnds world (ended ok asks calls) =
    (NotStarted world × (ok ≡ false) × (asks ≡ []) × (calls ≡ [])) ⊎ Releases world calls

-- The client is set; or it is given up, and then destroyed where there is one, which may end the
-- process.
abbrev SetEnds : (init_ok destroy_ok : Bool) → Option Bool × List IrCall → Type 0
SetEnds init_ok destroy_ok answer =
    ((init_ok ≡ true) × (answer ≡ (some true, [])))
    ⊎ (answer ≡ (some false, given_back init_ok false))
    ⊎ ((init_ok ≡ true) × (destroy_ok ≡ false) × (answer ≡ (none, opc_destroy ∷ [])))

module _ (world : IrWorld) where
  abbrev opened : Bool
  opened = world.system_ok || world.local_ok
