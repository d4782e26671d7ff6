-- ===== src/Startup/Options.antt =====
-- src/server/main.c: the options of the command line, and `main`. How `sscanf` and `strncmp` read an
-- option is an argument.
pub mod Listed
use odroid_player.Prelude.{
  ℕ, zero, suc, ltb, ℤ, pos, leb_ℤ, eq_ℤ, String, List, [], ◌∷◌, ◌++◌, length, Option, none, some,
  Bool, true, false, not, ◌&&◌, if◌then◌else◌,
}
use odroid_player.Sys.{Call}
use odroid_player.Player.{Player, prepare_player}
use odroid_player.Lifecycle.{StartWorld, Freed, start_player, wait_player, clear_player}
use odroid_player.Startup.{FileList, FileApi, no_files, handle_filelist, handle_files}

-- What an option is: `loop` with whether its text means false, `level` with its number, `file` with
-- the lines of the file, none where it cannot be opened; an empty line is NULL after `strtok`.
pub data Arg : Type 0 where
  help invalid : Arg
  loop : Bool → Arg
  level : ℤ → Arg
  file : Option (List (Option String)) → Arg

-- What the options have set so far.
pub record Settings : Type 0 where
  pub files : FileList
  pub file_flag : Bool
  pub is_loop : Bool
  pub log_level : ℤ

-- An option may end the process; a write past `filelist` is a fault.
pub data Handled : Type 0 where
  proceeds : Settings → Handled
  exits : Bool → Handled
  fault : Handled

-- The lines of a file of names.
unfoldable pub handle_lines : FileApi → List (Option String) → FileList → Option FileList
handle_lines sys [] l = some l
handle_lines sys (none ∷ lines) l = handle_lines sys lines l
handle_lines sys (some name ∷ lines) l = elim (handle_filelist sys name l) [
  | none ↦ none
  | some m ↦ handle_lines sys lines m
]

unfoldable pub handle_option : FileApi → Arg → Settings → Handled
unfolding handle_lines
handle_option sys help s = exits true
handle_option sys invalid s = exits false
handle_option sys (loop is_false) s =
    proceeds (if is_false then record s { is_loop = false } else s)
handle_option sys (level n) s =
    proceeds (if leb_ℤ (pos 0) n && leb_ℤ n (pos 6) then record s { log_level = n } else s)
handle_option sys (file none) s = proceeds (record s { file_flag = true })
handle_option sys (file (some lines)) s = elim (handle_lines sys lines s.files) [
  | none ↦ fault
  | some l ↦ proceeds (record s { files = l; file_flag = true })
]

-- The first loop of `handle_argument`, over the arguments; `parse` reads an option.
unfoldable pub handle_options : FileApi → (String → Arg) → List String → Settings → Handled
unfolding handle_option
handle_options sys parse [] s = proceeds s
handle_options sys parse (arg ∷ args) s =
    let rest = handle_options sys parse args s in
    if sys.is_option arg
    then (elim (handle_option sys (parse arg) s) [
      | proceeds t ↦ handle_options sys parse args t
      | exits ok ↦ exits ok
      | fault ↦ fault
    ])
    else rest

-- Names on the command line are read only where no file of names was given.
unfoldable pub handle_names : FileApi → List String → Settings → Handled
handle_names sys args s =
    if s.file_flag then proceeds s else (elim (handle_files sys args s.files) [
      | none ↦ fault
      | some l ↦ proceeds (record s { files = l })
    ])

unfoldable pub handle_argument : FileApi → (String → Arg) → List String → Settings → Handled
unfolding handle_options handle_names
handle_argument sys parse args s = elim (handle_options sys parse args s) [
  | proceeds t ↦ handle_names sys args t
  | exits ok ↦ exits ok
  | fault ↦ fault
]

-- The names up to the first NULL; without one the reading goes past the array, a fault.
unfoldable pub names_of : List (Option String) → Option (List String)
names_of [] = none
names_of (none ∷ xs) = some []
names_of (some x ∷ xs) = elim (names_of xs) [ none ↦ none | some names ↦ some (x ∷ names) ]

abbrev pub quiet : ℤ
quiet = pos 6

abbrev pub first_settings : Settings
first_settings = record { files = no_files; file_flag = false; is_loop = true; log_level = quiet }

-- The system as `main` finds it: the effective user, whether the socket is there, what
-- `create_player` makes of the settings, and the threads.
pub record MainWorld : Type 0 where
  pub euid : ℤ
  pub socket_exists : Bool
  pub create : Bool → ℤ → Option Player
  pub start : StartWorld

-- The process ends without a player, with success or not; or after a player, always with success and
-- with what was freed and called. `main_fault` is a read or a write past an array.
pub data Exited : Type 0 where
  ended : Bool → Exited
  exit_success : Freed → List Call → Exited
  main_fault : Exited

-- From the prepared player on: the threads run, and the player is cleared in any case.
unfoldable pub run_prepared : MainWorld → Bool → Player → Exited
run_prepared world false player =
    let (freed, calls) = clear_player player in exit_success freed calls
run_prepared world true player =
    let (started, p, made) = start_player world.start player in
    let (freed, calls) = clear_player p in
    exit_success freed (made ++ ((if started then wait_player p else []) ++ calls))

-- The names are put into the playlist.
unfoldable pub run_listed : MainWorld → Player → List String → Exited
unfolding run_prepared
run_listed world player names = elim (prepare_player player names) [
  | none ↦ main_fault
  | some (prepared, p) ↦ run_prepared world prepared p
]

unfoldable pub run_created : MainWorld → Player → List (Option String) → Exited
unfolding run_listed names_of
run_created world player filelist = elim (names_of filelist) [
  | none ↦ main_fault
  | some names ↦ run_listed world player names
]

unfoldable pub run_settings : MainWorld → Settings → Exited
unfolding run_created
run_settings world s =
    let made : Exited = elim (world.create s.is_loop s.log_level) [
      | none ↦ ended false
      | some player ↦ run_created world player (s.files).filelist
    ] in
    if not (eq_ℤ world.euid (pos 0))
    then ended false
    else if world.socket_exists
    then ended false
    else made

unfoldable pub main : FileApi → (String → Arg) → MainWorld → List String → Exited
unfolding handle_argument run_settings
main sys parse world [] = ended false
main sys parse world (arg ∷ args) = elim (handle_argument sys parse (arg ∷ args) first_settings) [
  | proceeds s ↦ run_settings world s
  | exits ok ↦ ended ok
  | fault ↦ main_fault
]
