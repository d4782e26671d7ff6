-- ===== src/Startup/Options/Listed.antt =====
-- What `main` of src/server/main.c does with the file names of the command line.
use odroid_player.Prelude.{
  ℕ, zero, suc, ◌≤◌, ◌<◌, ◌≡◌, refl, ap, ◌⊎◌, inl, inr, pos, String, List, [], ◌∷◌, ◌++◌,
  if◌then◌else◌, map, length, Option, none, some, true, false, arith,
}
use odroid_player.Playlist.{Playlist, max_filenum}
use odroid_player.Playlist.Valid.{slots, Shows}
use odroid_player.Player.Prepare.{prepare_player-Shows}
use odroid_player.Lifecycle.{start_player, wait_player, clear_player}
use odroid_player.Player.{Player}
use odroid_player.Startup.{FileList, FileApi, no_files, handle_files}
use odroid_player.Startup.Files.{AllFiles, Holds, handle_files_lem}
use odroid_player.Startup.Options.{
  Arg, Settings, proceeds, fault, handle_options, handle_names, handle_argument, names_of, quiet,
  first_settings, MainWorld, Exited, main_fault, exit_success, run_prepared, run_listed,
  run_created, run_settings, main,
}

names_of-slots :
    (uris : List String) (n : ℕ)
    → length uris ≤ n
    → ((length uris < n) × (names_of (slots uris n) ≡ some uris))
      ⊎ ((length uris ≡ n) × (names_of (slots uris n) ≡ none))
unfolding names_of
names_of-slots [] zero h = inr (refl, refl)
names_of-slots [] (suc n) h = inl (omega arith, refl)
names_of-slots (u ∷ us) zero h = absurd (omega arith)
names_of-slots (u ∷ us) (suc n) h = elim (names_of-slots us n (omega arith)) [
  | inl (room, e) ↦ inl (omega arith, rw e refl)
  | inr (full, e) ↦ inr (omega arith, rw e refl)
]

no_options :
    (sys : FileApi) (parse : String → Arg) (names : List String) (s : Settings)
    → AllFiles sys names
    → handle_options sys parse names s ≡ proceeds s
unfolding handle_options
no_options sys parse [] s h = refl
no_options sys parse (name ∷ names) s h = rw (h.1) (no_options sys parse names s h.2)

length-map : (f : String → String) (names : List String) → length (map f names) ≡ length names
length-map f [] = refl
length-map f (name ∷ names) = ap suc (length-map f names)

-- The player has just the uris in its playlist, in their order, with the cursor on the first, and it is
-- started, waited for if it could be started, and cleared.
abbrev pub RunsOn : MainWorld → Player → List String → Exited → Type 0
RunsOn world player uris result =
    (q : Playlist) × Shows q uris 0
    × let (started, p, made) = start_player world.start (record player { playlist = q }) in
      let (freed, calls) = clear_player p in
      (result ≡ exit_success freed (made ++ ((if started then wait_player p else []) ++ calls)))

-- What `main` comes to for so many names.
abbrev pub Lists : MainWorld → Player → List String → Exited → Type 0
Lists world player uris result =
    ((length uris < max_filenum) × RunsOn world player uris result)
    ⊎ ((max_filenum ≤ length uris) × (result ≡ main_fault))

run_listed-RunsOn :
    (world : MainWorld) (player : Player) (uris : List String)
    → Shows player.playlist [] 0
    → 0 < length uris
    → length uris ≤ max_filenum
    → RunsOn world player uris (run_listed world player uris)
unfolding run_listed run_prepared
run_listed-RunsOn world player uris v some_file fits =
    let (q, e, w) = prepare_player-Shows player uris v some_file fits in
    (q, w, rw (e, run_listed) refl)

run_settings_created :
    (world : MainWorld) (player : Player) (l : FileList)
    → world.euid ≡ pos 0
    → world.socket_exists ≡ false
    → world.create true quiet ≡ some player
    → run_settings world (record first_settings { files = l }) ≡ run_created world player l.filelist
unfolding run_settings
run_settings_created world player l root free made = rw (root, free) (rw (made, run_settings) refl)

created-Lists :
    (world : MainWorld) (player : Player) (uris : List String) (l : FileList)
    → Holds uris l
    → Shows player.playlist [] 0
    → 0 < length uris
    → length uris ≤ max_filenum
    → Lists world player uris (run_created world player l.filelist)
unfolding run_created
created-Lists world player uris l v empty some_file fits =
    elim (names_of-slots uris max_filenum fits) [
      | inl (room, e) ↦ inl (
        room,
        rw (v.held, run_created)
            (rw e (run_listed-RunsOn world player uris empty some_file (omega arith))),
      )
      | inr (full, e) ↦ inr (omega arith, rw (v.held, run_created) (rw e refl))
    ]

handled_names :
    (sys : FileApi) (parse : String → Arg) (names : List String) (files : Option FileList)
    → AllFiles sys names
    → handle_files sys names no_files ≡ files
    → handle_argument sys parse names first_settings
      ≡ elim files [ none ↦ fault | some l ↦ proceeds (record first_settings { files = l }) ]
unfolding handle_argument handle_names
handled_names sys parse names files h e =
    rw (no_options sys parse names first_settings h, handle_argument) (rw e refl)

-- For a command line of names whose files are there, without options, with the rights and the memory
-- to start and a player created with an empty playlist: fewer than `max_filenum` names are put into
-- the playlist as their uris, in the order of the command line, and the player is started with it,
-- waited for if it could be started, and cleared. From `max_filenum` names on, `main` reads or writes
-- past the array: with just so many there is no NULL behind them.
pub main-Lists :
    (sys : FileApi) (parse : String → Arg) (world : MainWorld) (player : Player) (name : String)
    (names : List String)
    → AllFiles sys (name ∷ names)
    → world.euid ≡ pos 0
    → world.socket_exists ≡ false
    → world.create true quiet ≡ some player
    → Shows player.playlist [] 0
    → Lists world player (map sys.uri_of (name ∷ names)) (main sys parse world (name ∷ names))
unfolding main
main-Lists sys parse world player name names h root free made empty =
    let all = name ∷ names in
    let count = length-map sys.uri_of all in
    elim (handle_files_lem sys all h) [
      | inr (over, e) ↦
          inr (omega (arith, count), rw (handled_names sys parse all none h e, main) refl)
      | inl (fits, (l, e, v)) ↦
          rw (handled_names sys parse all (some l) h e, main)
            (rw (run_settings_created world player l root free made) (
              created-Lists world player (map sys.uri_of all) l v empty (omega (arith, count))
                (omega (arith, count))))
    ]
