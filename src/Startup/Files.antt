-- ===== src/Startup/Files.antt =====
-- How many file names the start of src/server/main.c takes.
use odroid_player.Prelude.{
  suc, ◌+◌, ◌≤◌, ◌<◌, ◌≡◌, refl, sym, subst, String, List, [], ◌∷◌, ◌++◌, Option, none, some, true,
  false, arith, map, length, ltb, append-nil, append_assoc, length-append, inl, inr, Bool-cases,
  ltb→lt, ◌⊎◌, set,
}
use odroid_player.Playlist.{max_filenum}
use odroid_player.Playlist.Valid.{slots, set-slots}
use odroid_player.Startup.{FileList, FileApi, no_files, handle_filelist, handle_files}

-- Names of files that are there, and no options.
abbrev pub AllFiles : FileApi → List String → Type 0
AllFiles sys [] = Unit {0}
AllFiles sys (file ∷ files) =
    (sys.access file ≡ true) × (sys.is_option file ≡ false) × AllFiles sys files

-- The array holds these uris, and NULL behind them.
pub record Holds (uris : List String) (l : FileList) : Type 0 where
  pub held : l.filelist ≡ slots uris max_filenum
  pub counted : l.file_idx ≡ length uris

taken :
    (sys : FileApi) (file : String) (uris : List String) (l : FileList)
    → Holds uris l
    → sys.access file ≡ true
    → length uris < max_filenum
    → (m : FileList) × (handle_filelist sys file l ≡ some m)
      × Holds (uris ++ sys.uri_of file ∷ []) m
unfolding handle_filelist
taken sys file uris l v there room = (
  record {
    file_idx = suc l.file_idx;
    filelist = set l.filelist l.file_idx (some (sys.uri_of file));
  },
  ground (arith, v.counted),
  record {
    held = simp (v.held, v.counted) (set-slots uris max_filenum (sys.uri_of file) room);
    counted = omega (arith, v.counted, length-append uris (sys.uri_of file ∷ []));
  },
)

overflows :
    (sys : FileApi) (file : String) (uris : List String) (l : FileList)
    → Holds uris l
    → sys.access file ≡ true
    → length uris ≡ max_filenum
    → handle_filelist sys file l ≡ none
unfolding handle_filelist
overflows sys file uris l v there full = ground (arith, v.counted)

-- Whether the names fit, and what comes of them.
abbrev pub Filled : FileApi → List String → List String → Option FileList → Type 0
Filled sys names uris result =
    ((length uris + length names ≤ max_filenum)
      × ((m : FileList) × (result ≡ some m) × Holds (uris ++ map sys.uri_of names) m))
    ⊎ ((max_filenum < length uris + length names) × (result ≡ none))

handle_files-Filled :
    (sys : FileApi) (names uris : List String) (l : FileList)
    → Holds uris l
    → AllFiles sys names
    → length uris ≤ max_filenum
    → Filled sys names uris (handle_files sys names l)
unfolding handle_files
handle_files-Filled sys [] uris l v all fits =
    inl (omega arith, (l, refl, subst (λ us. Holds us l) (sym (append-nil uris)) v))
handle_files-Filled sys (file ∷ names) uris l v all fits =
    elim (Bool-cases (ltb (length uris) max_filenum)) [
      | inr full ↦ inr (
        ground arith,
        rw (all.1) (rw (overflows sys file uris l v all.0 (ground arith), handle_files) refl),
      )
      | inl room ↦
          let (m, e, w) = taken sys file uris l v all.0 (ground arith) in
          later sys file names uris l m v all e (
            handle_files-Filled sys names (uris ++ sys.uri_of file ∷ []) m w all.2
              (omega (arith, length-append uris (sys.uri_of file ∷ []), ltb→lt _ _ room)))
    ]
  where
    later :
        (sys : FileApi) (file : String) (names uris : List String) (l m : FileList)
        → Holds uris l
        → AllFiles sys (file ∷ names)
        → handle_filelist sys file l ≡ some m
        → Filled sys names (uris ++ sys.uri_of file ∷ []) (handle_files sys names m)
        → Filled sys (file ∷ names) uris (handle_files sys (file ∷ names) l)
    later sys file names uris l m v all e (inl (fits, (k, f, w))) = inl (
      omega (arith, length-append uris (sys.uri_of file ∷ [])),
      (
        k,
        rw (all.1, handle_files) (rw e f),
        subst (λ us. Holds us k) (append_assoc uris (sys.uri_of file ∷ []) (map sys.uri_of names))
            w,
      ),
    )
    later sys file names uris l m v all e (inr (over, f)) = inr (
      omega (arith, length-append uris (sys.uri_of file ∷ [])),
      rw (all.1, handle_files) (rw e f),
    )

-- For names that are no options and whose files are there: up to `max_filenum` of them, their uris
-- stand in the array in the order of the command line, with NULL behind them; if there are more, a
-- write goes past the array.
pub handle_files_lem :
    (sys : FileApi) (names : List String)
    → AllFiles sys names
    → Filled sys names [] (handle_files sys names no_files)
handle_files_lem sys names all =
    handle_files-Filled sys names [] no_files (record { held = refl; counted = refl }) all
      (omega arith)
