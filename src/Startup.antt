-- ===== src/Startup.antt =====
-- src/server/main.c: the file names of the command line. `filelist` is the list of its `max_filenum`
-- slots; a write past it is a fault. `access` and the comparison with "--" are the system's, and
-- `uri_of` is the text that `snprintf` makes of a name.
pub mod Files
pub mod Options
use odroid_player.Prelude.{
  ℕ, suc, String, List, [], ◌∷◌, Option, none, some, Bool, true, false, not, ltb, if◌then◌else◌,
  set, replicate,
}
use odroid_player.Playlist.{max_filenum}

pub record FileList : Type 0 where
  pub file_idx : ℕ
  pub filelist : List (Option String)

abbrev pub no_files : FileList
no_files = record { file_idx = 0; filelist = replicate max_filenum none }

pub record FileApi : Type 0 where
  pub access : String → Bool
  pub is_option : String → Bool
  pub uri_of : String → String

-- The guard is `file_idx > MAX_FILENUM`, and the write is at `file_idx`; no argument is NULL.
unfoldable pub handle_filelist : FileApi → String → FileList → Option FileList
handle_filelist sys file l =
    if ltb max_filenum l.file_idx
    then some l
    else if not (sys.access file)
    then some l
    else if ltb l.file_idx max_filenum
    then some (record {
      file_idx = suc l.file_idx;
      filelist = set l.filelist l.file_idx (some (sys.uri_of file));
    })
    else none

-- The last loop of `handle_argument`, over the arguments.
unfoldable pub handle_files : FileApi → List String → FileList → Option FileList
handle_files sys [] l = some l
handle_files sys (arg ∷ args) l =
    if sys.is_option arg
    then handle_files sys args l
    else (elim (handle_filelist sys arg l) [ none ↦ none | some m ↦ handle_files sys args m ])
