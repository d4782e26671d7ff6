-- ===== src/Playlist.antt =====
-- src/server/playlist/playlist.c: the list of media files and the index of the current one.
-- `uri_arr` is the list of its `max_filenum` slots, where `none` is NULL. A read or a write past
-- the array has no result. An `int` index is compared with `filenum`, a `size_t`, as a `size_t`.
pub mod Valid
use odroid_player.Prelude.{
  ℕ, suc, ℤ, pos, negsuc, minus_one, ltb_ℤ, succ_ℤ, pred_ℤ, size_of_int, String, List, [], ◌∷◌,
  Option, none, some, Bool, true, false, ◌||◌, ltb, leb, if◌then◌else◌, get_elem?, set, replicate,
}

abbrev pub max_filenum : ℕ
max_filenum = 128

pub record Playlist : Type 0 where
  pub uri_arr : List (Option String)
  pub filenum : ℕ
  pub cur_idx : ℤ

unfoldable pub create_playlist : Bool → Option Playlist
create_playlist ok =
    if ok
    then some (record { uri_arr = replicate max_filenum none; filenum = 0; cur_idx = pos 0 })
    else none

-- The write `uri_arr[filenum] = strdup(uri)` is not guarded: past the array it is a fault.
unfoldable pub append_playlist : Playlist → String → Option Playlist
append_playlist p uri =
    if ltb p.filenum max_filenum
    then some (record p { uri_arr = set p.uri_arr p.filenum (some uri); filenum = suc p.filenum })
    else none

-- What is freed: the first `filenum` slots.
unfoldable pub clear_playlist : ℕ → List (Option String) → List (Option String)
clear_playlist ℕ.zero xs = []
clear_playlist (suc n) [] = []
clear_playlist (suc n) (x ∷ xs) = x ∷ clear_playlist n xs

unfoldable pub get_playlist_cur_idx : Playlist → ℤ
get_playlist_cur_idx p = p.cur_idx

unfoldable pub set_playlist_cur_idx : Playlist → ℤ → Playlist
set_playlist_cur_idx p index =
    if ltb_ℤ index (pos 0) || leb p.filenum (size_of_int index)
    then p
    else record p { cur_idx = index }

unfoldable pub increase_playlist_cur_idx : Playlist → Playlist
increase_playlist_cur_idx p = record p { cur_idx = succ_ℤ p.cur_idx }

unfoldable pub decrease_playlist_cur_idx : Playlist → Playlist
decrease_playlist_cur_idx p = record p { cur_idx = pred_ℤ p.cur_idx }

unfoldable pub get_playlist_filenum : Playlist → ℕ
get_playlist_filenum p = p.filenum

-- The slot at an index, read as the C code reads it: no result past the array.
abbrev pub slot : List (Option String) → ℤ → Option (Option String)
slot xs (pos i) = get_elem? xs i
slot xs (negsuc i) = none

-- A pointer, with the fault of a wild read shown as NULL: the guard excludes it.
abbrev pub or_null : Option (Option String) → Option String
or_null none = none
or_null (some u) = u

unfoldable pub get_playlist_uri : Playlist → ℤ → Option String
get_playlist_uri p index =
    if ltb_ℤ index (pos 0) || leb p.filenum (size_of_int index)
    then none
    else or_null (slot p.uri_arr index)

-- No guard: past the array the read is a fault.
unfoldable pub get_playlist_current_uri : Playlist → Option (Option String)
get_playlist_current_uri p = slot p.uri_arr p.cur_idx
