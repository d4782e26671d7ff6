-- ===== src/Playlist/Valid.antt =====
-- The playlist of src/server/playlist/playlist.c as a list of files with a cursor.
use odroid_player.Prelude.{
  ℕ, zero, suc, ◌-◌, ◌≤◌, ◌<◌, ◌≡◌, refl, ap, pos, negsuc, String, List, [], ◌∷◌, ◌++◌, Option,
  none, some, true, arith, length, get_elem?, set, replicate, length-append, Bool-cases, ltb,
  ltb→lt, inl, inr,
}
use odroid_player.Playlist.{
  Playlist, max_filenum, create_playlist, append_playlist, set_playlist_cur_idx, get_playlist_uri,
  get_playlist_current_uri,
}

-- The slots of the array: the files, and NULL behind them.
abbrev pub slots : List String → ℕ → List (Option String)
slots [] n = replicate n none
slots (f ∷ fs) zero = []
slots (f ∷ fs) (suc n) = some f ∷ slots fs n

-- The abstract view: `files`, with the cursor on `cur`, which is one of them unless there is none.
pub record Shows (p : Playlist) (files : List String) (cur : ℕ) : Type 0 where
  pub held : p.uri_arr ≡ slots files max_filenum
  pub counted : p.filenum ≡ length files
  pub fits : length files ≤ max_filenum
  pub current : p.cur_idx ≡ pos cur
  pub inside : cur ≤ length files - 1

pub set-slots :
    (files : List String) (n : ℕ) (uri : String)
    → length files < n
    → set (slots files n) (length files) (some uri) ≡ slots (files ++ uri ∷ []) n
set-slots [] zero uri h = absurd (omega arith)
set-slots [] (suc n) uri h = refl
set-slots (f ∷ fs) zero uri h = absurd (omega arith)
set-slots (f ∷ fs) (suc n) uri h = ap (◌∷◌ (some f)) (set-slots fs n uri (omega arith))

get_elem?-slots :
    (files : List String) (n i : ℕ)
    → length files ≤ n
    → i < length files
    → (f : String) × (get_elem? files i ≡ some f) × (get_elem? (slots files n) i ≡ some (some f))
get_elem?-slots [] n i fits h = absurd (omega arith)
get_elem?-slots (f ∷ fs) zero i fits h = absurd (omega arith)
get_elem?-slots (f ∷ fs) (suc n) zero fits h = (f, refl, refl)
get_elem?-slots (f ∷ fs) (suc n) (suc i) fits h = get_elem?-slots fs n i (omega arith) (omega arith)

get_elem?_past : (files : List String) (i : ℕ) → length files ≤ i → get_elem? files i ≡ none
get_elem?_past [] i h = refl
get_elem?_past (f ∷ fs) zero h = absurd (omega arith)
get_elem?_past (f ∷ fs) (suc i) h = get_elem?_past fs i (omega arith)

abbrev pub CreatesEmpty : Option Playlist → Type 0
CreatesEmpty none = ⊥
CreatesEmpty (some p) = Shows p [] 0

pub create_playlist-Shows : CreatesEmpty (create_playlist true)
unfolding create_playlist
create_playlist-Shows = record {
  held = refl;
  counted = refl;
  fits = omega arith;
  current = refl;
  inside = omega arith;
}

-- A playlist with a free slot takes one more file at its end, and the cursor stays.
pub append_playlist-Shows :
    (p : Playlist) (files : List String) (cur : ℕ) (uri : String)
    → Shows p files cur
    → length files < max_filenum
    → (q : Playlist) × (append_playlist p uri ≡ some q) × Shows q (files ++ uri ∷ []) cur
unfolding append_playlist
append_playlist-Shows p files cur uri v room = (
  record p { uri_arr = set p.uri_arr p.filenum (some uri); filenum = suc p.filenum },
  ground arith,
  record {
    held = simp (v.held, v.counted) (set-slots files max_filenum uri room);
    counted = omega (arith, length-append files (uri ∷ []));
    fits = omega (arith, length-append files (uri ∷ []));
    current = v.current;
    inside = omega (arith, length-append files (uri ∷ []));
  },
)

at_index :
    (p : Playlist) (files : List String) (cur : ℕ)
    → Shows p files cur
    → (i : ℕ) → get_playlist_uri p (pos i) ≡ get_elem? files i
unfolding get_playlist_uri
at_index p files cur v i = elim (Bool-cases (ltb i (length files))) [
  | inl inside ↦
      let (f, e, d) = get_elem?-slots files max_filenum i v.fits (ltb→lt i (length files) inside) in
      ground (arith, v.held, d, e)
  | inr past ↦ ground (arith, get_elem?_past files i)
]

-- The uri at an index is the file with that number; a negative index and one past the last file
-- give NULL.
pub get_playlist_uri_lem :
    (p : Playlist) (files : List String) (cur : ℕ)
    → Shows p files cur
    → ((i : ℕ) → get_playlist_uri p (pos i) ≡ get_elem? files i)
      × ((i : ℕ) → get_playlist_uri p (negsuc i) ≡ none)
unfolding get_playlist_uri
get_playlist_uri_lem p files cur v = (λ i. at_index p files cur v i, λ i. refl)

-- In a playlist with files, the unguarded read of the current uri is inside the array and finds
-- the file at the cursor.
pub get_playlist_current_uri_lem :
    (p : Playlist) (files : List String) (cur : ℕ)
    → Shows p files cur
    → 0 < length files
    → (f : String) × (get_elem? files cur ≡ some f) × (get_playlist_current_uri p ≡ some (some f))
unfolding get_playlist_current_uri
get_playlist_current_uri_lem p files cur v some_file =
    let (f, e, d) = get_elem?-slots files max_filenum cur v.fits (omega (arith, v.inside)) in
    (f, e, simp (v.current, v.held) d)

moved :
    (p : Playlist) (files : List String) (cur : ℕ)
    → Shows p files cur
    → (i : ℕ) → i < length files
    → Shows (set_playlist_cur_idx p (pos i)) files i
unfolding set_playlist_cur_idx
moved p files cur v i h =
    let e : set_playlist_cur_idx p (pos i) ≡ record p { cur_idx = pos i } = ground arith in
    rw e (record {
      held = v.held;
      counted = v.counted;
      fits = v.fits;
      current = refl;
      inside = omega arith;
    })

-- The cursor moves to any file, and to nothing else: the write of another index is refused.
pub set_playlist_cur_idx-Shows :
    (p : Playlist) (files : List String) (cur : ℕ)
    → Shows p files cur
    → ((i : ℕ) → i < length files → Shows (set_playlist_cur_idx p (pos i)) files i)
      × ((i : ℕ) → length files ≤ i → set_playlist_cur_idx p (pos i) ≡ p)
      × ((i : ℕ) → set_playlist_cur_idx p (negsuc i) ≡ p)
unfolding set_playlist_cur_idx
set_playlist_cur_idx-Shows p files cur v =
    (λ i h. moved p files cur v i h, λ i h. ground arith, λ i. refl)
