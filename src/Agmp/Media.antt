-- ===== src/Agmp/Media.antt =====
-- `create_agmp_info` and `display_media_info` of src/server/agmp/agmp_utils.c: what is printed of the
-- tracks of a file. What the GStreamer back end says of the tracks is an argument.
use odroid_player.Prelude.{
  ℕ, zero, suc, ◌+◌, ◌≡◌, refl, ap, ℤ, pos, negsuc, String, List, [], ◌∷◌, ◌++◌, length,
  length-append, Option, none, some, Bool, true, false,
}
use odroid_player.Playlist.{get_playlist_uri, get_playlist_cur_idx}
use odroid_player.Player.{Player}

pub record VideoInfo : Type 0 where
  pub track_id : ℤ
  pub codec : String
  pub container : String
  pub width : ℤ
  pub height : ℤ
  pub framerate : ℤ

pub record AudioInfo : Type 0 where
  pub track_id : ℤ
  pub codec : String
  pub container : String
  pub samples : ℤ
  pub channels : ℤ
  pub rate : ℕ

pub record TextInfo : Type 0 where
  pub track_id : ℤ
  pub codec : String
  pub lang : String

-- The back end: the answer of `malloc`, the numbers of tracks, and what the functions for a track
-- write over a record.
pub record AgmpApi : Type 0 where
  pub malloc_ok : Bool
  pub n_video : ℤ
  pub n_audio : ℤ
  pub n_text : ℤ
  pub video_info_func : ℕ → VideoInfo → VideoInfo
  pub audio_info_func : ℕ → AudioInfo → AudioInfo
  pub text_info_func : ℕ → TextInfo → TextInfo
  pub duration : ℤ

pub record AgmpInfo : Type 0 where
  pub n_video : ℤ
  pub n_audio : ℤ
  pub n_text : ℤ
  pub video_info : VideoInfo
  pub audio_info : AudioInfo
  pub text_info : TextInfo
  pub duration : ℤ

unfoldable pub create_agmp_info : AgmpApi → Bool → Option AgmpInfo
create_agmp_info api false = none
create_agmp_info api true = some (record {
  n_video = api.n_video;
  n_audio = api.n_audio;
  n_text = api.n_text;
  video_info = record {
    track_id = pos 0;
    codec = "";
    container = "";
    width = pos 0;
    height = pos 0;
    framerate = pos 0;
  };
  audio_info = record {
    track_id = pos 0;
    codec = "";
    container = "";
    samples = pos 0;
    channels = pos 0;
    rate = 0;
  };
  text_info = record { track_id = pos 0; codec = ""; lang = "" };
  duration = api.duration;
})

-- The lines: the name of the file, NULL where there is none, and one for each track.
pub data MediaLine : Type 0 where
  file_line : Option String → MediaLine
  video_line : VideoInfo → MediaLine
  audio_line : AudioInfo → MediaLine
  text_line : ℤ → String → MediaLine

-- The loop over the tracks of a kind from `i` on, of which `left` are left; all are written over the
-- same record.
unfoldable pub track_loop {ℓ} :
    {A : Type ℓ} → (A → MediaLine) → (ℕ → A → A) → (left i : ℕ) → A → List MediaLine
track_loop line func zero i info = []
track_loop line func (suc left) i info =
    let filled = func i info in line filled ∷ track_loop line func left (suc i) filled

-- The turns of a loop up to an `int`.
abbrev pub turns_of : ℤ → ℕ
turns_of (pos n) = n
turns_of (negsuc n) = 0

unfoldable pub display_info : AgmpApi → Player → Option AgmpInfo → List MediaLine
unfolding track_loop
display_info api player none = []
display_info api player (some info) =
    file_line (get_playlist_uri player.playlist (get_playlist_cur_idx player.playlist))
    ∷ (track_loop video_line api.video_info_func (turns_of info.n_video) 0 info.video_info
        ++ (track_loop audio_line api.audio_info_func (turns_of info.n_audio) 0 info.audio_info
            ++ track_loop (λ t. text_line t.track_id t.lang) api.text_info_func
                (turns_of info.n_text) 0 info.text_info))

unfoldable pub display_media_info : AgmpApi → Player → List MediaLine
unfolding create_agmp_info display_info
display_media_info api player = display_info api player (create_agmp_info api api.malloc_ok)

length-track_loop {ℓ} :
    {A : Type ℓ} (line : A → MediaLine) (func : ℕ → A → A) (left i : ℕ) (info : A)
    → length (track_loop line func left i info) ≡ left
unfolding track_loop
length-track_loop line func zero i info = refl
length-track_loop line func (suc left) i info =
    ap (λ n. suc n) (length-track_loop line func left (suc i) (func i info))

-- With memory, one line is printed for the file and one for each of its tracks.
length-display_media_info :
    (api : AgmpApi) (player : Player)
    → api.malloc_ok ≡ true
    → length (display_media_info api player)
      ≡ suc (turns_of api.n_video + (turns_of api.n_audio + turns_of api.n_text))
unfolding display_media_info display_info create_agmp_info
length-display_media_info api player e = simp (e, length-append, length-track_loop)
