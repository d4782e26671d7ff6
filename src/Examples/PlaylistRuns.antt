-- ===== src/Examples/PlaylistRuns.antt =====
-- A run of the theorem on `prepare_player` of src/server/player/player.c.
use odroid_player.Prelude.{refl, pos, String, List, [], none, true, false, replicate, arith}
use odroid_player.Playlist.Valid.{Shows}
use odroid_player.Player.{Player}
use odroid_player.Startup.{FileApi}
use odroid_player.Examples.{ready_player}

-- A player as `create_player` leaves it, with no file.
abbrev pub empty_player : Player
empty_player = record (ready_player 0) {
  playlist = record { uri_arr = replicate 128 none; filenum = 0; cur_idx = pos 0 };
}

pub empty_player-Shows : Shows empty_player.playlist [] 0
empty_player-Shows = record {
  held = refl;
  counted = refl;
  fits = omega arith;
  current = refl;
  inside = omega arith;
}

abbrev many : List String
many = replicate 129 "x.mp4"

abbrev all_there : FileApi
all_there = record { access = λ f. true; is_option = λ f. false; uri_of = λ f. f }
