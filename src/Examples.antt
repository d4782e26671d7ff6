-- ===== src/Examples.antt =====
-- The data on which the theorems are run: a playlist of three files, players that play and that
-- wait, and a pool of two clients. The runs stand in the modules below.
pub mod QueueRuns
pub mod PlaylistRuns
pub mod PoolRuns
pub mod PlayerRuns
pub mod ServerRuns
pub mod SystemRuns
pub mod ThreadRuns
pub mod ResponseRuns
pub mod OpcRuns
pub mod ConnectionRuns
pub mod ReceiverRuns
pub mod ExchangeRuns
pub mod ClientRuns
pub mod StartRuns
use odroid_player.Prelude.{
  ℕ, ◌≡◌, refl, inl, inr, ℤ, pos, minus_one, String, List, [], ◌∷◌, Option, none, some, true, false,
  replicate, arith, ◌++◌,
}
use odroid_player.Playlist.{Playlist, max_filenum}
use odroid_player.Playlist.Valid.{Shows, slots}
use odroid_player.Pool.{Client, ClientPool, empty_client}
use odroid_player.Pool.Valid.{IsValid}
use odroid_player.Send.{Net}
use odroid_player.FdSet.{FdSet}
use odroid_player.Player.{Player, Timeval, zero_time, play_cmd_none}

abbrev pub three_files : List String
three_files = "a.mp4" ∷ "b.mp4" ∷ "c.mp4" ∷ []

-- The playlist of the files with its cursor on one of them.
abbrev pub list_at : ℕ → Playlist
list_at cur = record { uri_arr = slots three_files max_filenum; filenum = 3; cur_idx = pos cur }

pub list_at_first : Shows (list_at 0) three_files 0
list_at_first = record {
  held = refl;
  counted = refl;
  fits = omega arith;
  current = refl;
  inside = omega arith;
}

pub list_at_second : Shows (list_at 1) three_files 1
list_at_second = record {
  held = refl;
  counted = refl;
  fits = omega arith;
  current = refl;
  inside = omega arith;
}

pub list_at_last : Shows (list_at 2) three_files 2
list_at_last = record {
  held = refl;
  counted = refl;
  fits = omega arith;
  current = refl;
  inside = omega arith;
}

abbrev pub streaming_client : Client
streaming_client = record {
  client_id = pos 0;
  client_fd = pos 5;
  stream_fd = pos 9;
  server_stream_path = some "/tmp/ops_stream";
  client_stream_path = some "/tmp/opc_stream";
  stream_func = none;
}

abbrev pub plain_client : Client
plain_client = record empty_client { client_id = pos 1; client_fd = pos 6 }

abbrev pub two_clients : ClientPool
two_clients = record {
  client_arr = streaming_client ∷ plain_client ∷ replicate 6 empty_client;
  client_cnt = pos 2;
}

pub two_clients-IsValid : IsValid two_clients
two_clients-IsValid = record {
  sized = refl;
  counted = refl;
  slots = ground arith;
  fds = ground arith;
  streams = ground arith;
}

-- The first of two clients has left: its slot is free, and the other client stands behind it.
abbrev pub second_only : ClientPool
second_only = record {
  client_arr = empty_client ∷ plain_client ∷ replicate 6 empty_client;
  client_cnt = pos 1;
}

pub second_only-IsValid : IsValid second_only
second_only-IsValid = record {
  sized = refl;
  counted = refl;
  slots = ground arith;
  fds = ground arith;
  streams = ground arith;
}

abbrev pub client_on : ℕ → Client
client_on fd = record empty_client { client_id = pos fd; client_fd = pos fd }

abbrev pub eight_clients : ClientPool
eight_clients = record {
  client_arr =
      client_on 5
      ∷ client_on 6
      ∷ client_on 7
      ∷ client_on 8
      ∷ client_on 9
      ∷ client_on 10
      ∷ client_on 11
      ∷ client_on 12
      ∷ [];
  client_cnt = pos 8;
}

pub eight_clients-IsValid : IsValid eight_clients
eight_clients-IsValid = record {
  sized = refl;
  counted = refl;
  slots = ground arith;
  fds = ground arith;
  streams = ground arith;
}

abbrev pub good_net : Net
good_net = record {
  arr_ok = true;
  data_ok = true;
  buf_ok = true;
  length_sent = λ fd. pos 4;
  packed_sent = λ fd. pos 16;
}

abbrev pub no_fds : FdSet
no_fds fd = false

-- A player between two files, with its cursor on one.
abbrev pub ready_player : ℕ → Player
ready_player cur = record {
  playlist = list_at cur;
  client_pool = two_clients;
  queue = record { nodes = []; size = 0; running = true };
  serv_thread_id = 1;
  resp_thread_id = 2;
  strm_thread_id = 3;
  wtdg_thread_id = 4;
  play_thread_id = 5;
  running = true;
  loop = false;
  serv_set = no_fds;
  strm_set = no_fds;
  serv_maxfd = pos 0;
  strm_maxfd = pos 0;
  prev_resp = none;
  child_pid = pos 0;
  child_paused = false;
  child_stopped = false;
  child_start_time = zero_time;
  paused_offset_us = pos 0;
  pause_started = zero_time;
  pending_command = play_cmd_none;
  log_level = pos 0;
}

abbrev pub at_time : ℕ → Timeval
at_time s = record { tv_sec = pos s; tv_usec = pos 250000 }

-- The player while its child 700 plays, since the time 100.25.
abbrev pub busy_player : ℕ → Player
busy_player cur = record (ready_player cur) { child_pid = pos 700; child_start_time = at_time 100 }

-- The player after a STOP, asleep.
abbrev pub stopped_player : Player
stopped_player = record (ready_player 1) { child_stopped = true }
