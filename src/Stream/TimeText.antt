-- ===== src/Stream/TimeText.antt =====
-- The numbers that `get_stream_time` of src/server/stream/stream.c writes.
use odroid_player.Prelude.{ℕ, ◌+◌, ◌*◌, ◌≤◌, ◌<◌, arith}
use odroid_player.Stream.{time_parts}

-- The text tells the time to a tenth of a second, rounded down: its parts are in range, and they
-- make up the position but for less than a tenth of a second.
pub time_parts_lem :
    (pos_ns : ℕ)
    → let t = time_parts pos_ns in
      let tenths = ((t.hour * 60 + t.minute) * 60 + t.second) * 10 + t.msecond in
      (t.minute < 60)
      × (t.second < 60)
      × (t.msecond < 10)
      × (tenths * 100000000 ≤ pos_ns)
      × (pos_ns < (tenths + 1) * 100000000)
unfolding time_parts
time_parts_lem pos_ns = omega arith
