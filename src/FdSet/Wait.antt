-- ===== src/FdSet/Wait.antt =====
-- `wait_fd` of src/server/utils/fd_set.c: the descriptors of a thread for which `pselect` waits.
use odroid_player.Prelude.{ℤ, pos, ltb_ℤ, succ_ℤ, Bool, not, ◌&&◌, if◌then◌else◌}
use odroid_player.FdSet.{FdSet}
use odroid_player.Player.{Player, get_player_running}

pub data Wait : Type 0 where
  read_wait write_wait : Wait

-- The answer of `pselect`: its value, whether `errno` is EINTR, and the set as it leaves it.
pub record Selected : Type 0 where
  pub ret : ℤ
  pub interrupted : Bool
  pub left : FdSet

-- The set that a thread watches, and the number of descriptors to look at.
abbrev watched : Wait → Player → ℤ × FdSet
watched read_wait player = (succ_ℤ player.serv_maxfd, player.serv_set)
watched write_wait player = (succ_ℤ player.strm_maxfd, player.strm_set)

-- The value, and the set that is left. `woken` is the player when `pselect` has returned.
unfoldable pub wait_fd : (ℤ → FdSet → Selected) → Wait → Player → Player → ℤ × FdSet
wait_fd pselect type player woken =
    let (nfds, fds) = watched type player in
    let selected = pselect nfds fds in
    (
      if ltb_ℤ selected.ret (pos 0) && not selected.interrupted
          then pos 0
          else if not (get_player_running woken)
          then pos 0
          else selected.ret,
      selected.left,
    )
