-- ===== src/FdSet.antt =====
-- src/server/utils/fd_set.c: the descriptors that `pselect` watches. A `fd_set` is the test of its
-- members; `FD_SET`, `FD_CLR` and `FD_ISSET` are the set operations that their manual describes.
pub mod Wait
use odroid_player.Prelude.{
  ◌≡◌, ◌≤ℤ◌, ℤ, pos, ltb_ℤ, leb_ℤ, eq_ℤ, eq_ℤ_iff, Bool, true, false, not, ◌&&◌, arith,
  if◌then◌else◌,
}

abbrev pub FdSet : Type 0
FdSet = ℤ → Bool

unfoldable pub set_fd : ℤ → FdSet → FdSet
set_fd fd s g = if eq_ℤ g fd then true else s g

unfoldable pub unset_fd : ℤ → FdSet → FdSet
unset_fd fd s g = if eq_ℤ g fd then false else s g

unfoldable pub fd_ready : ℤ → FdSet → Bool
fd_ready fd s = s fd

unfoldable pub init_set : FdSet
init_set g = false

pub data Update : Type 0 where
  update_client_add update_client_remove : Update

-- The new `*maxfd` and the new set.
unfoldable pub update_fd_set : ℤ → ℤ → FdSet → Update → ℤ × FdSet
update_fd_set fd maxfd s flag = if leb_ℤ fd (pos 0) then (maxfd, s) else (elim flag [
  | update_client_add ↦ (if ltb_ℤ maxfd fd then fd else maxfd, set_fd fd s)
  | update_client_remove ↦ (maxfd, unset_fd fd s)
])

-- Every member lies below `maxfd + 1`, the range that `pselect` looks at.
abbrev pub Covers : ℤ → FdSet → Type 0
Covers maxfd s = (g : ℤ) → s g ≡ true → g ≤ℤ maxfd

-- An update keeps the range: a new descriptor raises `maxfd` if it must.
pub update_fd_set-Covers :
    (fd maxfd : ℤ) (s : FdSet) (flag : Update)
    → Covers maxfd s
    → let (m, t) = update_fd_set fd maxfd s flag in Covers m t
unfolding update_fd_set set_fd unset_fd
update_fd_set-Covers fd maxfd s update_client_add h g member = ground (arith, h g, eq_ℤ_iff g fd)
update_fd_set-Covers fd maxfd s update_client_remove h g member = ground (arith, h g, eq_ℤ_iff g fd)
