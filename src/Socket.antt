-- ===== src/Socket.antt =====
-- src/server/socket/socket.c: the sockets of the server and the names of those of its streams. The
-- answers of the system are arguments.
pub mod Cleanup
use odroid_player.Prelude.{
  ℕ, zero, suc, ℤ, pos, ltb_ℤ, String, List, [], ◌∷◌, ◌++◌, Option, none, some, Bool, true, false,
  if◌then◌else◌,
}
use odroid_player.Sys.{Call, close, unlink}

pub data SocketType : Type 0 where
  sock_stream sock_dgram : SocketType

-- The answers of `socket`, `bind`, `chmod` and `listen`.
pub record SocketWorld : Type 0 where
  pub socket_fd : ℤ
  pub bound : ℤ
  pub chmodded : ℤ
  pub listening : ℤ

abbrev listens : SocketType → Bool
listens sock_stream = true
listens sock_dgram = false

-- The descriptor, or 0 after a failure, and the calls that undo something.
unfoldable pub create_socket_uds : SocketWorld → SocketType → String → ℤ × List Call
create_socket_uds world type path =
    let undone = unlink path ∷ unlink path ∷ close world.socket_fd ∷ [] in
    let listened =
      if ltb_ℤ world.listening (pos 0)
      then (pos 0, undone)
      else (world.socket_fd, unlink path ∷ []) in
    if ltb_ℤ world.socket_fd (pos 0)
    then (pos 0, [])
    else if ltb_ℤ world.bound (pos 0)
    then (pos 0, unlink path ∷ [])
    else if ltb_ℤ world.chmodded (pos 0)
    then (pos 0, undone)
    else if listens type
    then listened
    else (world.socket_fd, unlink path ∷ [])

-- The loop over the names, numbered by `cnt`: `name_of` is the text that `snprintf` makes, `none`
-- where it fails, and `exists` the answer of `access`. The files that exist bound it; without fuel
-- there is no result.
unfoldable pub create_socket_name :
    ℕ → (ℕ → Option String) → (String → Bool) → ℕ → Option (Option String)
create_socket_name zero name_of exists cnt = none
create_socket_name (suc fuel) name_of exists cnt =
    let again = create_socket_name fuel name_of exists (suc cnt) in
    elim (name_of cnt) [
      | none ↦ some none
      | some buffer ↦ if exists buffer then again else some (some buffer)
    ]
