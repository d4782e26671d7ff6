-- ===== src/Socket/Cleanup.antt =====
-- What is left of a socket of src/server/socket/socket.c when it could not be made, and which name is
-- found for one.
use odroid_player.Prelude.{
  ℕ, zero, suc, ◌+◌, ◌<◌, ◌≡◌, ◌⊎◌, ℤ, pos, ltb_ℤ, String, List, [], ◌∷◌, some, Bool, true, false,
  arith, subst, ap, ◌∙◌,
}
use odroid_player.Sys.{Call, close}
use odroid_player.Socket.{
  SocketWorld, SocketType, sock_stream, sock_dgram, create_socket_uds, create_socket_name,
}

-- When the names before some number are taken and that one is free, the name with that number is
-- found, on any fuel above their count.
pub create_socket_name_first :
    (k cnt fuel : ℕ) (name_of : ℕ → String) (exists : String → Bool)
    → ((j : ℕ) → j < k → exists (name_of (cnt + j)) ≡ true)
    → exists (name_of (cnt + k)) ≡ false
    → k < fuel
    → create_socket_name fuel (λ i. some (name_of i)) exists cnt ≡ some (some (name_of (cnt + k)))
unfolding create_socket_name
create_socket_name_first k cnt zero name_of exists taken free h = absurd (omega arith)
create_socket_name_first zero cnt (suc fuel) name_of exists taken free h =
    let here : exists (name_of cnt) ≡ false =
      subst (λ i. exists (name_of i) ≡ false) (omega arith) free in
    simp here (ap (λ i. some (some (name_of i))) (omega arith))
create_socket_name_first (suc k) cnt (suc fuel) name_of exists taken free h =
    let here : exists (name_of cnt) ≡ true =
      subst (λ i. exists (name_of i) ≡ true) (omega arith) (taken 0 (omega arith)) in
    simp here (
      create_socket_name_first k (suc cnt) fuel name_of exists
        (λ j l. subst (λ i. exists (name_of i) ≡ true) (omega arith) (taken (suc j) (omega arith)))
        (subst (λ i. exists (name_of i) ≡ false) (omega arith) free) (omega arith)
      ∙ ap (λ i. some (some (name_of i))) (omega arith))

-- The calls that close a descriptor.
abbrev pub closed_of : List Call → List ℤ
closed_of [] = []
closed_of (close fd ∷ calls) = fd ∷ closed_of calls
closed_of (_ ∷ calls) = closed_of calls

-- How a call of `create_socket_uds` ends: with no socket; with one that `bind` has refused, which
-- stays open; with one that is closed again; or with the descriptor.
abbrev pub Made : SocketWorld → SocketType → ℤ × List Call → Type 0
Made world type (fd, calls) =
    ((ltb_ℤ world.socket_fd (pos 0) ≡ true) × (fd ≡ pos 0) × (closed_of calls ≡ []))
    ⊎ (((ltb_ℤ world.socket_fd (pos 0) ≡ false)
          × (ltb_ℤ world.bound (pos 0) ≡ true)
          × (fd ≡ pos 0)
          × (closed_of calls ≡ []))
        ⊎ (((ltb_ℤ world.bound (pos 0) ≡ false)
              × (fd ≡ pos 0)
              × (closed_of calls ≡ world.socket_fd ∷ []))
            ⊎ ((ltb_ℤ world.bound (pos 0) ≡ false)
                × (ltb_ℤ world.chmodded (pos 0) ≡ false)
                × (type ≡ sock_stream → ltb_ℤ world.listening (pos 0) ≡ false)
                × (fd ≡ world.socket_fd)
                × (closed_of calls ≡ []))))

-- Of the four ways in which `create_socket_uds` fails, only that of `bind` leaves the socket open; it
-- gives the descriptor when the three or, for a stream, four calls have succeeded.
pub create_socket_uds-Made :
    (world : SocketWorld) (type : SocketType) (path : String)
    → Made world type (create_socket_uds world type path)
unfolding create_socket_uds
create_socket_uds-Made world sock_stream path = ground arith
create_socket_uds-Made world sock_dgram path = ground arith
