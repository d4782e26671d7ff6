-- ===== src/Pool/Streams.antt =====
-- `create_client_stream` of src/server/client/client.c: a stream for a client of the pool.
use odroid_player.Prelude.{
  ℕ, suc, ◌≡◌, refl, sym, ap, ◌∙◌, inr, ℤ, pos, String, List, [], ◌∷◌, ◌++◌, none, some, true,
  false, arith, map, leb-suc-zero, eq_ℤ_iff,
}
use odroid_player.Sys.{Call, unlink, free_path}
use odroid_player.Pool.{
  Client, ClientPool, find_client_fd, find_stream_fd, by_fd, fd_of, client_at, find_client_index,
}
use odroid_player.Pool.Search.{replace}
use odroid_player.Pool.Slots.{
  member, Distinct-replace, All-replace, length-replace, find_slot-passes, map-replace_same,
  occupied-replace_same, find_slot-replace_self, find_slot-replace_other,
}
use odroid_player.Pool.Change.{
  SocketApi, sock_dgram, create_client_stream, new_stream, drop_path, write_slot,
}
use odroid_player.Pool.Index.{found_index, at_index, write_at_index}
use odroid_player.Pool.Valid.{IsValid, IsSlot, client_of, SameOthers}

-- `create_client_stream` at the descriptor of a client: what was there is dropped first.
pub create_client_stream_lem :
    (api : SocketApi) (n : ℕ) (pool : ClientPool) (c : Client)
    → IsValid pool
    → client_of pool (pos (suc n)) ≡ some c
    → create_client_stream api (pos (suc n)) pool ≡ (
        let (made, p, calls) =
          new_stream api pool (find_client_index (pos (suc n)) pool find_client_fd) in
        (made, p, drop_path c.server_stream_path ++ (drop_path c.client_stream_path ++ calls)))
unfolding create_client_stream
create_client_stream_lem api n pool c v found = rw (
  leb-suc-zero n,
  found_index find_client_fd n pool c v.sized found,
  at_index find_client_fd n pool c v.sized found,
)

-- The client with a new stream, for which no function is set yet.
abbrev pub with_stream : Client → ℤ → String → String → Client
with_stream c fd server client = record c {
  stream_fd = fd;
  server_stream_path = some server;
  client_stream_path = some client;
  stream_func = none;
}

pub new_stream_made :
    (api : SocketApi) (m : ℕ) (server client : String) (pool : ClientPool) (idx : ℤ)
    → api.create_socket_name "ops_stream" ≡ some server
    → api.create_socket_name "opc_stream" ≡ some client
    → api.create_socket_uds sock_dgram server ≡ pos (suc m)
    → new_stream api pool idx ≡ (
      true,
      write_slot pool idx (with_stream (client_at pool idx) (pos (suc m)) server client),
      [],
    )
unfolding new_stream
new_stream_made api m server client pool idx e f g = ground arith

pub new_stream_failed :
    (api : SocketApi) (pool : ClientPool) (idx : ℤ)
    → (new_stream api pool idx).0 ≡ false
    → (new_stream api pool idx).1 ≡ pool
unfolding new_stream
new_stream_failed api pool idx h = ground arith

rewritten :
    (n m : ℕ) (server client : String) (pool : ClientPool) (c : Client)
    → IsValid pool
    → client_of pool (pos (suc n)) ≡ some c
    → member (pos (suc m)) (map (fd_of find_stream_fd) pool.client_arr) ≡ false
    → let w = with_stream c (pos (suc m)) server client in
      let p = record pool {
        client_arr = replace (by_fd find_client_fd (pos (suc n))) w pool.client_arr;
      } in
      IsValid p × (client_of p (pos (suc n)) ≡ some w) × SameOthers n pool p
rewritten n m server client pool c v found unused =
    let w = with_stream c (pos (suc m)) server client in
    let test = by_fd find_client_fd (pos (suc n)) in
    let has : test c ≡ true = find_slot-passes test pool.client_arr c found in
    (
      record {
        sized = length-replace test w pool.client_arr ∙ v.sized;
        counted =
            v.counted ∙ ap pos (sym (occupied-replace_same test w c pool.client_arr found refl));
        slots =
            All-replace IsSlot test w pool.client_arr
              (inr (ground (arith, eq_ℤ_iff c.client_fd (pos (suc n)))), inr (ground arith))
              v.slots;
        fds =
            rw (map-replace_same (fd_of find_client_fd) test w c pool.client_arr found refl) v.fds;
        streams =
            Distinct-replace (fd_of find_stream_fd) test w pool.client_arr (inr unused) v.streams;
      },
      find_slot-replace_self test w c pool.client_arr found has,
      λ k ne.
          find_slot-replace_other test _ w pool.client_arr
            (ground (arith, eq_ℤ_iff c.client_fd (pos (suc n))))
            (λ x h. ground (arith, eq_ℤ_iff x.client_fd (pos (suc n)))),
    )

-- With two names and a new socket at hand, a client of a valid pool gets a stream with these names:
-- the pool stays valid, the client is otherwise what it was, and so is every other client.
pub create_client_stream-IsValid :
    (api : SocketApi) (n m : ℕ) (server client : String) (pool : ClientPool) (c : Client)
    → IsValid pool
    → client_of pool (pos (suc n)) ≡ some c
    → api.create_socket_name "ops_stream" ≡ some server
    → api.create_socket_name "opc_stream" ≡ some client
    → api.create_socket_uds sock_dgram server ≡ pos (suc m)
    → member (pos (suc m)) (map (fd_of find_stream_fd) pool.client_arr) ≡ false
    → let (made, p, calls) = create_client_stream api (pos (suc n)) pool in
      (made ≡ true)
      × IsValid p
      × (client_of p (pos (suc n)) ≡ some (with_stream c (pos (suc m)) server client))
      × SameOthers n pool p
create_client_stream-IsValid api n m server client pool c v found e f g unused =
    let (ok, at, same) = rewritten n m server client pool c v found unused in
    rw
      (
        create_client_stream_lem api n pool c v found,
        new_stream_made api m server client pool _ e f g,
        at_index find_client_fd n pool c v.sized found,
        write_at_index find_client_fd n pool c (with_stream c (pos (suc m)) server client) v.sized
            found,
      )
      (refl, ok, at, same)

-- A stream that is created anew and fails leaves a dangling path: the old server path is freed,
-- and the slot still holds it.
pub create_client_stream_dangling :
    (api : SocketApi) (n : ℕ) (path : String) (pool : ClientPool) (c : Client)
    → IsValid pool
    → client_of pool (pos (suc n)) ≡ some c
    → c.server_stream_path ≡ some path
    → (create_client_stream api (pos (suc n)) pool).0 ≡ false
    → let (made, p, calls) = create_client_stream api (pos (suc n)) pool in
      (client_of p (pos (suc n)) ≡ some c)
      × ((rest : List Call) × (calls ≡ unlink path ∷ free_path path ∷ rest))
create_client_stream_dangling api n path pool c v found held failed =
    let drop = create_client_stream_lem api n pool c v found in
    let made = new_stream api pool (find_client_index (pos (suc n)) pool find_client_fd) in
    let kept = new_stream_failed api pool _ (ap (λ r. r.0) (sym drop) ∙ failed) in
    rw drop (
      ap (λ p. client_of p (pos (suc n))) kept ∙ found,
      (_, ap (λ s. drop_path s ++ (drop_path c.client_stream_path ++ made.2)) held),
    )
