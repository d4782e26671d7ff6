-- ===== src/Pool/Change.antt =====
-- src/server/client/client.c: the operations that change the pool of clients. Each returns the new pool
-- and the calls that it makes, in order. The two functions of src/server/socket/socket.c that a new
-- stream needs come as the record `SocketApi`.
use odroid_player.Prelude.{
  ℕ, zero, suc, ℤ, pos, negsuc, ltb_ℤ, leb_ℤ, eq_ℤ, succ_ℤ, pred_ℤ, String, List, [], ◌∷◌, ◌++◌,
  Option, none, some, Bool, true, false, not, leb, if◌then◌else◌, set,
}
use odroid_player.Sys.{Call, close, unlink, free_path, set_timeout}
use odroid_player.Pool.{
  Client, ClientPool, StreamFunc, find_client_fd, find_stream_fd, max_clients, client_timeout,
  empty_client, first_index, by_fd, client_at, find_client, find_client_index, get_client_stream_fd,
  check_stream_alive,
}

pub data SockType : Type 0 where
  sock_stream sock_dgram : SockType

pub record SocketApi : Type 0 where
  pub create_socket_name : String → Option String
  -- The descriptor of a bound socket, or 0.
  pub create_socket_uds : SockType → String → ℤ

-- A write to the slot at an index; no caller writes at a negative one.
abbrev pub write_slot : ClientPool → ℤ → Client → ClientPool
write_slot pool (pos i) c = record pool { client_arr = set pool.client_arr i c }
write_slot pool (negsuc i) c = pool

unfoldable pub add_client : ℤ → ℤ → ClientPool → Bool × ClientPool × List Call
add_client client_id client_fd pool =
    let idx = first_index (by_fd find_client_fd (pos 0)) pool.client_arr 0 in
    if leb max_clients idx then (false, pool, []) else (
      true,
      record pool {
        client_arr =
            set pool.client_arr idx
              (record empty_client { client_id = client_id; client_fd = client_fd });
        client_cnt = succ_ℤ pool.client_cnt;
      },
      set_timeout client_fd client_timeout ∷ set_timeout client_fd client_timeout ∷ [],
    )

-- `unlink` and `free` of a path, if there is one.
abbrev pub drop_path : Option String → List Call
drop_path none = []
drop_path (some path) = unlink path ∷ free_path path ∷ []

abbrev pub without_stream : Client → Client
without_stream c = record c {
  stream_fd = pos 0;
  server_stream_path = none;
  client_stream_path = none;
}

unfoldable pub remove_client_stream : ℤ → ClientPool → ClientPool × List Call
remove_client_stream stream_fd pool =
    let idx = find_client_index stream_fd pool find_stream_fd in
    let c = client_at pool idx in
    if leb_ℤ stream_fd (pos 0)
    then (pool, [])
    else if ltb_ℤ idx (pos 0)
    then (pool, [])
    else if not (check_stream_alive stream_fd pool)
    then (pool, [])
    else (
      write_slot pool idx (without_stream c),
      close stream_fd ∷ (drop_path c.server_stream_path ++ drop_path c.client_stream_path),
    )

-- The last critical section of `remove_client`, which takes the index that was found before it.
abbrev pub remove_at : ℤ → ℤ → ClientPool → ClientPool × List Call
remove_at idx client_fd pool = (
  write_slot (record pool { client_cnt = pred_ℤ pool.client_cnt }) idx empty_client,
  close client_fd ∷ [],
)

unfoldable pub remove_client : ℤ → ClientPool → ClientPool × List Call
remove_client client_fd pool =
    let idx = find_client_index client_fd pool find_client_fd in
    let (p, calls) = remove_client_stream (get_client_stream_fd client_fd pool) pool in
    let (q, closed) = remove_at idx client_fd p in
    if leb_ℤ client_fd (pos 0)
    then (pool, [])
    else if ltb_ℤ idx (pos 0)
    then (pool, [])
    else (q, calls ++ closed)

-- The loop of `clear_client_pool` over the indices from `i` on.
clear_from : ℕ → ℕ → ClientPool → ClientPool × List Call
clear_from zero i pool = (pool, [])
clear_from (suc left) i pool =
    let client_fd = find_client (pos i) pool in
    let removed = remove_client client_fd pool in
    let now = if leb_ℤ client_fd (pos 0) then (pool, []) else removed in
    let rest = clear_from left (suc i) now.0 in (rest.0, now.1 ++ rest.1)

unfoldable pub clear_client_pool : ClientPool → ClientPool × List Call
unfolding clear_from
clear_client_pool pool = clear_from max_clients 0 pool

-- The new names and the new socket; a failure gives up what was made so far, and leaves the slot
-- as it was.
unfoldable pub new_stream : SocketApi → ClientPool → ℤ → Bool × ClientPool × List Call
new_stream api pool idx = elim (api.create_socket_name "ops_stream") [
  | none ↦ (false, pool, [])
  | some server_socket ↦ elim (api.create_socket_name "opc_stream") [
    | none ↦ (false, pool, free_path server_socket ∷ [])
    | some client_socket ↦
        let stream_fd = api.create_socket_uds sock_dgram server_socket in
        if eq_ℤ stream_fd (pos 0)
        then (false, pool, free_path server_socket ∷ free_path client_socket ∷ [])
        else (
          true,
          write_slot pool idx (record (client_at pool idx) {
            stream_fd = stream_fd;
            server_stream_path = some server_socket;
            client_stream_path = some client_socket;
            stream_func = none;
          }),
          [],
        )
  ]
]

unfoldable pub create_client_stream : SocketApi → ℤ → ClientPool → Bool × ClientPool × List Call
create_client_stream api client_fd pool =
    let idx = find_client_index client_fd pool find_client_fd in
    let c = client_at pool idx in
    let (made, p, calls) = new_stream api pool idx in
    if leb_ℤ client_fd (pos 0)
    then (false, pool, [])
    else if ltb_ℤ idx (pos 0)
    then (false, pool, [])
    else (made, p, drop_path c.server_stream_path ++ (drop_path c.client_stream_path ++ calls))

unfoldable pub set_client_stream_func : ℤ → Option StreamFunc → ClientPool → Bool × ClientPool
set_client_stream_func client_fd func pool =
    let idx = find_client_index client_fd pool find_client_fd in
    if ltb_ℤ idx (pos 0)
    then (false, pool)
    else (true, write_slot pool idx (record (client_at pool idx) { stream_func = func }))
