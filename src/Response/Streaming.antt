-- ===== src/Response/Streaming.antt =====
-- What a request for a stream does in src/server/response/response.c: the stream that it makes, and
-- what it tells the client.
use odroid_player.Prelude.{
  ℕ, suc, minus_one, ◌≡◌, refl, sym, subst, ap, ◌∙◌, pos, ltb_ℤ, String, [], ◌∷◌, none, some, true,
  false, map, leb-suc-zero,
}
use odroid_player.Message.{success, stream, time, Node}
use odroid_player.Pool.{
  Client, ClientPool, get_stream_time, find_client_fd, find_stream_fd, by_fd, fd_of, has_stream,
  read_slot, get_client_stream_fd, get_server_stream_path, get_client_stream_path,
  check_stream_is_set,
}
use odroid_player.Pool.Search.{IsSized, or_missing, read_slot_lem}
use odroid_player.Pool.Slots.{member, find_slot-passes, find_slot-replace_self}
use odroid_player.Pool.Change.{SocketApi, sock_dgram, create_client_stream, set_client_stream_func}
use odroid_player.Pool.Index.{found_index, at_index, write_at_index}
use odroid_player.Pool.Valid.{IsValid, client_of}
use odroid_player.Pool.Streams.{with_stream, create_client_stream-IsValid}
use odroid_player.Player.{Player}
use odroid_player.Stream.{set_new_stream, trigger_stream}
use odroid_player.Response.{World, Executed, execute_typed, execute_stream, execute_command}

-- A getter reads the client that has the descriptor.
read_of {ℓ} :
    {A : Type ℓ} (missing : A) (field : Client → A) (n : ℕ) (pool : ClientPool) (c : Client)
    → IsSized pool
    → client_of pool (pos (suc n)) ≡ some c
    → read_slot find_client_fd missing field (pos (suc n)) pool ≡ field c
read_of missing field n pool c sized e =
    read_slot_lem find_client_fd missing field n pool sized ∙ ap (or_missing missing field) e

-- The client whose stream is to send the time.
abbrev pub timed : Client → Client
timed c = record c { stream_func = some get_stream_time }

func_set :
    (n : ℕ) (pool : ClientPool) (c : Client)
    → IsSized pool
    → client_of pool (pos (suc n)) ≡ some c
    → client_of (set_client_stream_func (pos (suc n)) (some get_stream_time) pool).1 (pos (suc n))
      ≡ some (timed c)
unfolding set_client_stream_func
func_set n pool c sized found =
    let test = by_fd find_client_fd (pos (suc n)) in
    rw
      (
        found_index find_client_fd n pool c sized found,
        at_index find_client_fd n pool c sized found,
        write_at_index find_client_fd n pool c (timed c) sized found,
      )
      (find_slot-replace_self test (timed c) c pool.client_arr found
        (find_slot-passes test pool.client_arr c found))

-- `set_new_stream` for a client of the pool: the pool is the one of `create_client_stream`.
new_stream_set :
    (api : SocketApi) (player : Player) (n m : ℕ)
    → let (made, pool, calls) = create_client_stream api (pos (suc n)) player.client_pool in
      let result = set_new_stream api (pos (suc n)) player in
      (made ≡ true)
      → get_client_stream_fd (pos (suc n)) pool ≡ pos (suc m)
      → result.1.client_pool ≡ pool
unfolding set_new_stream
new_stream_set api player n m made has = rw (made, has, leb-suc-zero m) refl

-- The two answers of a client with a stream, and the stream that is set going.
answered_stream :
    (world : World) (node : Node) (player : Player) (n m : ℕ) (server client : String) (c : Client)
    → node.cmd ≡ time
    → node.client_fd ≡ pos (suc n)
    → check_stream_is_set (pos (suc n)) player.client_pool ≡ false
    → world.items_ok ≡ true
    → ltb_ℤ (pos 0) world.killed ≡ false
    → let result = set_new_stream world.api (pos (suc n)) player in
      let w = with_stream c (pos (suc m)) server client in
      let e = execute_stream world node player in
      IsSized result.1.client_pool
      → client_of result.1.client_pool (pos (suc n)) ≡ some w
      → (e.items ≡ some (some server ∷ some client ∷ []))
        × (e.status ≡ success)
        × (client_of (e.player).client_pool (pos (suc n)) ≡ some (timed w))
unfolding execute_stream trigger_stream get_server_stream_path get_client_stream_path
answered_stream world node player n m server client c is_time fd bare ok awake sized found =
    let p = (set_new_stream world.api (pos (suc n)) player).1 in
    let w = with_stream c (pos (suc m)) server client in
    rw
      (
        is_time,
        fd,
        bare,
        ok,
        awake,
        read_of none (λ x. x.server_stream_path) n p.client_pool w sized found,
        read_of none (λ x. x.client_stream_path) n p.client_pool w sized found,
      )
      (refl, refl, func_set n p.client_pool w sized found)

-- A client of a valid pool without a stream asks for the stream of the time, with two names, a new
-- socket and memory at hand: the command succeeds and answers with the two names, and the client has
-- a stream with this socket and these names that sends the time.
pub execute_command-stream :
    (world : World) (node : Node) (player : Player) (n m : ℕ) (server client : String) (c : Client)
    → node.type ≡ stream
    → node.cmd ≡ time
    → node.client_fd ≡ pos (suc n)
    → IsValid player.client_pool
    → client_of player.client_pool (pos (suc n)) ≡ some c
    → has_stream c ≡ false
    → world.api.create_socket_name "ops_stream" ≡ some server
    → world.api.create_socket_name "opc_stream" ≡ some client
    → world.api.create_socket_uds sock_dgram server ≡ pos (suc m)
    → member (pos (suc m)) (map (fd_of find_stream_fd) player.client_pool.client_arr) ≡ false
    → world.items_ok ≡ true
    → ltb_ℤ (pos 0) world.killed ≡ false
    → (e : Executed) × (execute_command world node player ≡ some e)
      × (e.items ≡ some (some server ∷ some client ∷ []))
      × (e.status ≡ success)
      × (client_of (e.player).client_pool (pos (suc n))
          ≡ some (timed (with_stream c (pos (suc m)) server client)))
unfolding execute_command execute_typed check_stream_is_set get_client_stream_fd
execute_command-stream world node player n m server client c type is_time fd v found bare e f g
      unused ok awake =
    let w = with_stream c (pos (suc m)) server client in
    let (made, valid, at, _) =
      create_client_stream-IsValid world.api n m server client player.client_pool c v found e f g
        unused in
    let pool = (create_client_stream world.api (pos (suc n)) player.client_pool).1 in
    let has = read_of minus_one (λ x. x.stream_fd) n pool w valid.sized at in
    let same = new_stream_set world.api player n m made has in
    let (items, status, last) =
      answered_stream world node player n m server client c is_time fd
        (read_of false has_stream n player.client_pool c v.sized found ∙ bare) ok awake
        (subst IsSized (sym same) valid.sized)
        (subst (λ p. client_of p (pos (suc n)) ≡ some w) (sym same) at) in
    (execute_stream world node player, rw type refl, items, status, last)
