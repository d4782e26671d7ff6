-- ===== src/Pool.antt =====
-- src/server/client/client.h and the lookups of src/server/client/client.c: the pool of connected clients.
-- `client_arr` is the list of its `max_clients` slots; a slot whose `client_fd` is 0 is free. Each
-- function is one critical section of `client_mutex` after its own lookup. The changes of the pool
-- are in Pool/Change.antt.
pub mod Change
pub mod Search
pub mod Slots
pub mod Index
pub mod Removal
pub mod Valid
pub mod Snapshot
pub mod Streams
pub mod Overlap
use odroid_player.Prelude.{
  ℕ, zero, suc, ℤ, pos, negsuc, minus_one, ltb_ℤ, leb_ℤ, eq_ℤ, is_pos, succ_ℤ, pred_ℤ, String, List,
  [], ◌∷◌, Option, none, some, Bool, true, false, not, ◌||◌, ltb, leb, if◌then◌else◌, get_or, take,
  replicate,
}

abbrev pub max_clients : ℕ
max_clients = 8

abbrev pub client_timeout : ℕ
client_timeout = 3

pub data FindType : Type 0 where
  find_client_fd find_stream_fd : FindType

-- The functions that a stream may run; the program has one.
pub data StreamFunc : Type 0 where
  get_stream_time : StreamFunc

pub record Client : Type 0 where
  pub client_id : ℤ
  pub client_fd : ℤ
  pub stream_fd : ℤ
  pub server_stream_path : Option String
  pub client_stream_path : Option String
  pub stream_func : Option StreamFunc

-- What `memset(.., 0, sizeof(t_client))` leaves.
abbrev pub empty_client : Client
empty_client = record {
  client_id = pos 0;
  client_fd = pos 0;
  stream_fd = pos 0;
  server_stream_path = none;
  client_stream_path = none;
  stream_func = none;
}

pub record ClientPool : Type 0 where
  pub client_arr : List Client
  pub client_cnt : ℤ

unfoldable pub create_client_pool : Bool → Option ClientPool
create_client_pool ok =
    if ok
    then some (record { client_arr = replicate max_clients empty_client; client_cnt = pos 0 })
    else none

unfoldable pub get_client_cnt : ClientPool → ℤ
get_client_cnt pool = pool.client_cnt

abbrev pub natural : ℤ → ℕ
natural (pos n) = n
natural (negsuc n) = 0

-- The copy of the first `client_cnt` slots, NULL for an empty pool or without memory.
unfoldable pub get_client_arr : Bool → ClientPool → Option (List Client)
get_client_arr ok pool =
    if leb_ℤ (get_client_cnt pool) (pos 0)
    then none
    else if ok
    then some (take (natural (get_client_cnt pool)) pool.client_arr)
    else none

-- `while (++idx < MAX_CLIENTS) { if (test) break; }`: the first index that passes, or the end.
unfoldable pub first_index : (Client → Bool) → List Client → ℕ → ℕ
first_index test [] idx = idx
first_index test (c ∷ cs) idx = if test c then idx else first_index test cs (suc idx)

abbrev pub fd_of : FindType → Client → ℤ
fd_of find_client_fd c = c.client_fd
fd_of find_stream_fd c = c.stream_fd

abbrev pub by_fd : FindType → ℤ → Client → Bool
by_fd find fd c = eq_ℤ (fd_of find c) fd

unfoldable pub find_client_index : ℤ → ClientPool → FindType → ℤ
find_client_index fd pool find =
    if leb_ℤ fd (pos 0)
    then minus_one
    else (let idx = first_index (by_fd find fd) pool.client_arr 0 in
        if leb max_clients idx then minus_one else pos idx)

-- The slot at an index; no caller asks for a negative one.
abbrev pub client_at : ClientPool → ℤ → Client
client_at pool (pos i) = get_or pool.client_arr i empty_client
client_at pool (negsuc i) = empty_client

unfoldable pub find_client : ℤ → ClientPool → ℤ
find_client index pool =
    if ltb_ℤ index (pos 0) || leb_ℤ (pos max_clients) index
    then minus_one
    else (client_at pool index).client_fd

unfoldable pub find_client_id : ℤ → ClientPool → ℤ
find_client_id index pool =
    if ltb_ℤ index (pos 0) || leb_ℤ (pos max_clients) index
    then minus_one
    else (client_at pool index).client_id

unfoldable pub find_stream : ℤ → ClientPool → ℤ
find_stream index pool =
    if ltb_ℤ index (pos 0) || leb_ℤ (pos max_clients) index
    then minus_one
    else (client_at pool index).stream_fd

-- The lookups by file descriptor share their guards: a bad descriptor or none found gives `missing`.
abbrev pub read_slot {ℓ} : {A : Type ℓ} → FindType → A → (Client → A) → ℤ → ClientPool → A
read_slot find missing field fd pool =
    if leb_ℤ fd (pos 0)
    then missing
    else (let idx = find_client_index fd pool find in
        if ltb_ℤ idx (pos 0) then missing else field (client_at pool idx))

unfoldable pub get_client_stream_fd : ℤ → ClientPool → ℤ
get_client_stream_fd = read_slot find_client_fd minus_one (λ c. c.stream_fd)

unfoldable pub get_client_stream_func : ℤ → ClientPool → Option StreamFunc
get_client_stream_func = read_slot find_client_fd none (λ c. c.stream_func)

unfoldable pub get_server_stream_path : ℤ → ClientPool → Option String
get_server_stream_path = read_slot find_client_fd none (λ c. c.server_stream_path)

unfoldable pub get_client_stream_path : ℤ → ClientPool → Option String
get_client_stream_path = read_slot find_client_fd none (λ c. c.client_stream_path)

unfoldable pub check_client_alive : ℤ → ClientPool → Bool
check_client_alive = read_slot find_client_fd false (λ c. true)

abbrev pub is_null {ℓ} : {A : Type ℓ} → Option A → Bool
is_null none = true
is_null (some a) = false

-- All three parts of a stream are there.
abbrev pub has_stream : Client → Bool
has_stream c =
    not (is_null c.server_stream_path || is_null c.client_stream_path || leb_ℤ c.stream_fd (pos 0))

unfoldable pub check_stream_alive : ℤ → ClientPool → Bool
check_stream_alive = read_slot find_stream_fd false has_stream

unfoldable pub check_stream_is_set : ℤ → ClientPool → Bool
check_stream_is_set = read_slot find_client_fd false has_stream
