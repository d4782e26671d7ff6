-- ===== src/Pool/Removal.antt =====
-- The changes of src/server/client/client.c in terms of the slot that they overwrite.
use odroid_player.Prelude.{
  ℕ, zero, suc, ◌≡◌, refl, ap, ◌∙◌, ◌⊎◌, ℤ, pos, negsuc, minus_one, eq_ℤ_iff, leb_ℤ, pred_ℤ, List,
  [], ◌∷◌, ◌++◌, none, some, Bool, true, false, arith, if◌then◌else◌, map, set, leb-suc-zero,
}
use odroid_player.Sys.{Call, close}
use odroid_player.Pool.{
  Client, ClientPool, find_client_fd, find_stream_fd, empty_client, first_index, by_fd, fd_of,
  has_stream, get_client_stream_fd, check_stream_alive,
}
use odroid_player.Pool.Search.{
  find_slot, replace, IsSized, index_if, or_missing, find_client_index_lem, read_slot_lem,
  set-first_index,
}
use odroid_player.Pool.Slots.{Distinct, member}
use odroid_player.Pool.Change.{remove_client_stream, remove_client, without_stream, drop_path}
use odroid_player.Pool.Index.{index_lem, at_index, write_at_index, found_index}

pub set-set : (cs : List Client) (i : ℕ) (v w : Client) → set (set cs i v) i w ≡ set cs i w
set-set [] i v w = refl
set-set (c ∷ cs) zero v w = refl
set-set (c ∷ cs) (suc i) v w = ap (◌∷◌ c) (set-set cs i v w)

pub member_found :
    (f : Client → ℤ) (test : Client → Bool) (cs : List Client) (c : Client)
    → find_slot test cs ≡ some c
    → member (f c) (map f cs) ≡ true
unfolding find_slot
member_found f test [] c e = cc
member_found f test (x ∷ cs) c e =
    ground (arith, member_found f test cs c, eq_ℤ_iff (f c) (f c), eq_ℤ_iff (f x) (f c))

-- With distinct streams the search for a client's stream stops at that client.
pub first_index-stream :
    (test : Client → Bool) (cs : List Client) (c : Client) (n i : ℕ)
    → Distinct (map (fd_of find_stream_fd) cs)
    → find_slot test cs ≡ some c
    → c.stream_fd ≡ pos (suc n)
    → first_index (by_fd find_stream_fd (pos (suc n))) cs i ≡ first_index test cs i
unfolding find_slot first_index
first_index-stream test [] c n i d e s = cc
first_index-stream test (x ∷ cs) c n i d e s = ground (
  arith,
  member_found (fd_of find_stream_fd) test cs c,
  eq_ℤ_iff x.stream_fd (pos (suc n)),
  first_index-stream test cs c n (suc i) d.1,
)

pub find_slot-stream :
    (test : Client → Bool) (cs : List Client) (c : Client) (n : ℕ)
    → Distinct (map (fd_of find_stream_fd) cs)
    → find_slot test cs ≡ some c
    → c.stream_fd ≡ pos (suc n)
    → find_slot (by_fd find_stream_fd (pos (suc n))) cs ≡ some c
unfolding find_slot
find_slot-stream test [] c n d e s = cc
find_slot-stream test (x ∷ cs) c n d e s = ground (
  arith,
  member_found (fd_of find_stream_fd) test cs c,
  eq_ℤ_iff x.stream_fd (pos (suc n)),
  find_slot-stream test cs c n d.1,
)

alive_lem :
    (n : ℕ) (pool : ClientPool) (c : Client)
    → IsSized pool
    → find_slot (by_fd find_stream_fd (pos (suc n))) pool.client_arr ≡ some c
    → check_stream_alive (pos (suc n)) pool ≡ has_stream c
unfolding check_stream_alive
alive_lem n pool c sized e =
    read_slot_lem find_stream_fd false has_stream n pool sized ∙ ap (or_missing false has_stream) e

-- What a call of `remove_client_stream` does at the descriptor of a complete stream.
pub remove_client_stream_lem :
    (n : ℕ) (pool : ClientPool) (c : Client)
    → IsSized pool
    → find_slot (by_fd find_stream_fd (pos (suc n))) pool.client_arr ≡ some c
    → has_stream c ≡ true
    → remove_client_stream (pos (suc n)) pool ≡ (
      record pool {
        client_arr =
            replace (by_fd find_stream_fd (pos (suc n))) (without_stream c) pool.client_arr;
      },
      close (pos (suc n)) ∷ (drop_path c.server_stream_path ++ drop_path c.client_stream_path),
    )
unfolding remove_client_stream
remove_client_stream_lem n pool c sized e alive = rw (
  leb-suc-zero n,
  found_index find_stream_fd n pool c sized e,
  alive_lem n pool c sized e,
  alive,
  at_index find_stream_fd n pool c sized e,
  write_at_index find_stream_fd n pool c (without_stream c) sized e,
)

pub stream_fd_lem :
    (n : ℕ) (pool : ClientPool) (c : Client)
    → IsSized pool
    → find_slot (by_fd find_client_fd (pos (suc n))) pool.client_arr ≡ some c
    → get_client_stream_fd (pos (suc n)) pool ≡ c.stream_fd
unfolding get_client_stream_fd
stream_fd_lem n pool c sized e =
    read_slot_lem find_client_fd minus_one (λ x. x.stream_fd) n pool sized
    ∙ ap (or_missing minus_one (λ x. x.stream_fd)) e

-- The calls that close a client's stream, if it has one.
abbrev pub stream_calls : Client → List Call
stream_calls c =
    if leb_ℤ c.stream_fd (pos 0)
    then []
    else close c.stream_fd ∷ (drop_path c.server_stream_path ++ drop_path c.client_stream_path)

-- A client's stream descriptor is not negative, and a stream is complete.
abbrev pub IsComplete : Client → Type 0
IsComplete c = (c.stream_fd ≡ pos 0) ⊎ (has_stream c ≡ true)

-- A pool from which the stream of the client at `fd` is gone, and nothing else at other slots.
abbrev Drops : ℕ → ClientPool → Client → ClientPool × List Call → Type 0
Drops n pool c (p, calls) =
    (calls ≡ stream_calls c)
    × (p.client_cnt ≡ pool.client_cnt)
    × ((v : Client)
        → set p.client_arr (first_index (by_fd find_client_fd (pos (suc n))) pool.client_arr 0) v
          ≡ replace (by_fd find_client_fd (pos (suc n))) v pool.client_arr)

remove_no_stream : (pool : ClientPool) → remove_client_stream (pos 0) pool ≡ (pool, [])
unfolding remove_client_stream
remove_no_stream pool = refl

overwritten :
    (test : Client → Bool) (cs : List Client) (c w v : Client) (m : ℕ)
    → Distinct (map (fd_of find_stream_fd) cs)
    → find_slot test cs ≡ some c
    → c.stream_fd ≡ pos (suc m)
    → set (replace (by_fd find_stream_fd (pos (suc m))) w cs) (first_index test cs 0) v
      ≡ replace test v cs
overwritten test cs c w v m distinct e s =
    rw (← set-first_index (by_fd find_stream_fd (pos (suc m))) w cs) (
      rw (first_index-stream test cs c m 0 distinct e s)
        (set-set cs (first_index test cs 0) w v ∙ set-first_index test v cs))

without_its_stream :
    (n : ℕ) (pool : ClientPool) (c : Client) (s : ℤ)
    → IsSized pool
    → find_slot (by_fd find_client_fd (pos (suc n))) pool.client_arr ≡ some c
    → IsComplete c
    → Distinct (map (fd_of find_stream_fd) pool.client_arr)
    → c.stream_fd ≡ s
    → Drops n pool c (remove_client_stream s pool)
without_its_stream n pool c (pos zero) sized e full distinct s = rw (remove_no_stream pool) (
  ground arith,
  refl,
  λ v. set-first_index (by_fd find_client_fd (pos (suc n))) v pool.client_arr,
)
without_its_stream n pool c (pos (suc m)) sized e full distinct s =
    let alive : has_stream c ≡ true = ground arith in
    rw
      (remove_client_stream_lem m pool c sized (find_slot-stream _ pool.client_arr c m distinct e s)
        alive)
      (ground arith, refl, λ v. overwritten _ pool.client_arr c (without_stream c) v m distinct e s)
without_its_stream n pool c (negsuc m) sized e full distinct s = ground arith

-- What a call of `remove_client` does at the descriptor of a client.
pub remove_client_lem :
    (n : ℕ) (pool : ClientPool) (c : Client)
    → IsSized pool
    → find_slot (by_fd find_client_fd (pos (suc n))) pool.client_arr ≡ some c
    → IsComplete c
    → Distinct (map (fd_of find_stream_fd) pool.client_arr)
    → remove_client (pos (suc n)) pool ≡ (
      record {
        client_arr = replace (by_fd find_client_fd (pos (suc n))) empty_client pool.client_arr;
        client_cnt = pred_ℤ pool.client_cnt;
      },
      stream_calls c ++ close (pos (suc n)) ∷ [],
    )
unfolding remove_client
remove_client_lem n pool c sized e full distinct =
    let (calls, cnt, arr) = without_its_stream n pool c c.stream_fd sized e full distinct refl in
    rw (
      leb-suc-zero n,
      found_index find_client_fd n pool c sized e,
      stream_fd_lem n pool c sized e,
      index_lem find_client_fd n pool c sized e,
      calls,
      cnt,
      arr empty_client,
    )

-- A descriptor that no client has is not removed.
pub remove_client_missing :
    (n : ℕ) (pool : ClientPool)
    → IsSized pool
    → find_slot (by_fd find_client_fd (pos (suc n))) pool.client_arr ≡ none
    → remove_client (pos (suc n)) pool ≡ (pool, [])
unfolding remove_client
remove_client_missing n pool sized e =
    rw (leb-suc-zero n, find_client_index_lem find_client_fd n pool sized) (rw (e, index_if))
