-- ===== src/Pool/Snapshot.antt =====
-- `get_client_arr` of src/server/client/client.c, from which broadcasts are sent, against the clients
-- in the pool.
use odroid_player.Prelude.{
  ℕ, suc, ◌<◌, ◌≡◌, refl, sym, ap, ◌∙◌, ◌⊎◌, inl, inr, pos, List, [], ◌∷◌, none, some, true, false,
  arith, take,
}
use odroid_player.Pool.{Client, ClientPool, find_client_fd, by_fd, get_client_arr, get_client_cnt}
use odroid_player.Pool.Search.{find_slot}
use odroid_player.Pool.Slots.{is_free, occupied}
use odroid_player.Pool.Valid.{IsValid, client_of}

-- The taken slots stand before the free ones.
abbrev pub IsCompact : List Client → Type 0
IsCompact [] = Unit {0}
IsCompact (c ∷ cs) = ((is_free c ≡ false) × IsCompact cs) ⊎ (occupied (c ∷ cs) ≡ 0)

find_slot_unoccupied :
    (n : ℕ) (cs : List Client)
    → occupied cs ≡ 0
    → find_slot (by_fd find_client_fd (pos (suc n))) cs ≡ none
unfolding find_slot
find_slot_unoccupied n [] h = refl
find_slot_unoccupied n (c ∷ cs) h = ground (arith, find_slot_unoccupied n cs)

find_slot-take_compact :
    (n : ℕ) (cs : List Client)
    → IsCompact cs
    → find_slot (by_fd find_client_fd (pos (suc n))) (take (occupied cs) cs)
      ≡ find_slot (by_fd find_client_fd (pos (suc n))) cs
unfolding find_slot
find_slot-take_compact n [] h = refl
find_slot-take_compact n (c ∷ cs) (inl (used, rest)) =
    rw (used, find_slot) (rw (find_slot-take_compact n cs rest))
find_slot-take_compact n (c ∷ cs) (inr e) =
    ap (λ k. find_slot (by_fd find_client_fd (pos (suc n))) (take k (c ∷ cs))) e
    ∙ sym (find_slot_unoccupied n (c ∷ cs) e)

-- The copy of a valid pool that has clients.
get_client_arr_lem :
    (pool : ClientPool)
    → IsValid pool
    → 0 < occupied pool.client_arr
    → get_client_arr true pool ≡ some (take (occupied pool.client_arr) pool.client_arr)
unfolding get_client_arr get_client_cnt
get_client_arr_lem pool v some_client = simp v.counted (ground arith)

-- While the taken slots come first, the copy holds exactly the clients of the pool.
pub get_client_arr_compact :
    (pool : ClientPool) (n : ℕ)
    → IsValid pool
    → 0 < occupied pool.client_arr
    → IsCompact pool.client_arr
    → (cs : List Client) × (get_client_arr true pool ≡ some cs)
      × (find_slot (by_fd find_client_fd (pos (suc n))) cs ≡ client_of pool (pos (suc n)))
get_client_arr_compact pool n v some_client compact = (
  take (occupied pool.client_arr) pool.client_arr,
  get_client_arr_lem pool v some_client,
  find_slot-take_compact n pool.client_arr compact,
)
