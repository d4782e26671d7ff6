-- ===== src/Pool/Index.antt =====
-- The slot that a call of src/server/client/client.c finds by its descriptor, and what `add_client`
-- does to the slot that it takes.
use odroid_player.Prelude.{
  ℕ, suc, ◌≡◌, ap, ◌∙◌, ℤ, pos, ltb_ℤ, succ_ℤ, [], ◌∷◌, none, some, true, false, arith, ltb-zero,
}
use odroid_player.Sys.{set_timeout}
use odroid_player.Pool.{
  Client, ClientPool, FindType, empty_client, client_timeout, first_index, by_fd, client_at,
  find_client_index,
}
use odroid_player.Pool.Search.{
  find_slot, replace, IsSized, index_if, find_client_index_lem, set-first_index, first_index_found,
  first_index_missing,
}
use odroid_player.Pool.Slots.{is_free}
use odroid_player.Pool.Change.{add_client, write_slot}

-- What a call of `add_client` does, if there is a free slot and if there is none.
pub add_client_lem :
    (id fd : ℤ) (pool : ClientPool) (c : Client)
    → IsSized pool
    → find_slot is_free pool.client_arr ≡ some c
    → add_client id fd pool ≡ (
      true,
      record {
        client_arr =
            replace is_free
              (record empty_client { client_id = id; client_fd = fd })
              pool.client_arr;
        client_cnt = succ_ℤ pool.client_cnt;
      },
      set_timeout fd client_timeout ∷ set_timeout fd client_timeout ∷ [],
    )
unfolding add_client
add_client_lem id fd pool c sized e =
    let v : Client = record empty_client { client_id = id; client_fd = fd } in
    ground (
      arith,
      set-first_index is_free v pool.client_arr,
      first_index_found is_free pool.client_arr c empty_client e,
    )

pub add_client_full :
    (id fd : ℤ) (pool : ClientPool)
    → IsSized pool
    → find_slot is_free pool.client_arr ≡ none
    → add_client id fd pool ≡ (false, pool, [])
unfolding add_client
add_client_full id fd pool sized e = ground (arith, first_index_missing is_free pool.client_arr e)

pub index_lem :
    (find : FindType) (n : ℕ) (pool : ClientPool) (c : Client)
    → IsSized pool
    → find_slot (by_fd find (pos (suc n))) pool.client_arr ≡ some c
    → find_client_index (pos (suc n)) pool find
      ≡ pos (first_index (by_fd find (pos (suc n))) pool.client_arr 0)
index_lem find n pool c sized e =
    find_client_index_lem find n pool sized
    ∙ ap (index_if (first_index (by_fd find (pos (suc n))) pool.client_arr 0)) e

-- The slot at the index that a successful search found.
pub at_index :
    (find : FindType) (n : ℕ) (pool : ClientPool) (c : Client)
    → IsSized pool
    → find_slot (by_fd find (pos (suc n))) pool.client_arr ≡ some c
    → client_at pool (find_client_index (pos (suc n)) pool find) ≡ c
at_index find n pool c sized e =
    rw (index_lem find n pool c sized e)
      (first_index_found (by_fd find (pos (suc n))) pool.client_arr c empty_client e).1

pub write_at_index :
    (find : FindType) (n : ℕ) (pool : ClientPool) (c v : Client)
    → IsSized pool
    → find_slot (by_fd find (pos (suc n))) pool.client_arr ≡ some c
    → write_slot pool (find_client_index (pos (suc n)) pool find) v
      ≡ record pool { client_arr = replace (by_fd find (pos (suc n))) v pool.client_arr }
write_at_index find n pool c v sized e =
    rw (
      index_lem find n pool c sized e,
      set-first_index (by_fd find (pos (suc n))) v pool.client_arr,
    )

pub found_index :
    (find : FindType) (n : ℕ) (pool : ClientPool) (c : Client)
    → IsSized pool
    → find_slot (by_fd find (pos (suc n))) pool.client_arr ≡ some c
    → ltb_ℤ (find_client_index (pos (suc n)) pool find) (pos 0) ≡ false
found_index find n pool c sized e = rw (index_lem find n pool c sized e) (ltb-zero _)
