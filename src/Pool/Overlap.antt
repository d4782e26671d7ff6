-- ===== src/Pool/Overlap.antt =====
-- What `remove_client` of src/server/client/client.c does when two threads remove a client at the same
-- time: the index is found in one critical section and used in another.
use odroid_player.Prelude.{
  ℕ, suc, ◌≡◌, refl, sym, ap, ◌∙◌, subst, pos, pred_ℤ, List, [], ◌∷◌, Bool, set, some, arith,
}
use odroid_player.Sys.{close}
use odroid_player.Pool.{
  Client, ClientPool, find_client_fd, find_client_index, first_index, by_fd, empty_client,
}
use odroid_player.Pool.Search.{replace, set-first_index}
use odroid_player.Pool.Slots.{occupied, All-find}
use odroid_player.Pool.Change.{write_slot, remove_client, remove_at}
use odroid_player.Pool.Index.{index_lem}
use odroid_player.Pool.Removal.{set-set, remove_client_lem}
use odroid_player.Pool.Valid.{IsSlot, IsValid, client_of, remove_client-IsValid}

emptied_again :
    (test : Client → Bool) (cs : List Client)
    → set (replace test empty_client cs) (first_index test cs 0) empty_client
      ≡ replace test empty_client cs
emptied_again test cs =
    rw (← set-first_index test empty_client cs)
      (set-set cs (first_index test cs 0) empty_client empty_client)

pred_differs : (m : ℕ) → ¬ (pred_ℤ (pos m) ≡ pos m)
pred_differs m e = ground arith

miscounted :
    (p : ClientPool) → IsValid p → ¬ IsValid (record p { client_cnt = pred_ℤ p.client_cnt })
miscounted p v w = pred_differs (occupied p.client_arr) (ap pred_ℤ (sym v.counted) ∙ w.counted)

-- Two threads remove the same client of a valid pool, and the second has found its index before the
-- first removes it. The first leaves a valid pool. The second counts the clients down once more and
-- closes the descriptor once more, whatever it is by then, and the pool is not valid any longer.
pub removals_overlap :
    (n : ℕ) (pool : ClientPool) (c : Client)
    → IsValid pool
    → client_of pool (pos (suc n)) ≡ some c
    → let idx = find_client_index (pos (suc n)) pool find_client_fd in
      let p = (remove_client (pos (suc n)) pool).0 in
      let (q, calls) = remove_at idx (pos (suc n)) p in
      IsValid p
      × (q ≡ record p { client_cnt = pred_ℤ p.client_cnt })
      × (calls ≡ close (pos (suc n)) ∷ [])
      × ¬ IsValid q
removals_overlap n pool c v found =
    let idx = find_client_index (pos (suc n)) pool find_client_fd in
    let p = (remove_client (pos (suc n)) pool).0 in
    let valid = (remove_client-IsValid n pool c v found).0 in
    let arr =
      ap (λ r. r.0.client_arr)
        (remove_client_lem n pool c v.sized found
          (All-find IsSlot _ pool.client_arr c v.slots found).1 v.streams) in
    let same : write_slot (record p { client_cnt = pred_ℤ p.client_cnt }) idx empty_client
        ≡ record p { client_cnt = pred_ℤ p.client_cnt } =
      rw (index_lem find_client_fd n pool c v.sized found) (
        ap (λ cs. record p { client_cnt = pred_ℤ p.client_cnt; client_arr = cs })
          (ap
              (λ cs.
                set cs (first_index (by_fd find_client_fd (pos (suc n))) pool.client_arr 0)
                  empty_client)
              arr
            ∙ emptied_again (by_fd find_client_fd (pos (suc n))) pool.client_arr
            ∙ sym arr)) in
    (valid, same, refl, λ w. miscounted p valid (subst IsValid same w))
