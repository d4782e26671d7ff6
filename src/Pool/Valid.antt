-- ===== src/Pool/Valid.antt =====
-- The pool of src/server/client/client.c as a finite map from descriptors to clients.
use odroid_player.Prelude.{
  ℕ, suc, ◌<◌, ◌≡◌, ◌≢◌, refl, sym, ap, ◌∙◌, ◌⊎◌, inl, inr, ℤ, pos, is_pos, succ_ℤ, pred_ℤ, eq_ℤ,
  eq_ℤ_iff, List, [], ◌∷◌, ◌++◌, Option, none, some, true, false, arith, map, length,
}
use odroid_player.Sys.{close}
use odroid_player.Pool.{
  Client, ClientPool, find_client_fd, find_stream_fd, empty_client, max_clients, by_fd, fd_of,
  create_client_pool,
}
use odroid_player.Pool.Search.{find_slot, replace}
use odroid_player.Pool.Slots.{
  Distinct, All, is_free, occupied, length-replace, All-replace, All-find, occupied-fill,
  occupied-empty, occupied_room, occupied_full, find_slot-replace_other, find_slot-replace_new,
  member_of_find, find_of_member, Distinct-replace,
}
use odroid_player.Pool.Change.{add_client, remove_client}
use odroid_player.Pool.Index.{add_client_lem, add_client_full}
use odroid_player.Pool.Removal.{IsComplete, stream_calls, remove_client_lem}

-- A free slot is all zero, a taken one has a positive descriptor, and a stream is complete.
abbrev pub IsSlot : Client → Type 0
IsSlot c = ((c ≡ empty_client) ⊎ (is_pos c.client_fd ≡ true)) × IsComplete c

pub record IsValid (pool : ClientPool) : Type 0 where
  pub sized : length pool.client_arr ≡ max_clients
  pub counted : pool.client_cnt ≡ pos (occupied pool.client_arr)
  pub slots : All IsSlot pool.client_arr
  pub fds : Distinct (map (fd_of find_client_fd) pool.client_arr)
  pub streams : Distinct (map (fd_of find_stream_fd) pool.client_arr)

-- The client with a descriptor.
abbrev pub client_of : ClientPool → ℤ → Option Client
client_of pool fd = find_slot (by_fd find_client_fd fd) pool.client_arr

-- Every client but the one at `fd` is what it was.
abbrev pub SameOthers : ℕ → ClientPool → ClientPool → Type 0
SameOthers n pool p = (m : ℕ) → m ≢ n → client_of p (pos (suc m)) ≡ client_of pool (pos (suc m))

abbrev CreatesValid : Option ClientPool → Type 0
CreatesValid none = ⊥
CreatesValid (some p) = IsValid p

pub create_client_pool-IsValid : CreatesValid (create_client_pool true)
unfolding create_client_pool
create_client_pool-IsValid = record {
  sized = refl;
  counted = refl;
  slots = ground arith;
  fds = ground arith;
  streams = ground arith;
}

abbrev pub fresh_client : ℤ → ℕ → Client
fresh_client id n = record empty_client { client_id = id; client_fd = pos (suc n) }

added :
    (id : ℤ) (n : ℕ) (pool : ClientPool) (c : Client)
    → IsValid pool
    → client_of pool (pos (suc n)) ≡ none
    → find_slot is_free pool.client_arr ≡ some c
    → let (done, p, calls) = add_client id (pos (suc n)) pool in
      (done ≡ true)
      × IsValid p
      × (client_of p (pos (suc n)) ≡ some (fresh_client id n))
      × SameOthers n pool p
added id n pool c v unused room = rw (add_client_lem id (pos (suc n)) pool c v.sized room) (
  refl,
  record {
    sized = length-replace is_free (fresh_client id n) pool.client_arr ∙ v.sized;
    counted =
        ap succ_ℤ v.counted
        ∙ ap pos (sym (occupied-fill (fresh_client id n) c pool.client_arr (ground arith) room));
    slots =
        All-replace IsSlot is_free (fresh_client id n) pool.client_arr (inr refl, inl refl) v.slots;
    fds =
        Distinct-replace (fd_of find_client_fd) is_free (fresh_client id n) pool.client_arr
          (inr (member_of_find find_client_fd _ pool.client_arr unused)) v.fds;
    streams =
        Distinct-replace (fd_of find_stream_fd) is_free (fresh_client id n) pool.client_arr
          (inl refl) v.streams;
  },
  find_slot-replace_new is_free _ (fresh_client id n) c pool.client_arr (ground arith) unused room,
  λ m ne.
      find_slot-replace_other is_free _ (fresh_client id n) pool.client_arr (ground arith)
        (λ x h. ground arith),
)

-- A new descriptor is added to a valid pool that has a free slot: the call succeeds, the pool stays
-- valid, the new client is found by its descriptor, with no stream, and every other client is what
-- it was.
pub add_client-IsValid :
    (id : ℤ) (n : ℕ) (pool : ClientPool)
    → IsValid pool
    → client_of pool (pos (suc n)) ≡ none
    → occupied pool.client_arr < max_clients
    → let (done, p, calls) = add_client id (pos (suc n)) pool in
      (done ≡ true)
      × IsValid p
      × (client_of p (pos (suc n)) ≡ some (fresh_client id n))
      × SameOthers n pool p
add_client-IsValid id n pool v unused room =
    let (c, e) = occupied_room pool.client_arr (omega (arith, v.sized)) in
    added id n pool c v unused e

-- A full pool refuses a client, is left as it was, and no call is made.
pub add_client_refuses :
    (id fd : ℤ) (pool : ClientPool)
    → IsValid pool
    → occupied pool.client_arr ≡ max_clients
    → add_client id fd pool ≡ (false, pool, [])
add_client_refuses id fd pool v full =
    add_client_full id fd pool v.sized (occupied_full pool.client_arr (omega (arith, v.sized)))

gone :
    (fd : ℤ) (v : Client) (cs : List Client)
    → eq_ℤ fd (pos 0) ≡ false
    → eq_ℤ v.client_fd fd ≡ false
    → Distinct (map (fd_of find_client_fd) cs)
    → find_slot (by_fd find_client_fd fd) (replace (by_fd find_client_fd fd) v cs) ≡ none
unfolding find_slot replace
gone fd v [] used n d = refl
gone fd v (c ∷ cs) used n d =
    ground
      (arith, find_of_member find_client_fd fd cs, eq_ℤ_iff c.client_fd fd, gone fd v cs used n d.1)

-- A client is removed from a valid pool: the pool stays valid, the client is gone, every other
-- client is what it was, and its stream, if it has one, is closed before its own descriptor.
pub remove_client-IsValid :
    (n : ℕ) (pool : ClientPool) (c : Client)
    → IsValid pool
    → client_of pool (pos (suc n)) ≡ some c
    → let (p, calls) = remove_client (pos (suc n)) pool in
      IsValid p
      × (client_of p (pos (suc n)) ≡ none)
      × SameOthers n pool p
      × (calls ≡ stream_calls c ++ close (pos (suc n)) ∷ [])
remove_client-IsValid n pool c v found =
    rw
      (remove_client_lem n pool c v.sized found
        (All-find IsSlot _ pool.client_arr c v.slots found).1 v.streams)
      (
        record {
          sized = length-replace _ empty_client pool.client_arr ∙ v.sized;
          counted = ap pred_ℤ (
              v.counted
              ∙ ap pos (
                  sym (
                    occupied-empty (pos (suc n)) empty_client c pool.client_arr (ground arith) refl
                      found)));
          slots = All-replace IsSlot _ empty_client pool.client_arr (inl refl, inl refl) v.slots;
          fds =
              Distinct-replace (fd_of find_client_fd) _ empty_client pool.client_arr (inl refl)
                v.fds;
          streams =
              Distinct-replace (fd_of find_stream_fd) _ empty_client pool.client_arr (inl refl)
                v.streams;
        },
        gone (pos (suc n)) empty_client pool.client_arr (ground arith) (ground arith) v.fds,
        λ m ne.
            find_slot-replace_other _ _ empty_client pool.client_arr (ground arith)
              (λ x h. ground (arith, eq_ℤ_iff x.client_fd (pos (suc n)))),
        refl,
      )
