-- ===== src/Server/Accept.antt =====
-- How clients come and go in src/server/server/server.c: the pool and the set of watched
-- descriptors, and what happens to a descriptor for which there is no room.
use odroid_player.Prelude.{
  ℕ, suc, ◌+◌, ◌%◌, ◌<◌, ◌≡◌, refl, sym, ap, ◌∙◌, ℤ, pos, negsuc, eq_ℤ, eq_ℤ_iff, is_pos,
  int_of_size, String, List, [], ◌∷◌, ◌++◌, none, some, Bool, true, false, ◌||◌, arith, leb-false,
  ltb-zero, suc_eq_zero, zero_eq_suc, ltb-zero-suc, subst, zero,
}
use odroid_player.Sys.{Call, close, send_length, send_packed, send_answer}
use odroid_player.Message.{Status, CmdType, Cmd}
use odroid_player.Queue.{size_mod}
use odroid_player.Pool.{Client, max_clients, get_client_cnt}
use odroid_player.Pool.Change.{add_client, remove_client}
use odroid_player.Pool.Slots.{occupied}
use odroid_player.Pool.Removal.{stream_calls, stream_fd_lem}
use odroid_player.Pool.Valid.{
  IsValid, client_of, SameOthers, fresh_client, add_client-IsValid, remove_client-IsValid,
}
use odroid_player.FdSet.{
  FdSet, Covers, set_fd, unset_fd, update_fd_set, update_client_add, update_client_remove,
  update_fd_set-Covers,
}
use odroid_player.Send.{Net, send_notify_message}
use odroid_player.Player.{Player}
use odroid_player.Server.{connect_new_client, accept_step, disconnect_client}

pub connected :
    (net : Net) (n id : ℕ) (player : Player)
    → IsValid player.client_pool
    → occupied player.client_pool.client_arr < max_clients
    → (add_client (int_of_size id) (pos (suc n)) player.client_pool).0 ≡ true
    → connect_new_client net (pos (suc n)) id player ≡ record {
      client_fd = pos (suc n);
      full = false;
      next_id = (id + 1) % size_mod;
      player = record player {
        client_pool = (add_client (int_of_size id) (pos (suc n)) player.client_pool).1;
      };
      calls = (add_client (int_of_size id) (pos (suc n)) player.client_pool).2;
    }
unfolding connect_new_client get_client_cnt
connected net n id player v room done =
    simp (
      ltb-zero,
      v.counted,
      leb-false max_clients (occupied player.client_pool.client_arr) room,
      done,
    )

pub added_fd :
    (n : ℕ) (maxfd : ℤ) (s : FdSet)
    → (update_fd_set (pos (suc n)) maxfd s update_client_add).1 (pos (suc n)) ≡ true
unfolding update_fd_set set_fd
added_fd n maxfd s = ground (arith, eq_ℤ_iff (pos (suc n)) (pos (suc n)))

-- A new descriptor that is accepted while there is room becomes a client with the next number, that
-- is watched from then on: the pool stays valid and every other client is what it was, and
-- `serv_maxfd` covers the watched descriptors if it did before.
pub accept_step-IsValid :
    (net : Net) (n id : ℕ) (player : Player)
    → IsValid player.client_pool
    → Covers player.serv_maxfd player.serv_set
    → client_of player.client_pool (pos (suc n)) ≡ none
    → occupied player.client_pool.client_arr < max_clients
    → let (next_id, p, calls) = accept_step net (pos (suc n)) id player in
      (next_id ≡ (id + 1) % size_mod)
      × IsValid p.client_pool
      × (client_of p.client_pool (pos (suc n)) ≡ some (fresh_client (int_of_size id) n))
      × SameOthers n player.client_pool p.client_pool
      × (p.serv_set (pos (suc n)) ≡ true)
      × Covers p.serv_maxfd p.serv_set
unfolding accept_step
accept_step-IsValid net n id player v covers unused room =
    let (done, ok, found, same) =
      add_client-IsValid (int_of_size id) n player.client_pool v unused room in
    rw (connected net n id player v room done, suc_eq_zero n)
      (
        refl,
        ok,
        found,
        same,
        added_fd n player.serv_maxfd player.serv_set,
        update_fd_set-Covers (pos (suc n)) player.serv_maxfd player.serv_set update_client_add
            covers,
      )

-- Whether a descriptor is closed by one of the calls.
abbrev pub closes : ℤ → List Call → Bool
closes fd [] = false
closes fd (close g ∷ calls) = eq_ℤ g fd || closes fd calls
closes fd (_ ∷ calls) = closes fd calls

closes-notify :
    (net : Net) (fd to : ℤ) (text : String) (idx : ℤ) (status : Status) (type : CmdType) (cmd : Cmd)
    (rest : List Call)
    → closes fd ((send_notify_message net to (some text) idx status type cmd).1 ++ rest)
      ≡ closes fd rest
unfolding send_notify_message
closes-notify net fd to text idx status type cmd rest = ground arith

-- Whether a descriptor is closed, or anything is sent to it, by one of the calls.
abbrev pub reaches : ℤ → List Call → Bool
reaches fd [] = false
reaches fd (close g ∷ calls) = eq_ℤ g fd || reaches fd calls
reaches fd (send_length g ∷ calls) = eq_ℤ g fd || reaches fd calls
reaches fd (send_packed g notice ∷ calls) = eq_ℤ g fd || reaches fd calls
reaches fd (send_answer g reply ∷ calls) = eq_ℤ g fd || reaches fd calls
reaches fd (_ ∷ calls) = reaches fd calls

reaches-notify :
    (net : Net) (fd to : ℤ) (text : String) (idx : ℤ) (status : Status) (type : CmdType) (cmd : Cmd)
    (rest : List Call)
    → eq_ℤ to fd ≡ false
    → reaches fd ((send_notify_message net to (some text) idx status type cmd).1 ++ rest)
      ≡ reaches fd rest
unfolding send_notify_message
reaches-notify net fd to text idx status type cmd rest other = ground (arith, other)

-- A descriptor that is accepted while the pool is full is given up without a word: the player and
-- the counter of clients are left as they were, nothing is sent to the accepted descriptor and it is
-- not closed; descriptor 0 is closed in its place.
pub accept_step_full :
    (net : Net) (n id : ℕ) (player : Player)
    → IsValid player.client_pool
    → occupied player.client_pool.client_arr ≡ max_clients
    → let (next_id, p, calls) = accept_step net (pos (suc n)) id player in
      (next_id ≡ id)
      × (p ≡ player)
      × (reaches (pos (suc n)) calls ≡ false)
      × (closes (pos 0) calls ≡ true)
unfolding accept_step connect_new_client get_client_cnt
accept_step_full net n id player v full =
    simp (ltb-zero, v.counted, full)
      (
        refl,
        refl,
        reaches-notify net (pos (suc n)) (pos 0) _ _ _ _ _ _ (zero_eq_suc n)
            ∙ ap (λ b. b || false) (zero_eq_suc n),
        closes-notify net (pos 0) (pos 0) _ _ _ _ _ _,
      )

unwatched :
    (n : ℕ) (maxfd : ℤ) (s : FdSet)
    → (update_fd_set (pos (suc n)) maxfd s update_client_remove).1 (pos (suc n)) ≡ false
unfolding update_fd_set unset_fd
unwatched n maxfd s = ground (arith, eq_ℤ_iff (pos (suc n)) (pos (suc n)))

disconnected :
    (n : ℕ) (s : ℤ) (player : Player) (c : Client)
    → IsValid player.client_pool
    → client_of player.client_pool (pos (suc n)) ≡ some c
    → c.stream_fd ≡ s
    → let p = (disconnect_client (pos (suc n)) player).0 in
      (p.client_pool ≡ (remove_client (pos (suc n)) player.client_pool).0)
      × (p.serv_set (pos (suc n)) ≡ false)
      × (is_pos s ≡ true → p.strm_set s ≡ false)
unfolding disconnect_client
disconnected n (pos (suc m)) player c v found e =
    simp (stream_fd_lem n player.client_pool c v.sized found, e, ltb-zero-suc m)
      (
        refl,
        unwatched n player.serv_maxfd player.serv_set,
        λ some_stream. unwatched m player.strm_maxfd player.strm_set,
      )
disconnected n (pos zero) player c v found e =
    simp (stream_fd_lem n player.client_pool c v.sized found, e)
      (refl, unwatched n player.serv_maxfd player.serv_set, λ no_stream. cc)
disconnected n (negsuc m) player c v found e =
    simp (stream_fd_lem n player.client_pool c v.sized found, e)
      (refl, unwatched n player.serv_maxfd player.serv_set, λ no_stream. cc)

-- A client that is disconnected is gone from the pool, which stays valid and keeps every other
-- client, and neither its descriptor nor that of its stream is watched any longer; its stream, if it
-- has one, is closed before its own descriptor.
pub disconnect_client-IsValid :
    (n : ℕ) (player : Player) (c : Client)
    → IsValid player.client_pool
    → client_of player.client_pool (pos (suc n)) ≡ some c
    → let (p, calls) = disconnect_client (pos (suc n)) player in
      IsValid p.client_pool
      × (client_of p.client_pool (pos (suc n)) ≡ none)
      × SameOthers n player.client_pool p.client_pool
      × (p.serv_set (pos (suc n)) ≡ false)
      × (is_pos c.stream_fd ≡ true → p.strm_set c.stream_fd ≡ false)
      × (calls ≡ stream_calls c ++ close (pos (suc n)) ∷ [])
unfolding disconnect_client
disconnect_client-IsValid n player c v found =
    let (ok, gone, same, calls) = remove_client-IsValid n player.client_pool c v found in
    let (pool, serv, strm) = disconnected n c.stream_fd player c v found refl in
    (
      subst IsValid (sym pool) ok,
      ap (λ q. client_of q (pos (suc n))) pool ∙ gone,
      (λ m ne. ap (λ q. client_of q (pos (suc m))) pool ∙ same m ne),
      serv,
      strm,
      calls,
    )
