-- ===== src/Lifecycle/Threads.antt =====
-- Which threads src/server/player/player.c starts, and which it joins.
use odroid_player.Prelude.{
  ℕ, ◌+◌, ◌==◌, ◌≤◌, ◌≡◌, ◌≢◌, refl, sym, subst, ◌∙◌, ◌⊎◌, inl, inr, List, [], ◌∷◌, ◌++◌, Option,
  none, some, true, false, arith, Bool-cases, ==_iff, if◌then◌else◌, ltb_ℤ, pos,
}
use odroid_player.Sys.{Call, pthread_join}
use odroid_player.Pool.Change.{clear_client_pool}
use odroid_player.Player.{Player, set_player_running, stop_child}
use odroid_player.Lifecycle.{
  StartWorld, Started, start_play, start_watchdog, start_response, start_server, start_stream,
  start_player, wait_player, clear_player,
}

-- How often a thread is joined.
abbrev pub joins : ℕ → List Call → ℕ
joins id [] = 0
joins id (pthread_join i ∷ calls) = (if i == id then 1 else 0) + joins id calls
joins id (_ ∷ calls) = joins id calls

-- The threads of a started player.
abbrev pub Running : StartWorld → Player → Type 0
Running world p =
    (world.strm ≡ some p.strm_thread_id)
    × (world.serv ≡ some p.serv_thread_id)
    × (world.resp ≡ some p.resp_thread_id)
    × (world.wtdg ≡ some p.wtdg_thread_id)
    × (world.play ≡ some p.play_thread_id)
    × (p.running ≡ true)

-- A player that is not started in full has no play thread.
abbrev pub Starts : StartWorld → Player → Started → Type 0
Starts world player (done, p, calls) =
    ((done ≡ true) × Running world p)
    ⊎ ((done ≡ false) × (p.play_thread_id ≡ player.play_thread_id) × (p.running ≡ true))

start-cases :
    (player : Player) (strm serv resp wtdg play : Option ℕ) (calls : List Call)
    → let world : StartWorld = record {
      strm = strm;
      serv = serv;
      resp = resp;
      wtdg = wtdg;
      play = play;
    } in
      player.running ≡ true → Starts world player (start_stream world strm player calls)
unfolding start_stream start_server start_response start_watchdog start_play
start-cases player none serv resp wtdg play calls on = inr (refl, refl, on)
start-cases player (some a) none resp wtdg play calls on = inr (refl, refl, on)
start-cases player (some a) (some b) none wtdg play calls on = inr (refl, refl, on)
start-cases player (some a) (some b) (some c) none play calls on = inr (refl, refl, on)
start-cases player (some a) (some b) (some c) (some d) none calls on = inr (refl, refl, on)
start-cases player (some a) (some b) (some c) (some d) (some e) calls on =
    inl (refl, (refl, refl, refl, refl, refl, on))

-- `start_player` returns true when every thread was created, and the player holds the five of them;
-- else it returns false, and the play thread is the one of before. The player is set running in
-- either case.
pub start_player-Starts :
    (world : StartWorld) (player : Player) → Starts world player (start_player world player)
unfolding start_player set_player_running
start_player-Starts world player =
    start-cases (set_player_running player true).0 world.strm world.serv world.resp world.wtdg
      world.play (set_player_running player true).1 refl

joins-append : (id : ℕ) (xs ys : List Call) → joins id (xs ++ ys) ≡ joins id xs + joins id ys
joins-append id [] ys = omega arith
joins-append id (pthread_join i ∷ xs) ys = omega (arith, joins-append id xs ys)
joins-append id (_ ∷ xs) ys = joins-append id xs ys

same_self : (n : ℕ) → (n == n) ≡ true
same_self n = ground arith

stop_child_play : (player : Player) → (stop_child player).0.play_thread_id ≡ player.play_thread_id
unfolding stop_child set_player_running
stop_child_play player = elim (Bool-cases (ltb_ℤ (pos 0) player.child_pid)) [
  | inl e ↦ simp e
  | inr e ↦ simp e
]

joined_again :
    (id : ℕ) (stops closed : List Call)
    → id ≢ 0
    → 1 ≤ joins id (stops ++ ((if id == 0 then [] else pthread_join id ∷ []) ++ closed))
joined_again id stops closed ne = elim (Bool-cases (id == 0)) [
  | inl z ↦ absurd (ne ((==_iff id 0).0 z))
  | inr s ↦ simp s (omega (arith, joins-append id stops (pthread_join id ∷ closed), own id closed))
]
  where
    own : (i : ℕ) (calls : List Call) → joins i (pthread_join i ∷ calls) ≡ 1 + joins i calls
    own i calls = simp (same_self i)

clear_player-joins :
    (player : Player)
    → player.play_thread_id ≢ 0
    → 1 ≤ joins player.play_thread_id (clear_player player).1
unfolding clear_player
clear_player-joins player ne =
    let same = stop_child_play player in
    subst (λ i. 1 ≤ joins i (clear_player player).1) same
      (joined_again (stop_child player).0.play_thread_id (stop_child player).1
        (clear_client_pool (stop_child player).0.client_pool).1 (λ e. ne (sym same ∙ e)))

wait_player-joins : (player : Player) → 1 ≤ joins player.play_thread_id (wait_player player)
unfolding wait_player
wait_player-joins player = simp (same_self player.play_thread_id) (ground arith)

-- A player with a play thread joins it at least twice when `main` waits for it and then clears it:
-- once in `wait_player` and again in `clear_player`.
pub play_thread_joined_twice :
    (player : Player)
    → player.play_thread_id ≢ 0
    → 2 ≤ joins player.play_thread_id (wait_player player ++ (clear_player player).1)
play_thread_joined_twice player ne = omega (
  arith,
  joins-append player.play_thread_id (wait_player player) (clear_player player).1,
  wait_player-joins player,
  clear_player-joins player ne,
)
