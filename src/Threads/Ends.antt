-- ===== src/Threads/Ends.antt =====
-- How the threads of src/server/server/server.c, src/server/response/response.c and
-- src/server/stream/stream.c end.
use odroid_player.Prelude.{
  ℕ, zero, suc, ◌≡◌, refl, sym, ap, ◌∙◌, inl, inr, ℤ, pos, ltb_ℤ, eq_ℤ, List, [], ◌∷◌, ◌++◌,
  append_assoc, Option, none, some, true, false, Bool-cases, Option-cases, ltb-zero-suc,
  suc_eq_zero, subst,
}
use odroid_player.Sys.{
  Call, close, unlink, cond_signal, queue_cond, play_cond, pthread_kill, sigusr1,
}
use odroid_player.Message.{Node}
use odroid_player.Queue.{Dequeued, taken, stopped, waiting, dequeue}
use odroid_player.FdSet.Wait.{read_wait, write_wait, wait_fd}
use odroid_player.Send.{Net}
use odroid_player.Player.{Player, get_player_running, set_player_running, wake_thread}
use odroid_player.Pool.{max_clients}
use odroid_player.System.{watch_server}
use odroid_player.Response.{World, respond}
use odroid_player.Threads.{
  server_socket_path, Ran, before, finish, ServerTurn, server_turn, stop_server, after_server_turn,
  server_loop, run_server, ResponseTurn, queues, player_after, after_respond, answer_node,
  run_response, StreamTurn, stream_loop, run_stream,
}

-- SIGUSR1 to a thread that there is.
abbrev pub told : ℕ → List Call
told zero = []
told (suc id) = pthread_kill (suc id) sigusr1 ∷ []

-- The calls that wake those who wait for a node or for the player, and the threads in `pselect`.
abbrev pub waking : Player → List Call
waking p =
    cond_signal queue_cond
    ∷ cond_signal play_cond
    ∷ (told p.strm_thread_id ++ told p.serv_thread_id)

-- A thread that has ended has told the others to end, after the given last calls.
abbrev pub Ends : List Call → Ran → Type 0
Ends last none = Unit {0}
Ends last (some (false, p, calls)) = Unit {0}
Ends last (some (true, p, calls)) =
    (p.running ≡ false)
    × (p.queue.running ≡ false)
    × ((early : List Call) × (calls ≡ early ++ (last ++ waking p)))

wake_thread-told : (id : ℕ) → wake_thread id ≡ told id
wake_thread-told zero = refl
wake_thread-told (suc id) = rw (suc_eq_zero id) refl

finish-Ends : (last : List Call) (player : Player) → Ends last (finish last player)
unfolding finish set_player_running
finish-Ends last player = (
  refl,
  refl,
  (
    [],
    ap (λ c. last ++ (cond_signal queue_cond ∷ cond_signal play_cond ∷ c))
        (ap (λ c. c ++ wake_thread player.serv_thread_id) (wake_thread-told player.strm_thread_id)
          ∙ ap (λ c. told player.strm_thread_id ++ c) (wake_thread-told player.serv_thread_id)),
  ),
)

before-Ends : (last calls : List Call) (ran : Ran) → Ends last ran → Ends last (before calls ran)
unfolding before
before-Ends last calls none h = tt
before-Ends last calls (some (false, p, more)) h = tt
before-Ends last calls (some (true, p, more)) (off, idle, (early, e)) =
    (off, idle, (calls ++ early, ap (λ c. calls ++ c) e ∙ sym (append_assoc calls early _)))

-- The last calls of the server thread.
abbrev pub closing_calls : ℤ → List Call
closing_calls server_fd = close server_fd ∷ unlink server_socket_path ∷ []

stop_server-Ends :
    (n : ℕ) (player : Player)
    → Ends (closing_calls (pos (suc n))) (stop_server (pos (suc n)) player)
unfolding stop_server
stop_server-Ends n player = rw (ltb-zero-suc n) (finish-Ends (closing_calls (pos (suc n))) player)

server_turn-Ends :
    (last : List Call) (later : ℕ → Player → Ran) (turned : Option (ℕ × Player × List Call))
    → ((id : ℕ) (p : Player) → Ends last (later id p))
    → Ends last (after_server_turn later turned)
unfolding after_server_turn
server_turn-Ends last later none h = tt
server_turn-Ends last later (some (id, p, calls)) h = before-Ends last calls (later id p) (h id p)

server_loop-Ends :
    (net : Net) (n : ℕ) (turns : List ServerTurn) (client_id : ℕ) (player : Player)
    → Ends (closing_calls (pos (suc n))) (server_loop net (pos (suc n)) turns client_id player)
unfolding server_loop
server_loop-Ends net n [] client_id player = tt
server_loop-Ends net n (t ∷ turns) client_id player =
    let seen = t.wait.changes player in
    let woken = t.wait.woken seen in
    let waited = wait_fd t.wait.pselect read_wait seen woken in
    elim (Bool-cases (get_player_running seen)) [
      | inr off ↦ rw off (stop_server-Ends n seen)
      | inl on ↦ rw on (elim (Bool-cases (ltb_ℤ waited.0 (pos 0))) [
        | inl signal ↦ rw signal (server_loop-Ends net n turns client_id woken)
        | inr back ↦ rw back (elim (Bool-cases (eq_ℤ waited.0 (pos 0))) [
          | inl over ↦ rw over (stop_server-Ends n woken)
          | inr ready ↦ rw ready (
              server_turn-Ends (closing_calls (pos (suc n)))
                (λ id p. server_loop net (pos (suc n)) turns id p)
                (server_turn net (pos (suc n)) waited.1 t client_id woken)
                (λ id p. server_loop-Ends net n turns id p))
        ])
      ])
    ]

answer_node-Ends :
    (world : World) (later : Player → Ran) (player : Player) (d : Dequeued Node)
    → ((p : Player) → Ends [] (later p))
    → Ends [] (answer_node world later player d)
unfolding answer_node after_respond
answer_node-Ends world later player waiting h = tt
answer_node-Ends world later player (stopped q) h = finish-Ends [] (record player { queue = q })
answer_node-Ends world later player (taken node q) h =
    elim (Option-cases (respond world node (record player { queue = q }))) [
      | inl fault ↦ rw (fault, after_respond) tt
      | inr ((p, calls), e) ↦ rw (e, after_respond) (before-Ends [] calls (later p) (h p))
    ]

run_response-Ends :
    (turns : List ResponseTurn) (player : Player) → Ends [] (run_response turns player)
unfolding run_response
run_response-Ends [] player = tt
run_response-Ends (t ∷ turns) player =
    let seen = t.changes player in
    elim (Bool-cases (get_player_running seen)) [
      | inr off ↦ rw off (finish-Ends [] seen)
      | inl on ↦ rw on (
          answer_node-Ends t.world (λ p. run_response turns p)
            (player_after seen.queue.nodes seen t.wakes) (dequeue seen.queue (queues t.wakes))
            (λ p. run_response-Ends turns p))
    ]

run_stream-Ends : (turns : List StreamTurn) (player : Player) → Ends [] (run_stream turns player)
unfolding run_stream
run_stream-Ends [] player = tt
run_stream-Ends (t ∷ turns) player =
    let seen = t.wait.changes player in
    let woken = t.wait.woken seen in
    let (ret, write_set) = wait_fd t.wait.pselect write_wait seen woken in
    let (p, calls) = stream_loop t.sent write_set t.now max_clients 0 woken in
    elim (Bool-cases (get_player_running seen)) [
      | inr off ↦ rw off (finish-Ends [] seen)
      | inl on ↦ rw on (elim (Bool-cases (eq_ℤ ret (pos 0))) [
        | inl over ↦ rw over (finish-Ends [] woken)
        | inr ready ↦ rw ready (before-Ends [] calls (run_stream turns p) (run_stream-Ends turns p))
      ])
    ]

-- However the other threads and the system go on, a thread that has ended leaves the player and its
-- queue off. Its last calls signal the conditions of the queue and of the player and send SIGUSR1 to
-- the stream thread and the server thread, where there are such threads: so do the server thread,
-- which has closed its socket and removed the path just before, the response thread and the stream
-- thread.
pub threads-Ends :
    (net : Net) (n : ℕ) (server_turns : List ServerTurn) (response_turns : List ResponseTurn)
    (stream_turns : List StreamTurn) (player p q r : Player) (calls answers served : List Call)
    → run_server net (pos (suc n)) server_turns player ≡ some (true, p, calls)
    → run_response response_turns player ≡ some (true, q, answers)
    → run_stream stream_turns player ≡ some (true, r, served)
    → Ends (closing_calls (pos (suc n))) (some (true, p, calls))
      × Ends [] (some (true, q, answers))
      × Ends [] (some (true, r, served))
unfolding run_server
threads-Ends net n server_turns response_turns stream_turns player p q r calls answers served e f
      g =
    (
      subst (Ends (closing_calls (pos (suc n)))) e (
          rw (suc_eq_zero n)
            (server_loop-Ends net n server_turns 0 (watch_server (pos (suc n)) player))),
      subst (Ends []) f (run_response-Ends response_turns player),
      subst (Ends []) g (run_stream-Ends stream_turns player),
    )
