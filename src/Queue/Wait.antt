-- ===== src/Queue/Wait.antt =====
-- When `dequeue` of src/server/utils/queue.c returns NULL, and when it goes on waiting.
use odroid_player.Prelude.{◌≡◌, refl, ◌⊎◌, inl, inr, List, [], ◌∷◌, ◌++◌, true, false}
use odroid_player.Queue.{Queue, Dequeued, taken, stopped, waiting, wait_loop, dequeue}

abbrev pub IsStopped {ℓ} : {A : Type ℓ} → Dequeued A → Type 0
IsStopped (taken a q) = ⊥
IsStopped (stopped q) = Unit {0}
IsStopped waiting = ⊥

-- Every wake-up that the loop sleeps through: empty, and still running.
abbrev pub AllIdle {ℓ} : {A : Type ℓ} → List (Queue A) → Type ℓ
AllIdle [] = Unit
AllIdle (w ∷ ws) = (w.nodes ≡ []) × (w.running ≡ true) × AllIdle ws

module _ {ℓ} {A : Type ℓ} where
  wait_loop_idle :
      (xs : List A) (idle : List (Queue A)) (q w : Queue A) (wakes : List (Queue A))
      → xs ≡ []
      → AllIdle idle
      → w.running ≡ false
      → wait_loop xs q (idle ++ w ∷ wakes) ≡ stopped w
  unfolding wait_loop
  wait_loop_idle (a ∷ xs) idle q w wakes n h e = cc
  wait_loop_idle [] [] q w wakes n h e = simp e
  wait_loop_idle [] (x ∷ idle) q w wakes n h e =
      simp h.1 (wait_loop_idle x.nodes idle x w wakes h.0 h.2 e)

  -- A thread that waits on an empty queue returns NULL at the first wake-up at which `running` is
  -- false, whatever that queue then holds, after any wake-ups that found it running and empty.
  pub dequeue-stopped :
      (idle : List (Queue A)) (q w : Queue A) (wakes : List (Queue A))
      → q.nodes ≡ []
      → AllIdle idle
      → w.running ≡ false
      → dequeue q (idle ++ w ∷ wakes) ≡ stopped w
  unfolding dequeue
  dequeue-stopped idle q w wakes e h s = wait_loop_idle q.nodes idle q w wakes e h s

  -- The first node is handed out, and the others stay.
  abbrev pub Takes : Queue A → List A → Dequeued A → Type ℓ
  Takes q xs d =
      (a : A) × (rest : List A) × (r : Queue A) × (xs ≡ a ∷ rest)
      × (d ≡ taken a r)
      × (r.nodes ≡ rest)
      × (r.running ≡ q.running)

  wait_loop-Takes :
      (q : Queue A) (xs : List A)
      → q.nodes ≡ xs
      → ((xs ≡ []) × (wait_loop xs q [] ≡ waiting)) ⊎ Takes q xs (wait_loop xs q [])
  unfolding wait_loop
  wait_loop-Takes q [] e = inl (refl, refl)
  wait_loop-Takes q (a ∷ rest) e = inr (a, rest, _, refl, refl, refl, refl)

  -- The flag is read only after a wake-up: a thread that comes to an empty queue after it was
  -- stopped sleeps until another wake-up, and one that comes to a queue with nodes takes the first.
  pub dequeue_after_stop :
      (q : Queue A)
      → q.running ≡ false
      → ((q.nodes ≡ []) × (dequeue q [] ≡ waiting)) ⊎ Takes q q.nodes (dequeue q [])
  unfolding dequeue
  dequeue_after_stop q h = wait_loop-Takes q q.nodes refl
