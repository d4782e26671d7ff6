-- ===== src/Queue.antt =====
-- src/server/utils/queue.c: the queue between the server thread and the response thread.
-- The chain of nodes is the list `nodes`, from `head` on; each function is one critical section of
-- `queue_mutex`. src/client/opc/utils/queue.c has the same `enqueue` and `dequeue` over its own nodes,
-- so the type of the nodes is a parameter.
pub mod Size
pub mod Fifo
pub mod Wait
use odroid_player.Prelude.{
  ℕ, ◌+◌, ◌-◌, ◌%◌, ◌^◌, List, [], ◌∷◌, Bool, true, false, ltb, if◌then◌else◌,
}

abbrev pub queue_size : ℕ
queue_size = 64

-- `size_t` arithmetic.
abbrev pub size_mod : ℕ
size_mod = 2 ^ 64

pub record Queue {ℓ} (A : Type ℓ) : Type ℓ where
  pub nodes : List A
  pub size : ℕ
  pub running : Bool

-- `waiting`: the caller is still asleep in `pthread_cond_wait`. `stopped`: NULL is returned.
pub data Dequeued {ℓ} (A : Type ℓ) : Type ℓ where
  taken : A → Queue A → Dequeued A
  stopped : Queue A → Dequeued A
  waiting : Dequeued A

module _ {ℓ} {A : Type ℓ} where
  unfoldable pub create_queue : Queue A
  create_queue = record { nodes = []; size = 0; running = true }

  -- The walk to the last node, `while (cur->next != NULL)`, and the write of its `next`.
  unfoldable pub link_last : A → List A → A → List A
  link_last cur [] node = cur ∷ node ∷ []
  link_last cur (next ∷ rest) node = cur ∷ link_last next rest node

  insert : List A → Queue A → A → Queue A
  unfolding link_last
  insert [] q node = record q { nodes = node ∷ []; size = 1 }
  insert (cur ∷ rest) q node = record q {
    nodes = link_last cur rest node;
    size = (q.size + 1) % size_mod;
  }

  unfoldable pub enqueue : Queue A → A → Bool × Queue A
  unfolding insert
  enqueue q node = if ltb queue_size q.size then (false, q) else (true, insert q.nodes q node)

  -- `pthread_cond_wait` gives the mutex away: each wake-up shows the queue as the other threads
  -- have left it, so the loop runs over the states that it wakes to.
  unfoldable pub wait_loop : List A → Queue A → List (Queue A) → Dequeued A
  wait_loop (cur ∷ next) q wakes =
      taken cur (record q { nodes = next; size = (q.size + (size_mod - 1)) % size_mod })
  wait_loop [] q [] = waiting
  wait_loop [] q (w ∷ wakes) =
      let again = wait_loop w.nodes w wakes in if w.running then again else stopped w

  unfoldable pub dequeue : Queue A → List (Queue A) → Dequeued A
  unfolding wait_loop
  dequeue q wakes = wait_loop q.nodes q wakes

  -- The nodes that are freed, in order; the queue itself is freed after them.
  unfoldable pub clear_queue : List A → List A
  clear_queue [] = []
  clear_queue (cur ∷ temp) = cur ∷ clear_queue temp
