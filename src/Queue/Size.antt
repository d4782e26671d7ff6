-- ===== src/Queue/Size.antt =====
-- The size field of the queue of src/server/utils/queue.c, and how many nodes the queue holds.
use odroid_player.Prelude.{
  Bool-cases, ltb, ltb→lt, not-ltb→le, ◌+◌, ◌≤◌, ◌<◌, ◌≡◌, refl, ap, ◌⊎◌, inl, inr, List, [], ◌∷◌,
  ◌++◌, true, false, arith, length, length-append,
}
use odroid_player.Queue.{
  Queue, Dequeued, taken, stopped, waiting, queue_size, create_queue, link_last, insert, enqueue,
  wait_loop, dequeue,
}

pub record IsWellFormed {ℓ} {A : Type ℓ} (q : Queue A) : Type 0 where
  pub counted : q.size ≡ length q.nodes
  pub bounded : length q.nodes ≤ queue_size + 1

-- Every queue that a wait may wake to, or that a call leaves behind.
abbrev pub AllWellFormed {ℓ} : {A : Type ℓ} → List (Queue A) → Type 0
AllWellFormed [] = Unit {0}
AllWellFormed (w ∷ ws) = IsWellFormed w × AllWellFormed ws

abbrev pub LeavesWellFormed {ℓ} : {A : Type ℓ} → Dequeued A → Type 0
LeavesWellFormed (taken a q) = IsWellFormed q
LeavesWellFormed (stopped q) = IsWellFormed q
LeavesWellFormed waiting = Unit {0}

module _ {ℓ} {A : Type ℓ} where
  pub link_last-append :
      (cur : A) (rest : List A) (node : A) → link_last cur rest node ≡ (cur ∷ rest) ++ node ∷ []
  unfolding link_last
  link_last-append cur [] node = refl
  link_last-append cur (next ∷ rest) node = λ i. cur ∷ link_last-append next rest node i

  pub create_queue-IsWellFormed : IsWellFormed (create_queue {A = A})
  unfolding create_queue
  create_queue-IsWellFormed = omega arith

  length-link_last :
      (cur : A) (rest : List A) (node : A) → length (link_last cur rest node) ≡ length rest + 2
  unfolding link_last
  length-link_last cur [] node = refl
  length-link_last cur (next ∷ rest) node = omega (arith, length-link_last next rest node)

  nodes-insert :
      (xs : List A) (q : Queue A) (node : A)
      → q.nodes ≡ xs
      → (insert xs q node).nodes ≡ q.nodes ++ node ∷ []
  unfolding insert
  nodes-insert [] q node e = rw e
  nodes-insert (cur ∷ rest) q node e = rw (e, link_last-append cur rest node)

  insert-IsWellFormed :
      (xs : List A) (q : Queue A) (node : A)
      → q.nodes ≡ xs
      → q.size ≡ length xs
      → length xs ≤ queue_size
      → IsWellFormed (insert xs q node)
  unfolding insert
  insert-IsWellFormed [] q node e c b = omega arith
  insert-IsWellFormed (cur ∷ rest) q node e c b = omega (arith, length-link_last cur rest node)

  -- An accepted node goes to the end of the queue, and a refused one leaves the queue as it was;
  -- a node is refused exactly when more than `queue_size` nodes are counted.
  pub nodes-enqueue :
      (q : Queue A) (node : A)
      → ((q.size ≤ queue_size)
          × ((enqueue q node).0 ≡ true)
          × ((enqueue q node).1.nodes ≡ q.nodes ++ node ∷ []))
        ⊎ ((queue_size < q.size) × (enqueue q node ≡ (false, q)))
  unfolding enqueue
  nodes-enqueue q node = elim (Bool-cases (ltb queue_size q.size)) [
    | inl over ↦ inr (ltb→lt _ _ over, rw over)
    | inr room ↦ inl (not-ltb→le _ _ room, rw room, rw room (nodes-insert q.nodes q node refl))
  ]

  -- Accepted or not, a node leaves the queue with its size equal to the number of its nodes and
  -- with at most `queue_size + 1` of them.
  pub enqueue-IsWellFormed :
      (q : Queue A) (node : A) → IsWellFormed q → IsWellFormed (enqueue q node).1
  unfolding enqueue
  enqueue-IsWellFormed q node v = ground (arith, insert-IsWellFormed q.nodes q node)

  -- The limit is passed by one: a queue that holds `queue_size` nodes takes one more.
  pub enqueue_at_limit :
      (q : Queue A) (node : A)
      → IsWellFormed q
      → length q.nodes ≡ queue_size
      → ((enqueue q node).0 ≡ true) × (length (enqueue q node).1.nodes ≡ queue_size + 1)
  enqueue_at_limit q node v full = elim (nodes-enqueue q node) [
    | inl (_, done, e) ↦ (done, omega (arith, ap length e, length-append q.nodes (node ∷ [])))
    | inr (over, _) ↦ absurd (omega arith)
  ]

  wait_loop-WellFormed :
      (xs : List A) (q : Queue A) (wakes : List (Queue A))
      → q.nodes ≡ xs
      → IsWellFormed q
      → AllWellFormed wakes
      → LeavesWellFormed (wait_loop xs q wakes)
  unfolding wait_loop
  wait_loop-WellFormed (cur ∷ next) q wakes e v all = record {
    counted = omega (arith, ap length e);
    bounded = omega (arith, ap length e);
  }
  wait_loop-WellFormed [] q [] e v all = tt
  wait_loop-WellFormed [] q (w ∷ wakes) e v all =
      ground (arith, wait_loop-WellFormed w.nodes w wakes refl all.0 all.1)

  -- A call of `dequeue` on a queue whose size is right, which wakes to such queues only, leaves
  -- such a queue behind: `size--` never wraps.
  pub dequeue-WellFormed :
      (q : Queue A) (wakes : List (Queue A))
      → IsWellFormed q
      → AllWellFormed wakes
      → LeavesWellFormed (dequeue q wakes)
  unfolding dequeue
  dequeue-WellFormed q wakes v all = wait_loop-WellFormed q.nodes q wakes refl v all
