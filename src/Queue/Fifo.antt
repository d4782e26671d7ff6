-- ===== src/Queue/Fifo.antt =====
-- The queue of src/server/utils/queue.c as the threads use it: a history of `enqueue` and `dequeue`
-- calls, each one critical section, against a plain first-in first-out list.
use odroid_player.Prelude.{
  ◌≡◌, refl, ap, ◌∙◌, inl, inr, ◌⊎◌, List, [], ◌∷◌, ◌++◌, append_assoc, true, false, Bool,
}
use odroid_player.Queue.{
  Queue, Dequeued, taken, stopped, waiting, create_queue, enqueue, wait_loop, dequeue,
}
use odroid_player.Queue.Size.{
  IsWellFormed, LeavesWellFormed, nodes-enqueue, enqueue-IsWellFormed, dequeue-WellFormed,
  create_queue-IsWellFormed,
}

-- `put` is an `enqueue`, `get` a `dequeue` by a thread that goes back to sleep if the queue is
-- empty.
pub data Op {ℓ} (A : Type ℓ) : Type ℓ where
  put : A → Op A
  get : Op A

-- The queue, the nodes accepted and the nodes handed out, each in order.
pub record Trace {ℓ} (A : Type ℓ) : Type ℓ where
  pub queue : Queue A
  pub accepted : List A
  pub served : List A

module _ {ℓ} {A : Type ℓ} where
  after_put : Trace A → A → Bool × Queue A → Trace A
  after_put t node (true, q) = record t { queue = q; accepted = t.accepted ++ node ∷ [] }
  after_put t node (false, q) = record t { queue = q }

  after_get : Trace A → Dequeued A → Trace A
  after_get t (taken a q) = record t { queue = q; served = t.served ++ a ∷ [] }
  after_get t (stopped q) = record t { queue = q }
  after_get t waiting = t

  unfoldable pub step : Trace A → Op A → Trace A
  unfolding after_put after_get
  step t (put node) = after_put t node (enqueue t.queue node)
  step t get = after_get t (dequeue t.queue [])

  unfoldable pub run : Trace A → List (Op A) → Trace A
  run t [] = t
  run t (o ∷ os) = run (step t o) os

  unfoldable pub start : Trace A
  start = record { queue = create_queue; accepted = []; served = [] }

  -- The invariant that links the concrete queue with the abstract one.
  pub record IsFifo (t : Trace A) : Type ℓ where
    pub sound : IsWellFormed t.queue
    pub ordered : t.served ++ t.queue.nodes ≡ t.accepted

  wait_loop_cases :
      (t : Trace A) (xs : List A)
      → t.queue.nodes ≡ xs
      → t.served ++ xs ≡ t.accepted
      → let u = after_get t (wait_loop xs t.queue []) in u.served ++ u.queue.nodes ≡ u.accepted
  unfolding after_get wait_loop
  wait_loop_cases t [] e h = rw e h
  wait_loop_cases t (x ∷ xs) e h = append_assoc t.served (x ∷ []) xs ∙ h

  after_get_sound :
      (t : Trace A) (d : Dequeued A)
      → IsWellFormed t.queue
      → LeavesWellFormed d
      → IsWellFormed (after_get t d).queue
  unfolding after_get
  after_get_sound t (taken a q) v h = h
  after_get_sound t (stopped q) v h = h
  after_get_sound t waiting v h = v

  get-IsFifo : (t : Trace A) → IsFifo t → IsFifo (step t get)
  unfolding step dequeue
  get-IsFifo t v = record {
    sound = after_get_sound t _ v.sound (dequeue-WellFormed t.queue [] v.sound tt);
    ordered = wait_loop_cases t t.queue.nodes refl v.ordered;
  }

  put-IsFifo :
      (t : Trace A) (node : A) (r : Bool × Queue A)
      → IsWellFormed r.1
      → ((r.0 ≡ true) × (r.1.nodes ≡ t.queue.nodes ++ node ∷ []))
        ⊎ ((r.0 ≡ false) × (r.1.nodes ≡ t.queue.nodes))
      → t.served ++ t.queue.nodes ≡ t.accepted
      → IsFifo (after_put t node r)
  unfolding after_put
  put-IsFifo t node (true, q) w (inl (_, e)) h = record {
    sound = w;
    ordered = rw (e, ← append_assoc, h);
  }
  put-IsFifo t node (true, q) w (inr (e, _)) h = cc
  put-IsFifo t node (false, q) w (inl (e, _)) h = cc
  put-IsFifo t node (false, q) w (inr (_, e)) h = record { sound = w; ordered = rw e h }

  enqueue_cases :
      (q : Queue A) (node : A)
      → (((enqueue q node).0 ≡ true) × ((enqueue q node).1.nodes ≡ q.nodes ++ node ∷ []))
        ⊎ (((enqueue q node).0 ≡ false) × ((enqueue q node).1.nodes ≡ q.nodes))
  enqueue_cases q node = elim (nodes-enqueue q node) [
    | inl (_, done, e) ↦ inl (done, e)
    | inr (_, e) ↦ inr (ap (λ r. r.0) e, ap (λ r. r.1.nodes) e)
  ]

  pub step-IsFifo : (t : Trace A) (o : Op A) → IsFifo t → IsFifo (step t o)
  unfolding step
  step-IsFifo t (put node) v =
      put-IsFifo t node _ (enqueue-IsWellFormed t.queue node v.sound) (enqueue_cases t.queue node)
        v.ordered
  step-IsFifo t get v = get-IsFifo t v

  pub run-IsFifo : (t : Trace A) (os : List (Op A)) → IsFifo t → IsFifo (run t os)
  unfolding run
  run-IsFifo t [] v = v
  run-IsFifo t (o ∷ os) v = run-IsFifo (step t o) os (step-IsFifo t o v)

  -- Whatever the threads do to a new queue, the nodes handed out followed by those still queued are
  -- the accepted nodes in the order of their arrival, and the size is right.
  pub run-start-IsFifo : (os : List (Op A)) → IsFifo (run start os)
  unfolding start create_queue
  run-start-IsFifo os =
      run-IsFifo start os (record { sound = create_queue-IsWellFormed; ordered = refl })
