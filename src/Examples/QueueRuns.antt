-- ===== src/Examples/QueueRuns.antt =====
-- Runs of the theorems on src/server/utils/queue.c, with numbers for nodes.
use odroid_player.Prelude.{ℕ, ◌≡◌, refl, List, [], ◌∷◌, true, false, replicate, arith}
use odroid_player.Queue.{Queue, enqueue, dequeue, create_queue}
use odroid_player.Queue.Size.{IsWellFormed}
use odroid_player.Queue.Fifo.{Op, put, get, step, run, start, IsFifo, run-start-IsFifo}

abbrev ops : List (Op ℕ)
ops = get ∷ put 1 ∷ put 2 ∷ get ∷ put 3 ∷ get ∷ []

ops_in_order : ((run start ops).served ≡ 1 ∷ 2 ∷ []) × ((run start ops).queue.nodes ≡ 3 ∷ [])
unfolding run start step create_queue enqueue dequeue
ops_in_order = (refl, refl)

run-start-IsFifo_example : IsFifo (run start ops)
run-start-IsFifo_example = run-start-IsFifo ops

abbrev two_nodes : Queue ℕ
two_nodes = record { nodes = 1 ∷ 2 ∷ []; size = 2; running = true }

two_nodes-IsWellFormed : IsWellFormed two_nodes
two_nodes-IsWellFormed = record { counted = refl; bounded = omega arith }

abbrev no_nodes : Queue ℕ
no_nodes = record { nodes = []; size = 0; running = true }

abbrev ended : Queue ℕ
ended = record { nodes = []; size = 0; running = false }

abbrev full_queue : Queue ℕ
full_queue = record { nodes = replicate 64 7; size = 64; running = true }
