-- ===== src/BlockingQueue/Tests.antt =====
-- critical_concurrency/queue.c: two threads on a queue of at most one value.
use cs.Prelude.{ℕ, ◌≡◌, refl, none, some, [], ◌∷◌, arith, if◌then◌else◌, ◌==◌}
use cs.BlockingQueue.{Heap, Queue, node, push, pull}
use cs.BlockingQueue.Rep.{IsQueue}
use cs.BlockingQueue.Fifo.{Outcome, start, pushed, pulled, Run_fifo}

abbrev no_nodes : Heap ℕ
no_nodes a = none

abbrev empty_queue : Queue ℕ
empty_queue = record { heap = no_nodes; head = 0; tail = 0; size = 0; max_size = 1 }

abbrev one_node : Heap ℕ
one_node a = if a == 8 then some (node 5 0) else none

-- the queue that holds 5, in the node at address 8
abbrev one_queue : Queue ℕ
one_queue = record { heap = one_node; head = 8; tail = 8; size = 1; max_size = 1 }

empty-IsQueue : IsQueue empty_queue []
empty-IsQueue = record {
  linked = tt;
  head = refl;
  tail = refl;
  size = refl;
  bounded = λ p. omega arith;
}

one-IsQueue : IsQueue one_queue ((8, 5) ∷ [])
one-IsQueue = record {
  linked = (omega arith, refl, refl, tt);
  head = refl;
  tail = refl;
  size = refl;
  bounded = λ p. omega arith;
}

abbrev drained : Queue ℕ
drained = record {
  heap = λ a. if a == 8 then none else one_node a;
  head = 0;
  tail = 0;
  size = 0;
  max_size = 1;
}

push_five : push empty_queue 8 5 ≡ some one_queue
unfolding push
push_five = refl

pull_five : pull one_queue ≡ some (5, drained)
unfolding pull
pull_five = refl

-- One thread has pushed 5, and the other has pulled it.
Run_fifo_example : Outcome drained (5 ∷ []) (5 ∷ [])
Run_fifo_example =
    Run_fifo empty-IsQueue (pulled 5 (pushed start 8 5 (omega arith) refl push_five) pull_five)
