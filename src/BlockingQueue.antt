-- ===== src/BlockingQueue.antt =====
-- critical_concurrency/queue.c: the blocking queue, a linked list behind a mutex.
-- Nodes live at addresses. A call runs under the mutex up to its wait or its end, so that the calls of
-- all threads take effect one after another: `none` is a call that waits on the condition variable
-- and leaves the queue as it is.
pub mod Rep
pub mod Fifo
mod Tests
use cs.Prelude.{
  ℕ, zero, suc, ◌+◌, ◌-◌, Option, none, some, ◌==◌, ltb, leb, if◌then◌else◌, Bool, ◌&&◌, ◌>>=◌,
  List, [], ◌∷◌,
}

abbrev pub Ptr : Type 0
Ptr = ℕ

abbrev pub null : Ptr
null = 0

pub record Node (V : Type 0) : Type 0 where
  pub value : V
  pub next : Ptr

abbrev pub Heap : Type 0 → Type 0
Heap V = Ptr → Option (Node V)

-- `max_size` is 0 for every value that is not positive: the code tests only `max_size > 0`.
pub record Queue (V : Type 0) : Type 0 where
  pub heap : Heap V
  pub head : Ptr
  pub tail : Ptr
  pub size : ℕ
  pub max_size : ℕ

module _ {V : Type 0} where
  abbrev pub write : Heap V → Ptr → Option (Node V) → Heap V
  write h p c a = if a == p then c else h a

  abbrev pub node : V → Ptr → Node V
  node v p = record { value = v; next = p }

  pub create : Heap V → ℕ → Queue V
  create heap max_size = record {
    heap = heap;
    head = null;
    tail = null;
    size = 0;
    max_size = max_size;
  }

  -- `tail->next = p`, a fault at a pointer to no node
  abbrev link : Heap V → Ptr → Ptr → Option (Heap V)
  link h tail p = do n ← h tail; some (write h tail (some (node n.value p)))

  -- the test of the waiting loop of `queue_push`
  pub push_waits : Queue V → Bool
  push_waits q = ltb 0 q.max_size && leb q.max_size q.size

  -- `tail->next = node; tail = node`, in the heap where the node stands
  push_behind : Queue V → Heap V → Ptr → Option (Queue V)
  push_behind q heap fresh = do
    h ← link heap q.tail fresh
    some (record q { heap = h; tail = fresh; size = q.size + 1 })

  -- what `queue_push` does once it does not wait; `fresh` is what `malloc` returns
  push_node : Queue V → Ptr → V → Option (Queue V)
  unfolding push_behind
  push_node q fresh value =
      let heap = write q.heap fresh (some (node value null)) in
      if q.size == 0
      then some (record q { heap = heap; head = fresh; tail = fresh; size = q.size + 1 })
      else push_behind q heap fresh

  pub push : Queue V → Ptr → V → Option (Queue V)
  unfolding push_waits push_node
  push q fresh value = if push_waits q then none else push_node q fresh value

  -- what `queue_pull` does once it does not wait
  pull_node : Queue V → Option (V × Queue V)
  pull_node q = do
    n ← q.heap q.head
    let heap = write q.heap q.head none
    if q.size == 1
        then some (n.value, record q { heap = heap; head = null; tail = null; size = q.size - 1 })
        else some (n.value, record q { heap = heap; head = n.next; size = q.size - 1 })

  pub pull : Queue V → Option (V × Queue V)
  unfolding pull_node
  pull q = if q.size == 0 then none else pull_node q

  -- The loop of `queue_destroy`, on fuel: frees every node from `iter` on.
  pub free_nodes : ℕ → Heap V → Ptr → Option (Heap V)
  free_nodes zero h iter = none
  free_nodes (suc fuel) h iter =
      let rest = (do n ← h iter; free_nodes fuel (write h iter none) n.next) in
      if iter == null then some h else rest

  -- `queue_destroy`, with a round for each node and one to see the end.
  pub destroy : Queue V → Option (Heap V)
  destroy q = free_nodes (q.size + 1) q.heap q.head
