-- ===== src/MiniMemcheck.antt =====
-- mini_memcheck/mini_memcheck.c: malloc, calloc, realloc and free, with a list of the live blocks in
-- front of them and three counters.
-- A block is known by the address of its `meta_data`, and `meta_size` is `sizeof(meta_data)`: the user's
-- pointer is `address + meta_size`. What malloc and realloc return is an argument; `none` is a fault, a
-- read through a pointer to no block, or a walk that does not end within its fuel.
pub mod Blocks
pub mod Account
pub mod Resize
mod Tests
use cs.Prelude.{
  ℕ, zero, suc, ◌+◌, ◌-◌, ◌*◌, ◌%◌, ◌^◌, Option, none, some, ◌==◌, ltb, if◌then◌else◌, Bool, ◌&&◌,
  ◌>>=◌,
}

abbrev pub Ptr : Type 0
Ptr = ℕ

abbrev pub null : Ptr
null = 0

abbrev pub size_mod : ℕ
size_mod = 2 ^ 64

-- `meta_data`; `bytes` is the size of the block that malloc or realloc gave, with the meta data.
pub record Meta : Type 0 where
  pub request_size : ℕ
  pub filename : ℕ
  pub instruction : ℕ
  pub next : Ptr
  pub bytes : ℕ

abbrev pub Heap : Type 0
Heap = Ptr → Option Meta

pub record Memcheck : Type 0 where
  pub heap : Heap
  pub head : Ptr
  pub total_memory_requested : ℕ
  pub total_memory_freed : ℕ
  pub invalid_addresses : ℕ

abbrev pub write : Heap → Ptr → Option Meta → Heap
write h p c a = if a == p then c else h a

-- What a walk over the list finds: the node before the block, or null, and the block.
abbrev pub Found : Type 0
Found = Option (Ptr × Ptr × Meta)

-- `prev->next = curr->next`, or the head
pub unlink : Memcheck → (prev curr : Ptr) → Meta → Option Memcheck
unlink s prev curr m =
    let behind = (do
      p ← s.heap prev
      some (record s { heap = write s.heap prev (some (record p { next = m.next })) })) in
    if prev == null then some (record s { head = m.next }) else behind

release : Memcheck → Found → Option Memcheck
release s none = some (record s { invalid_addresses = s.invalid_addresses + 1 })
release s (some (prev, curr, m)) = do
  t ← unlink s prev curr m
  some (record t {
    heap = write t.heap curr none;
    total_memory_freed = (t.total_memory_freed + m.request_size) % size_mod;
  })

module _ (meta_size : ℕ) where
  -- The result is the user's pointer. `fresh` is what `malloc` returns for a size that wraps; the meta data
  -- is written there also where that size has no room for it.
  pub mini_malloc : Memcheck → (fresh request_size filename instruction : ℕ) → Ptr × Memcheck
  mini_malloc s fresh request_size filename instruction =
      if request_size == 0 then (null, s) else if fresh == null then (null, s) else (
        fresh + meta_size,
        record s {
          heap = write s.heap fresh (
              some (record {
                request_size = request_size;
                filename = filename;
                instruction = instruction;
                next = s.head;
                bytes = (meta_size + request_size) % size_mod;
              }));
          head = fresh;
          total_memory_requested = (s.total_memory_requested + request_size) % size_mod;
        },
      )

  -- `num_elements * element_size` wraps; the user's bytes, which it sets to 0, are not part of the state.
  pub mini_calloc :
      Memcheck → (fresh num_elements element_size filename instruction : ℕ) → Ptr × Memcheck
  unfolding mini_malloc
  mini_calloc s fresh num_elements element_size filename instruction =
      mini_malloc s fresh (num_elements * element_size % size_mod) filename instruction

  -- The loop of `mini_free` and of `mini_realloc`. They compare the block's address with the payload
  -- less the meta data, and the block's address and the meta data with the payload.
  pub walk : ℕ → Heap → (payload prev curr : Ptr) → Option Found
  walk zero h payload prev curr = none
  walk (suc fuel) h payload prev curr =
      let rest = (do
        m ← h curr
        let further = walk fuel h payload curr m.next
        if payload == curr + meta_size then some (some (prev, curr, m)) else further) in
      if curr == null then some none else rest

  pub mini_free : ℕ → Memcheck → Ptr → Option Memcheck
  unfolding walk unlink release
  mini_free fuel s payload =
      let rest = (do f ← walk fuel s.heap payload null s.head; release s f) in
      if payload == null then some s else rest

  -- What `mini_realloc` does with the block that it finds: `moved` is what `realloc` returns.
  resize : Memcheck → (moved request_size filename instruction : ℕ) → Found → Ptr × Memcheck
  resize s moved request_size filename instruction none =
      (null, record s { invalid_addresses = s.invalid_addresses + 1 })
  resize s moved request_size filename instruction (some (prev, curr, m)) =
      if request_size == m.request_size
      then (
        curr,
        record s {
          heap =
              write s.heap curr
                (some (record m { filename = filename; instruction = instruction }));
        },
      )
      else (
        moved + meta_size,
        record s {
          heap = write (write s.heap curr none) moved (
              some (record {
                request_size = request_size;
                filename = filename;
                instruction = instruction;
                next = m.next;
                bytes = request_size * meta_size % size_mod;
              }));
          total_memory_requested =
              if ltb m.request_size request_size
              then (s.total_memory_requested + (request_size - m.request_size)) % size_mod
              else s.total_memory_requested;
          total_memory_freed =
              if ltb request_size m.request_size
              then (s.total_memory_freed + (m.request_size - request_size)) % size_mod
              else s.total_memory_freed;
        },
      )

  -- The nodes before the block still point at `curr`, and so does the head.
  resize_live :
      ℕ → Memcheck → (payload moved request_size filename instruction : ℕ) → Option (Ptr × Memcheck)
  unfolding walk resize
  resize_live fuel s payload moved request_size filename instruction = do
    f ← walk fuel s.heap payload null s.head
    some (resize s moved request_size filename instruction f)

  -- `fresh` is what `malloc` returns where `mini_realloc` calls `mini_malloc`.
  pub mini_realloc :
      ℕ
      → Memcheck
      → (payload fresh moved request_size filename instruction : ℕ) → Option (Ptr × Memcheck)
  unfolding mini_malloc mini_free resize_live
  mini_realloc fuel s payload fresh moved request_size filename instruction =
      let allocated = some (mini_malloc s fresh request_size filename instruction) in
      let freed = (do t ← mini_free fuel s payload; some (null, t)) in
      let resized = resize_live fuel s payload moved request_size filename instruction in
      if payload == null && request_size == 0
      then some (null, s)
      else if payload == null
      then allocated
      else if request_size == 0
      then freed
      else resized
