-- ===== src/Malloc/Tests.antt =====
-- malloc/alloc.c: a fresh block behind a free one, and a block handed out again.
use cs.Prelude.{Option, ◌%◌, ◌≡◌, ◌≤◌, refl, some, false, arith, ◌==◌, if◌then◌else◌}
use cs.Prelude.Int.{ℤ}
use cs.Malloc.{Ptr, Heap, malloc, free, get_size, space_for, round_up}
use cs.Malloc.Spaces.{none_left, passed, malloc_fresh}
use cs.Malloc.Reuse.{free-malloc}

-- a free block at 4096 of 48 bytes, whose first word is 7: its node stands at 4120
abbrev one_free : Heap
one_free = record {
  memory = λ a. if a == 4120 then 4104 else if a == 4104 then 7 else if a == 4096 then 48 else 0;
  head = 4120;
  tail = 4120;
}

-- a block at 4096 of 32 bytes in use
abbrev one_used : Heap
one_used = record { memory = λ a. if a == 4096 then 32 else 5; head = 0; tail = 0 }

-- the heap ends at 8192
abbrev brk : ℤ → Option Ptr
brk increment = some 8192

malloc_fresh_example :
    (h' : Heap) × (malloc 2 brk 100 one_free ≡ some (8200, h'))
    × (get_size 8200 h' % 8 ≡ 0)
    × (108 ≤ get_size 8200 h')
    × (32 ≤ get_size 8200 h')
    × ((a : Ptr) → (a == 8192) ≡ false → h'.memory a ≡ one_free.memory a)
unfolding space_for round_up
malloc_fresh_example =
    malloc_fresh 2 brk 8192 100 1 one_free (passed (omega arith) (omega arith) none_left)
      (omega arith) (omega arith) refl

-- a request for 1000 bytes
free-malloc_example :
    (h' : Heap) × (malloc 1 brk 1000 (free 4104 one_used) ≡ some (4104, h'))
    × (get_size 4104 h' ≡ 32)
unfolding get_size space_for round_up
free-malloc_example = free-malloc 0 brk 1000 4104 one_used (omega arith) refl refl (omega arith)
