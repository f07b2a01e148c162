-- ===== src/Malloc/Reuse.antt =====
-- What malloc/alloc.c does with a block that was freed.
use cs.Prelude.{
  Option, ℕ, suc, ◌+◌, ◌-◌, ◌≤◌, ◌≡◌, refl, none, some, true, false, ◌==◌, leb, if◌then◌else◌,
  arith, ap, ◌∙◌,
}
use cs.Prelude.Int.{ℤ}
use cs.Malloc.{
  Ptr, Heap, null, store, space_for, first_fit, malloc, free, get_ptr, get_size, get_size_ptr,
  remove_node,
}

-- a block of the smallest size, whose node begins at the user's pointer, as the only free one
abbrev freed : Ptr → Heap → Heap
freed ptr h = record (store (ptr + 8) null (store (ptr + 16) null (store ptr ptr h))) {
  head = ptr;
  tail = ptr;
}

free_small :
    (ptr : Ptr) (h : Heap)
    → 8 ≤ ptr
    → h.head ≡ null
    → get_size ptr h ≡ 32
    → free ptr h ≡ freed ptr h
unfolding free get_size_ptr
free_small ptr h there empty_ size =
    let this : ptr - 8 + 32 - 24 ≡ ptr = omega (arith, there) in
    let block : (ptr == null) ≡ false = ground arith in
    let sized : ptr - 8 + 8 ≡ ptr = omega (arith, there) in
    rw (size, block, this, sized)
      (ap
        (λ b.
          if b == null
          then freed ptr h
          else record (store (b + 16) ptr
              (store (ptr + 8) b (store (ptr + 16) null (store ptr ptr h)))) { head = ptr })
        empty_)

word_of : (ptr : Ptr) (h : Heap) → (freed ptr h).memory ptr ≡ ptr
word_of ptr h = ground arith

next_word : (ptr : Ptr) (h : Heap) → (freed ptr h).memory (ptr + 8) ≡ null
next_word ptr h = ground arith

prev_word : (ptr : Ptr) (h : Heap) → (freed ptr h).memory (ptr + 16) ≡ null
prev_word ptr h = ground arith

size_word : (ptr : Ptr) (h : Heap) → 8 ≤ ptr → (freed ptr h).memory (ptr - 8) ≡ h.memory (ptr - 8)
size_word ptr h there = ground arith

-- the only free block, taken off
abbrev alone : Ptr → Heap → Heap
alone ptr h = store ptr (h.memory ptr - 8) (record h { head = null })

remove_alone :
    (ptr : Ptr) (h : Heap)
    → 8 ≤ ptr
    → h.memory (ptr + 8) ≡ null
    → h.memory (ptr + 16) ≡ null
    → remove_node ptr h ≡ alone ptr h
unfolding remove_node
remove_alone ptr h there next prev =
    let block : (ptr == null) ≡ false = ground arith in rw (block, next, prev, remove_node) refl

found_first :
    (fuel space : ℕ) (h : Heap)
    → (h.head == null) ≡ false
    → leb space (h.memory (h.memory h.head)) ≡ true
    → first_fit (suc fuel) space h.head h ≡ some (some h.head)
unfolding first_fit
found_first fuel space h some_block large =
    ap
      (λ b.
        if b
        then some none
        else if leb space (h.memory (h.memory h.head))
        then some (some h.head)
        else first_fit fuel space (h.memory (h.head + 8)) h)
      some_block
    ∙ ap (λ b. if b then some (some h.head) else first_fit fuel space (h.memory (h.head + 8)) h)
        large

reused :
    (fuel : ℕ) (sbrk : ℤ → Option Ptr) (size curr : ℕ) (h : Heap)
    → first_fit fuel (space_for size) h.head h ≡ some (some curr)
    → malloc fuel sbrk size h ≡ some ((remove_node curr h).memory curr + 8, remove_node curr h)
unfolding malloc get_ptr
reused fuel sbrk size curr h e = rw (e, malloc) refl

-- A freed block of the smallest size passes for as large as its own address: where no other block is free, it
-- is handed out again, with its 32 bytes, for a request of every size whose block is at most as large as that
-- address.
pub free-malloc :
    (fuel : ℕ) (sbrk : ℤ → Option Ptr) (size : ℕ) (ptr : Ptr) (h : Heap)
    → 8 ≤ ptr
    → h.head ≡ null
    → get_size ptr h ≡ 32
    → space_for size ≤ ptr
    → (h' : Heap) × (malloc (suc fuel) sbrk size (free ptr h) ≡ some (ptr, h'))
      × (get_size ptr h' ≡ 32)
unfolding get_size
free-malloc fuel sbrk size ptr h there empty_ small fits =
    let f = freed ptr h in
    let word = word_of ptr h in
    let large : leb (space_for size) (f.memory (f.memory ptr)) ≡ true =
      ap (λ p. leb (space_for size) (f.memory p)) word
      ∙ ap (leb (space_for size)) word
      ∙ ground arith in
    let taken =
      reused (suc fuel) sbrk size ptr f
        (found_first fuel (space_for size) f (ground arith) large) in
    let off = remove_alone ptr f there (next_word ptr h) (prev_word ptr h) in
    let same : (ptr == ptr) ≡ true = ground arith in
    let back : (alone ptr f).memory ptr ≡ ptr - 8 =
      ap (λ b. if b then f.memory ptr - 8 else f.memory ptr) same ∙ ap (λ p. p - 8) word in
    let other : (ptr - 8 == ptr) ≡ false = ground arith in
    (
      alone ptr f,
      ap (malloc (suc fuel) sbrk size) (free_small ptr h there empty_ small)
          ∙ taken
          ∙ ap (λ g. some (g.memory ptr + 8, g)) off
          ∙ ap (λ p. some (p + 8, alone ptr f)) back
          ∙ ap (λ p. some (p, alone ptr f)) (omega (arith, there)),
      ap (λ b. if b then f.memory ptr - 8 else f.memory (ptr - 8)) other
          ∙ size_word ptr h there
          ∙ small,
    )
