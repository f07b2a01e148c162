-- ===== src/Malloc.antt =====
-- malloc/alloc.c: malloc, calloc, realloc and free over one list of free blocks.
-- The memory gives the size_t at an address; addresses and sizes of blocks are multiples of 8. A block begins
-- with its size, the user's pointer is behind that, and a free block ends in its `struct node`: the pointer
-- `size`, then `next` and `prev`. sbrk is an argument, with no result for (void*) -1; `none` is a walk that
-- does not end within its fuel, or a fault: malloc stores a size at the address -1.
pub mod Spaces
pub mod Reuse
mod Tests
use cs.Prelude.{
  ℕ, zero, suc, ◌+◌, ◌-◌, ◌*◌, ◌/◌, ◌%◌, ◌^◌, Option, none, some, Bool, true, false, ◌==◌, ltb, leb,
  if◌then◌else◌, ◌&&◌, ◌>>=◌,
}
use cs.Prelude.Int.{ℤ, pos, negsuc}

abbrev pub Ptr : Type 0
Ptr = ℕ

abbrev pub null : Ptr
null = 0

abbrev pub word_size : ℕ
word_size = 8

abbrev pub node_size : ℕ
node_size = 24

pub record Heap : Type 0 where
  pub memory : Ptr → ℕ
  pub head : Ptr
  pub tail : Ptr

abbrev pub store : Ptr → ℕ → Heap → Heap
store p value h = record h { memory = λ a. if a == p then value else h.memory a }

-- the fields of a `struct node`
abbrev pub size_of : Ptr → Ptr
size_of node = node

abbrev pub next_of : Ptr → Ptr
next_of node = node + 8

abbrev pub prev_of : Ptr → Ptr
prev_of node = node + 16

pub get_size_ptr : Ptr → Ptr
get_size_ptr ptr = ptr - word_size

pub get_size : Ptr → Heap → ℕ
get_size ptr h = h.memory (ptr - word_size)

pub get_ptr : Ptr → Ptr
get_ptr ptr = ptr + word_size

-- `*(ptr->size)--` moves the pointer, from the user's bytes to the size of the block.
pub remove_node : Ptr → Heap → Heap
remove_node ptr h =
    let next = h.memory (next_of ptr) in
    let prev = h.memory (prev_of ptr) in
    let unlinked : Heap =
      if prev == null
      then if next == null
        then record h { head = null }
        else store (next_of ptr) null (store (prev_of next) null (record h { head = next }))
      else if next == null
      then store (next_of prev) null h
      else store (prev_of next) prev (store (next_of prev) next h) in
    if ptr == null
    then h
    else store (size_of ptr) (unlinked.memory (size_of ptr) - word_size) unlinked

-- `while (space % 8 != 0) space++;`
pub round_up : ℕ → ℕ → ℕ
round_up zero space = space
round_up (suc fuel) space = if space % 8 == 0 then space else round_up fuel ((space + 1) % 2 ^ 64)

-- the size of a block for `size` bytes
pub space_for : (size : ℕ) → ℕ
unfolding round_up
space_for size =
    round_up 8 (((if ltb size node_size then node_size else size) + word_size) % 2 ^ 64)

-- The walk over the free blocks. `size` of a free block points at the user's bytes, and their first word is
-- what is compared.
pub first_fit : (fuel : ℕ) (space : ℕ) (curr : Ptr) → Heap → Option (Option Ptr)
first_fit zero space curr h = none
first_fit (suc fuel) space curr h =
    let further = first_fit fuel space (h.memory (next_of curr)) h in
    if curr == null
    then some none
    else if leb space (h.memory (h.memory (size_of curr)))
    then some (some curr)
    else further

-- the increment of `sbrk`, an `intptr_t`
pub intptr : ℕ → ℤ
intptr n = if ltb n (2 ^ 63) then pos n else negsuc (2 ^ 64 - 1 - n)

pub malloc : (fuel : ℕ) (sbrk : ℤ → Option Ptr) (size : ℕ) → Heap → Option (Ptr × Heap)
unfolding space_for first_fit remove_node get_ptr intptr
malloc fuel sbrk size h = do
  found ← first_fit fuel (space_for size) h.head h
  elim found [
    | none ↦ (do
      block ← sbrk (intptr (space_for size))
      some (get_ptr block, store block (space_for size) h))
    | some curr ↦ some (get_ptr ((remove_node curr h).memory (size_of curr)), remove_node curr h)
  ]

-- `*(this->size)++` moves the pointer, from the size of the block to the user's bytes.
pub free : Ptr → Heap → Heap
unfolding get_size get_size_ptr
free ptr h =
    let this = ptr - word_size + get_size ptr h - node_size in
    let sized = store (size_of this) (get_size_ptr ptr + word_size) h in
    let first : Heap = record (store (next_of this) null (store (prev_of this) null sized)) {
      head = this;
      tail = this;
    } in
    let linked =
      store (prev_of h.head) this (store (next_of this) h.head (store (prev_of this) null sized)) in
    let further : Heap = record linked { head = this } in
    if ptr == null then h else if h.head == null then first else further

-- `count` bytes from `ptr` on are set to 0; the last word may keep its upper bytes.
pub clear : Ptr → (count : ℕ) → Heap → Heap
clear ptr count h = record h {
  memory = λ a.
      let word = h.memory a in
      let left = ptr + count - a in
      if ltb a ptr then word else if leb 8 left then 0 else word / 2 ^ (8 * left) * 2 ^ (8 * left);
}

pub calloc : (fuel : ℕ) (sbrk : ℤ → Option Ptr) (num size : ℕ) → Heap → Option (Ptr × Heap)
unfolding malloc clear
calloc fuel sbrk num size h = do
  (alloc, h') ← malloc fuel sbrk (num * size % 2 ^ 64) h
  some (alloc, clear alloc (num * size % 2 ^ 64) h')

-- `memcpy` of whole words between blocks that do not overlap
pub copy : (to from : Ptr) (count : ℕ) → Heap → Heap
copy to from count h = record h {
  memory = λ a. if leb to a && ltb a (to + count) then h.memory (from + (a - to)) else h.memory a;
}

pub realloc : (fuel : ℕ) (sbrk : ℤ → Option Ptr) (ptr : Ptr) (size : ℕ) → Heap → Option (Ptr × Heap)
unfolding malloc free get_size copy
realloc fuel sbrk ptr size h =
    let freed = if size == 0 then free ptr h else h in
    let moved = (do
      (alloc, h') ← malloc fuel sbrk size freed
      some (alloc, free ptr (copy alloc ptr (get_size ptr h') h'))) in
    if ptr == null
    then some (null, h)
    else if leb size (get_size ptr freed)
    then some (ptr, freed)
    else moved
