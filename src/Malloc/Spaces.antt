-- ===== src/Malloc/Spaces.antt =====
-- The sizes of blocks in malloc/alloc.c, and blocks fresh from sbrk.
use cs.Prelude.{
  ◌>>=◌, Option, ℕ, zero, suc, ◌+◌, ◌-◌, ◌*◌, ◌/◌, ◌%◌, ◌^◌, ◌≤◌, ◌<◌, ◌≡◌, refl, none, some, true,
  false, ◌==◌, ltb, leb, if◌then◌else◌, arith, ap, sym, subst, ◌∙◌,
}
use cs.Prelude.Int.{ℤ, pos, negsuc}
use cs.Malloc.{
  intptr, Ptr, Heap, null, store, node_size, round_up, space_for, first_fit, malloc, get_ptr,
  get_size, next_of,
}

round_up_lem :
    (fuel k m space : ℕ)
    → space + k ≡ 8 * m
    → k < 8
    → k ≤ fuel
    → 8 * m < 2 ^ 64
    → round_up fuel space ≡ 8 * m
unfolding round_up
round_up_lem zero k m space whole less few small = omega (arith, whole, few)
round_up_lem (suc fuel) zero m space whole less few small =
    let even : (space % 8 == 0) ≡ true = ground (arith, whole) in
    ap (λ b. if b then space else round_up fuel ((space + 1) % 2 ^ 64)) even ∙ omega (arith, whole)
round_up_lem (suc fuel) (suc k) m space whole less few small =
    let odd : (space % 8 == 0) ≡ false = ground (arith, whole, less) in
    let next : (space + 1) % 2 ^ 64 ≡ space + 1 = omega (arith, whole, small) in
    ap (λ b. if b then space else round_up fuel ((space + 1) % 2 ^ 64)) odd
    ∙ ap (round_up fuel) next
    ∙ round_up_lem fuel k m (space + 1) (omega (arith, whole)) (omega (arith, less))
        (omega (arith, few)) small

-- the bytes that a block needs: those of the user or of a node, and the size in front
abbrev pub wanted : ℕ → ℕ
wanted size = (if ltb size node_size then node_size else size) + 8

pub space_for_lem : (size : ℕ) → size + 16 < 2 ^ 64 → space_for size ≡ 8 * ((wanted size + 7) / 8)
unfolding space_for
space_for_lem size small =
    let fits : wanted size + 7 < 2 ^ 64 = ground arith in
    let kept : wanted size % 2 ^ 64 ≡ wanted size = omega (arith, fits) in
    let m = (wanted size + 7) / 8 in
    ap (round_up 8) kept
    ∙ round_up_lem 8 (8 * m - wanted size) m (wanted size) (omega arith) (omega arith) (omega arith)
        (omega (arith, fits))

-- The free blocks are passed over where each compares as too small.
pub data AllSmall (h : Heap) (space : ℕ) : ℕ → Ptr → Type 0 where
  none_left : AllSmall h space 0 null
  passed :
      {count : ℕ} {curr : Ptr}
      → 0 < curr
      → h.memory (h.memory curr) < space
      → AllSmall h space count (h.memory (next_of curr))
      → AllSmall h space (suc count) curr

first_fit-none :
    {h : Heap} {space count : ℕ} {curr : Ptr} (fuel : ℕ)
    → AllSmall h space count curr
    → count < fuel
    → first_fit fuel space curr h ≡ some none
unfolding first_fit
first_fit-none zero small enough = absurd (omega (arith, enough))
first_fit-none (suc fuel) none_left enough = refl
first_fit-none {h = h} {space = space} {curr = curr} (suc fuel)
      (passed {count = count} there less small) enough =
    let block : (curr == null) ≡ false = ground arith in
    let short : leb space (h.memory (h.memory curr)) ≡ false = ground arith in
    rw (block, short, first_fit) (first_fit-none {count = count} fuel small (omega (arith, enough)))

fresh :
    (fuel : ℕ) (sbrk : ℤ → Option Ptr) (block size : ℕ) (h : Heap)
    → first_fit fuel (space_for size) h.head h ≡ some none
    → sbrk (pos (space_for size)) ≡ some block
    → space_for size < 2 ^ 63
    → malloc fuel sbrk size h ≡ some (get_ptr block, store block (space_for size) h)
unfolding malloc intptr
fresh fuel sbrk block size h e more small =
    let positive : ltb (space_for size) (2 ^ 63) ≡ true = ground arith in
    rw (e, malloc)
      (ap
          (λ b.
            sbrk (if b then pos (space_for size) else negsuc (2 ^ 64 - 1 - space_for size)) >>= λ p.
            some (get_ptr p, store p (space_for size) h))
          positive
        ∙ ap (λ o. o >>= λ p. some (get_ptr p, store p (space_for size) h)) more)

-- Where every free block compares as too small and sbrk gives a block, the walk ends, and malloc of less
-- than 2 ^ 63 - 16 bytes takes that block: the size in front of the user's pointer is a multiple of 8 that
-- holds the bytes asked for and the size itself, and at least 32, and all other memory is as it was.
pub malloc_fresh :
    (fuel : ℕ) (sbrk : ℤ → Option Ptr) (block size count : ℕ) (h : Heap)
    → AllSmall h (space_for size) count h.head
    → count < fuel
    → size + 16 < 2 ^ 63
    → sbrk (pos (space_for size)) ≡ some block
    → (h' : Heap) × (malloc fuel sbrk size h ≡ some (block + 8, h'))
      × (get_size (block + 8) h' % 8 ≡ 0)
      × (size + 8 ≤ get_size (block + 8) h')
      × (32 ≤ get_size (block + 8) h')
      × ((a : Ptr) → (a == block) ≡ false → h'.memory a ≡ h.memory a)
unfolding get_size get_ptr
malloc_fresh fuel sbrk block size count h small enough less more =
    let space = space_for_lem size (omega (arith, less)) in
    let same : (block == block) ≡ true = ground arith in
    let kept : get_size (block + 8) (store block (space_for size) h) ≡ space_for size =
      ap (λ a. if a == block then space_for size else h.memory a) (omega arith)
      ∙ ap (λ b. if b then space_for size else h.memory block) same in
    let bounded : 8 * ((wanted size + 7) / 8) < 2 ^ 63 = ground arith in
    (
      store block (space_for size) h,
      fresh fuel sbrk block size h (first_fit-none fuel small enough) more
          (subst (λ k. k < 2 ^ 63) (sym space) bounded),
      subst (λ k. k % 8 ≡ 0) (sym (kept ∙ space)) (omega arith),
      subst (λ k. size + 8 ≤ k) (sym (kept ∙ space)) (ground arith),
      subst (λ k. 32 ≤ k) (sym (kept ∙ space)) (ground arith),
      λ a other. ap (λ b. if b then space_for size else h.memory a) other,
    )

-- A request for one of the last eight sizes of a size_t wraps: the block has at most 8 bytes, as many as its
-- size needs.
space_for_wraps : (size : ℕ) → size < 2 ^ 64 → 2 ^ 64 ≤ size + 8 → space_for size ≤ 8
unfolding space_for
space_for_wraps size small large =
    let wrapped = (if ltb size node_size then node_size else size) + 8 in
    let little : wrapped % 2 ^ 64 < 8 = ground arith in
    let m = (wrapped % 2 ^ 64 + 7) / 8 in
    let bound : 8 * m ≤ 8 = omega (arith, little) in
    subst (λ k. k ≤ 8)
      (sym (
        round_up_lem 8 (8 * m - wrapped % 2 ^ 64) m (wrapped % 2 ^ 64) (omega arith) (omega arith)
          (omega arith) (omega (arith, bound))))
      bound
