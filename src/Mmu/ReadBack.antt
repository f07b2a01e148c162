-- ===== src/Mmu/ReadBack.antt =====
-- What is written to a virtual address of ideal_indirection/mmu.c is read back from it.
use cs.Prelude.{
  ℕ, zero, suc, ◌+◌, ◌%◌, ◌≤◌, ◌<◌, ◌≡◌, ◌≢◌, refl, some, true, false, ◌==◌, ◌&&◌, if◌then◌else◌,
  arith, List, [], ◌∷◌, length, ap, ap₂, ◌∙◌, le→leb,
}
use cs.Mmu.{
  Entry, PteRef, Tlb, Frames, page_size, Mmu, switch_to, locate, read, write, finish_read,
  finish_write, physical, bytes_at, store_bytes, entry_at,
}
use cs.Mmu.Access.{IsMapped, locate_maps, locate_hit, load_page_id}

store_bytes_below :
    (memory : ℕ → ℕ) (to a : ℕ) (bs : List ℕ) → a < to → store_bytes memory to bs a ≡ memory a
store_bytes_below memory to a [] h = refl
store_bytes_below memory to a (b ∷ bs) h = ground (arith, store_bytes_below memory (to + 1) a bs)

bytes_at-agree :
    (f g : ℕ → ℕ) (from n : ℕ)
    → ((a : ℕ) → from ≤ a → f a ≡ g a)
    → bytes_at f from n ≡ bytes_at g from n
bytes_at-agree f g from zero h = refl
bytes_at-agree f g from (suc n) h =
    ap₂ ◌∷◌ (h from (omega arith)) (bytes_at-agree f g (from + 1) n (λ a l. h a (omega arith)))

bytes_at-store :
    (memory : ℕ → ℕ) (to : ℕ) (bs : List ℕ)
    → bytes_at (store_bytes memory to bs) to (length bs) ≡ bs
bytes_at-store memory to [] = refl
bytes_at-store memory to (b ∷ bs) = ap₂ ◌∷◌ (ground arith) (
    bytes_at-agree (store_bytes memory to (b ∷ bs)) (store_bytes memory (to + 1) bs) (to + 1)
      (length bs) (λ a l. ground arith)
    ∙ bytes_at-store memory (to + 1) bs)

module _ (lib : Tlb) where
  -- the state after the write, from the state in which the page was found
  written_maps :
      (address : ℕ) (buffer : List ℕ) (n : Mmu lib) (ref : PteRef)
      → IsMapped lib n address ref
      → IsMapped lib (finish_write lib true address buffer ref n) address ref
  unfolding finish_write
  written_maps address buffer n ref h = record {
    cached = h.cached;
    present = ground (arith, h.present);
  }

  read_back :
      (address : ℕ) (buffer : List ℕ) (n : Mmu lib) (ref : PteRef)
      → (finish_read lib true address
          (length buffer)
          ref
          (finish_write lib true address buffer ref n)).0
        ≡ some buffer
  unfolding finish_read finish_write
  read_back address buffer n ref =
      let same : (if ref.0 == ref.0 && ref.1 == ref.1
            then record (entry_at lib n ref) { dirty = true; accessed = true }
            else entry_at lib n ref)
          ≡ record (entry_at lib n ref) { dirty = true; accessed = true } =
        ground arith in
      rw same (ap some (bytes_at-store n.memory (physical lib n ref address) buffer))

  counters :
      (address count : ℕ) (ref : PteRef) (n : Mmu lib)
      → let m = (finish_read lib true address count ref n).1 in
        (m.num_page_faults ≡ n.num_page_faults) × (m.num_tlb_misses ≡ n.num_tlb_misses)
  unfolding finish_read
  counters address count ref n = (refl, refl)

  switch_back : (pid : ℕ) (m : Mmu lib) → (switch_to lib pid m).curr_pid ≡ pid
  unfolding switch_to
  switch_back pid m = ground arith

  switch_directories : (pid : ℕ) (m : Mmu lib) → (switch_to lib pid m).directories ≡ m.directories
  unfolding switch_to
  switch_directories pid m = ground arith

  switch_same : (pid : ℕ) (m : Mmu lib) → m.curr_pid ≡ pid → switch_to lib pid m ≡ m
  unfolding switch_to
  switch_same pid m e = let test : (m.curr_pid == pid) ≡ true = ground arith in rw test

  -- For a process with a page directory, at an address other than 0, within the segments and within one
  -- page: after a write of some bytes, a read of as many from the same address by the same process
  -- returns those bytes, whatever frames the kernel gave, without a TLB miss and without a page fault.
  pub write-read :
      (pid address : ℕ) (buffer : List ℕ) (frames frames' : Frames) (m : Mmu lib)
      (directory : ℕ → Entry)
      → m.directories pid ≡ some directory
      → address ≢ 0
      → length buffer + address % page_size ≤ page_size
      → (n n' : Mmu lib) × (write lib pid address buffer true frames m ≡ some n)
        × (read lib pid address (length buffer) true frames' n ≡ some (some buffer, n'))
        × (n'.num_page_faults ≡ n.num_page_faults)
        × (n'.num_tlb_misses ≡ n.num_tlb_misses)
  unfolding write read
  write-read pid address buffer frames frames' m directory d ne fits =
      let l =
        locate_maps lib pid address frames (switch_to lib pid m) directory
          (ap (λ ds. ds pid) (switch_directories pid m) ∙ d) in
      let n = finish_write lib true address buffer l.ref l.after in
      let mapped = written_maps address buffer l.after l.ref l.mapped in
      let process : n.curr_pid ≡ pid = unfold finish_write in (l.process ∙ switch_back pid m) in
      let again : locate lib pid address frames' (switch_to lib pid n) ≡ some (l.ref, n) =
        ap (locate lib pid address frames') (switch_same pid n process)
        ∙ locate_hit lib pid address frames' n l.ref mapped.cached
        ∙ ap (λ k. some (l.ref, k)) (load_page_id lib l.ref frames' n mapped.present) in
      let nonzero : (address == 0) ≡ false = ground arith in
      let inside = le→leb (length buffer + address % page_size) page_size fits in
      let end = finish_read lib true address (length buffer) l.ref n in
      let kept = counters address (length buffer) l.ref n in
      (
        n,
        end.1,
        rw (inside, nonzero, l.located),
        rw (inside, nonzero, again)
            (ap (λ b. some (b, end.1)) (read_back address buffer l.after l.ref)),
        kept.0,
        kept.1,
      )
