-- ===== src/Mmu/Directory.antt =====
-- The page directory of ideal_indirection/mmu.c at a page table that is not present.
use cs.Prelude.{ℕ, ◌+◌, ◌*◌, ◌/◌, ◌^◌, ◌≡◌, refl, some, false, arith, ap, ◌∙◌}
use cs.Mmu.{Entry, PteRef, Tlb, Frames, directory_index, table_index, page_number, Mmu, walk}

module _ (lib : Tlb) where
  walk_absent :
      (pid address : ℕ) (frames : Frames) (m : Mmu lib) (directory : ℕ → Entry)
      → m.directories pid ≡ some directory
      → (directory (directory_index address)).present ≡ false
      → (ref : PteRef) × (n : Mmu lib) × (walk lib pid address frames m ≡ some (ref, n))
        × (ref.0 ≡ frames.table_frame / 2 ^ 12 * 2 ^ 12)
        × (n.num_page_faults ≡ m.num_page_faults + 1)
        × (n.directories ≡ m.directories)
  unfolding walk
  walk_absent pid address frames m directory d absent =
      let table = frames.table_frame / 2 ^ 12 * 2 ^ 12 in
      let ref : PteRef = (table, table_index address) in
      (
        ref,
        record m {
          tlb = lib.add_pte m.tlb (page_number address) ref;
          num_page_faults = m.num_page_faults + 1;
          num_tlb_misses = m.num_tlb_misses + 1;
        },
        rw (d, absent),
        refl,
        refl,
        refl,
      )

  -- A page table that is not present stays so: the directory keeps its entry, and each walk for the
  -- address raises one more page fault and goes to whatever frame the kernel gives it that time.
  pub walk_forgets :
      (pid address : ℕ) (first second : Frames) (m : Mmu lib) (directory : ℕ → Entry)
      → m.directories pid ≡ some directory
      → (directory (directory_index address)).present ≡ false
      → (ref ref' : PteRef) × (n n' : Mmu lib) × (walk lib pid address first m ≡ some (ref, n))
        × (walk lib pid address second n ≡ some (ref', n'))
        × (ref.0 ≡ first.table_frame / 2 ^ 12 * 2 ^ 12)
        × (ref'.0 ≡ second.table_frame / 2 ^ 12 * 2 ^ 12)
        × (n'.num_page_faults ≡ m.num_page_faults + 2)
  walk_forgets pid address first second m directory d absent =
      let (ref, n, e, at, faults, same) = walk_absent pid address first m directory d absent in
      let (ref', n', e', at', faults', same') =
        walk_absent pid address second n directory (ap (λ ds. ds pid) same ∙ d) absent in
      (ref, ref', n, n', e, e', at, at', omega arith)
