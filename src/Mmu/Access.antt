-- ===== src/Mmu/Access.antt =====
-- What is written to a virtual address of ideal_indirection/mmu.c is read back from it.
use cs.Prelude.{ℕ, ◌≡◌, some, true, arith, ap, ◌∙◌, Bool-cases, inl, inr, Option-cases}
use cs.Mmu.{
  Entry, PteRef, Tlb, Frames, page_number, Mmu, find_table, walk, load_page, locate,
  directory_index, table_index, entry_at, tlb_miss,
}

module _ (lib : Tlb) where
  open lib use {get_pte}

  -- The TLB knows the page, and its entry is present.
  pub record IsMapped (m : Mmu lib) (address : ℕ) (ref : PteRef) : Type 0 where
    pub cached : get_pte m.tlb (page_number address) ≡ some ref
    pub present : (entry_at lib m ref).present ≡ true

  load_page_present :
      (ref : PteRef) (frames : Frames) (m : Mmu lib)
      → (entry_at lib (load_page lib ref frames m) ref).present ≡ true
  unfolding load_page
  load_page_present ref frames m = elim (Bool-cases (entry_at lib m ref).present) [
    | inl here ↦ rw (here, load_page) here
    | inr gone ↦ rw (gone, load_page) (ground arith)
  ]

  load_page_tlb :
      (ref : PteRef) (frames : Frames) (m : Mmu lib)
      → ((load_page lib ref frames m).tlb ≡ m.tlb)
        × ((load_page lib ref frames m).curr_pid ≡ m.curr_pid)
  unfolding load_page
  load_page_tlb ref frames m = ground arith

  pub load_page_id :
      (ref : PteRef) (frames : Frames) (m : Mmu lib)
      → (entry_at lib m ref).present ≡ true
      → load_page lib ref frames m ≡ m
  unfolding load_page
  load_page_id ref frames m here = rw here

  pub locate_hit :
      (pid address : ℕ) (frames : Frames) (m : Mmu lib) (ref : PteRef)
      → get_pte m.tlb (page_number address) ≡ some ref
      → locate lib pid address frames m ≡ some (ref, load_page lib ref frames m)
  unfolding locate
  locate_hit pid address frames m ref hit = rw (hit, locate)

  -- What the walk does to the TLB and to the process.
  record Walked (m : Mmu lib) (pid address : ℕ) (frames : Frames) : Type 0 where
    ref : PteRef
    after : Mmu lib
    walked : walk lib pid address frames m ≡ some (ref, after)
    cached : get_pte after.tlb (page_number address) ≡ some ref
    process : after.curr_pid ≡ m.curr_pid

  table_process :
      (e : Entry) (frames : Frames) (m : Mmu lib)
      → (find_table lib e frames m).1.curr_pid ≡ m.curr_pid
  unfolding find_table
  table_process e frames m = ground arith

  walk_adds :
      (pid address : ℕ) (frames : Frames) (m : Mmu lib) (directory : ℕ → Entry)
      → m.directories pid ≡ some directory
      → Walked m pid address frames
  unfolding walk
  walk_adds pid address frames m directory d =
      let found = find_table lib (directory (directory_index address)) frames m in
      let r : PteRef = (found.0, table_index address) in
      record {
        ref = r;
        after =
            tlb_miss lib
              (record (found.1) { tlb = lib.add_pte found.1.tlb (page_number address) r });
        walked = rw d;
        cached = lib.get-add found.1.tlb (page_number address) r;
        process = table_process (directory (directory_index address)) frames m;
      }

  -- The outcome of looking the page up, in the TLB or by the walk.
  pub record Located (m : Mmu lib) (pid address : ℕ) (frames : Frames) : Type 0 where
    pub ref : PteRef
    pub after : Mmu lib
    pub located : locate lib pid address frames m ≡ some (ref, after)
    pub mapped : IsMapped after address ref
    pub process : after.curr_pid ≡ m.curr_pid

  loaded_maps :
      (address : ℕ) (frames : Frames) (m : Mmu lib) (ref : PteRef)
      → get_pte m.tlb (page_number address) ≡ some ref
      → IsMapped (load_page lib ref frames m) address ref
  loaded_maps address frames m ref hit = record {
    cached = ap (λ t. get_pte t (page_number address)) (load_page_tlb ref frames m).0 ∙ hit;
    present = load_page_present ref frames m;
  }

  pub locate_maps :
      (pid address : ℕ) (frames : Frames) (m : Mmu lib) (directory : ℕ → Entry)
      → m.directories pid ≡ some directory
      → Located m pid address frames
  unfolding locate
  locate_maps pid address frames m directory d =
      elim (Option-cases (get_pte m.tlb (page_number address))) [
        | inl miss ↦
            let w = walk_adds pid address frames m directory d in
            record {
              ref = w.ref;
              after = load_page lib w.ref frames w.after;
              located = rw (miss, w.walked, locate);
              mapped = loaded_maps address frames w.after w.ref w.cached;
              process = (load_page_tlb w.ref frames w.after).1 ∙ w.process;
            }
        | inr (r, hit) ↦ record {
          ref = r;
          after = load_page lib r frames m;
          located = rw (hit, locate);
          mapped = loaded_maps address frames m r hit;
          process = (load_page_tlb r frames m).1;
        }
      ]
