-- ===== src/Mmu.antt =====
-- ideal_indirection/mmu.c: reading and writing a virtual address, and removing a process.
-- The address is below 2 ^ 32, so that the masks and shifts of the source are quotients and remainders.
-- The permission bits of an entry are left out, and so is the assertion on the process number at an access:
-- a number without a place in the table has no directory. The TLB, the kernel's frames, the swap and the test of the segments are code beside the source: the
-- first is a parameter, and what the others answer is an argument.
pub mod Access
pub mod Directory
pub mod ReadBack
pub mod Process
mod Tests
use cs.Prelude.{
  ℕ, zero, suc, ◌+◌, ◌-◌, ◌*◌, ◌/◌, ◌%◌, ◌^◌, ◌≡◌, ◌≢◌, Option, none, some, Bool, true, false, ◌==◌,
  ltb, leb, ◌&&◌, if◌then◌else◌, ◌>>=◌, ◌>>◌, assert, List, [], ◌∷◌, length, not,
}

abbrev pub page_size : ℕ
page_size = 4096

-- `page_directory_entry` and `page_table_entry`
pub record Entry : Type 0 where
  pub present : Bool
  pub base_addr : ℕ
  pub dirty : Bool
  pub accessed : Bool

-- A pointer to a page table entry: the address of the table, and the index in it.
abbrev pub PteRef : Type 0
PteRef = ℕ × ℕ

-- tlb.h: a cache from page numbers to pointers to page table entries.
pub record Tlb : Type 1 where
  pub Cache : Type 0
  pub get_pte : Cache → ℕ → Option PteRef
  pub add_pte : Cache → ℕ → PteRef → Cache
  pub flush : Cache → Cache
  pub get-flush : (c : Cache) (page : ℕ) → get_pte (flush c) page ≡ none
  pub get-add : (c : Cache) (page : ℕ) (ref : PteRef) → get_pte (add_pte c page ref) page ≡ some ref

-- What the kernel answers during one access: the frame for a missing page table, and that for a
-- missing page, as addresses.
pub record Frames : Type 0 where
  pub table_frame : ℕ
  pub page_frame : ℕ

abbrev pub page_number : ℕ → ℕ
page_number address = address / 2 ^ 12

abbrev pub directory_index : ℕ → ℕ
directory_index address = address / 2 ^ 22

abbrev pub table_index : ℕ → ℕ
table_index address = address / 2 ^ 12 % 2 ^ 10

abbrev pub offset : ℕ → ℕ
offset address = address % 2 ^ 12

abbrev pub bytes_at : (ℕ → ℕ) → ℕ → ℕ → List ℕ
bytes_at memory from zero = []
bytes_at memory from (suc n) = memory from ∷ bytes_at memory (from + 1) n

abbrev pub store_bytes : (ℕ → ℕ) → ℕ → List ℕ → ℕ → ℕ
store_bytes memory to [] a = memory a
store_bytes memory to (b ∷ bs) a = if a == to then b else store_bytes memory (to + 1) bs a

module _ (lib : Tlb) where
  open lib use {Cache, get_pte, add_pte, flush}

  pub record Mmu : Type 0 where
    pub tlb : Cache
    pub curr_pid : ℕ
    pub directories : ℕ → Option (ℕ → Entry)
    pub tables : ℕ → ℕ → Entry
    pub memory : ℕ → ℕ
    pub num_tlb_misses : ℕ
    pub num_page_faults : ℕ
    pub num_segmentation_faults : ℕ

  pub tlb_miss : Mmu → Mmu
  tlb_miss m = record m { num_tlb_misses = m.num_tlb_misses + 1 }

  pub raise_page_fault : Mmu → Mmu
  raise_page_fault m = record m { num_page_faults = m.num_page_faults + 1 }

  pub raise_segmentation_fault : Mmu → Mmu
  raise_segmentation_fault m = record m { num_segmentation_faults = m.num_segmentation_faults + 1 }

  abbrev pub entry_at : Mmu → PteRef → Entry
  entry_at m (table, index) = m.tables table index

  abbrev pub write_entry : PteRef → Entry → Mmu → Mmu
  write_entry (table, index) e m = record m {
    tables = λ t i. if t == table && i == index then e else m.tables t i;
  }

  -- `if (this->curr_pid != pid)`
  pub switch_to : ℕ → Mmu → Mmu
  switch_to pid m = if m.curr_pid == pid then m else record m { curr_pid = pid; tlb = flush m.tlb }

  -- The table that `entry` points at: `entry` is a copy of the directory's, and what is set in it when it
  -- is not present stays in the copy.
  pub find_table : Entry → Frames → Mmu → ℕ × Mmu
  unfolding raise_page_fault
  find_table entry frames m =
      if entry.present
      then (entry.base_addr * 2 ^ 12, m)
      else (frames.table_frame / 2 ^ 12 * 2 ^ 12, raise_page_fault m)

  -- The branch for a page number that the TLB does not know.
  pub walk : ℕ → ℕ → Frames → Mmu → Option (PteRef × Mmu)
  unfolding find_table tlb_miss
  walk pid address frames m = do
    directory ← m.directories pid
    let (table, m') = find_table (directory (directory_index address)) frames m
    let ref : PteRef = (table, table_index address)
    some (ref, tlb_miss (record m' { tlb = add_pte m'.tlb (page_number address) ref }))

  -- `if (pte->present == 0)`; the page is then read from the disk, which is not part of the state.
  pub load_page : PteRef → Frames → Mmu → Mmu
  unfolding raise_page_fault
  load_page ref frames m =
      if (entry_at m ref).present
      then m
      else raise_page_fault (
          write_entry ref
            (record (entry_at m ref) { base_addr = frames.page_frame / 2 ^ 12; present = true }) m)

  -- What the two accesses share: the entry of the page, present.
  pub locate : ℕ → ℕ → Frames → Mmu → Option (PteRef × Mmu)
  unfolding walk load_page
  locate pid address frames m =
      let walked = (do
        (ref, m') ← walk pid address frames m
        some (ref, load_page ref frames m')) in
      elim (get_pte m.tlb (page_number address)) [
        | some ref ↦ some (ref, load_page ref frames m)
        | none ↦ walked
      ]

  abbrev pub physical : Mmu → PteRef → ℕ → ℕ
  physical m ref address = offset address + (entry_at m ref).base_addr * 2 ^ 12

  -- `in_segments` is `address_in_segmentations` for the process; the result is the buffer, if it was
  -- written.
  finish_read : Bool → ℕ → ℕ → PteRef → Mmu → Option (List ℕ) × Mmu
  finish_read in_segments address num_bytes ref m =
      if in_segments
      then (
        some (bytes_at m.memory (physical m ref address) num_bytes),
        write_entry ref (record (entry_at m ref) { accessed = true }) m,
      )
      else (none, raise_segmentation_fault m)

  pub read : ℕ → ℕ → ℕ → Bool → Frames → Mmu → Option (Option (List ℕ) × Mmu)
  unfolding switch_to locate finish_read raise_segmentation_fault
  read pid address num_bytes in_segments frames m = do
    assert (leb (num_bytes + address % page_size) page_size)
    let at_null = some (none, raise_segmentation_fault m)
    let rest = (do
      (ref, m') ← locate pid address frames (switch_to pid m)
      some (finish_read in_segments address num_bytes ref m'))
    if address == 0 then at_null else rest

  finish_write : Bool → ℕ → List ℕ → PteRef → Mmu → Mmu
  finish_write in_segments address buffer ref m =
      if in_segments
      then (let m' =
            write_entry ref (record (entry_at m ref) { dirty = true; accessed = true }) m in
          record m' { memory = store_bytes m.memory (physical m ref address) buffer })
      else raise_segmentation_fault m

  pub write : ℕ → ℕ → List ℕ → Bool → Frames → Mmu → Option Mmu
  unfolding switch_to locate finish_write raise_segmentation_fault
  write pid address buffer in_segments frames m = do
    assert (leb (length buffer + address % page_size) page_size)
    let at_null = some (raise_segmentation_fault m)
    let rest = (do
      (ref, m') ← locate pid address frames (switch_to pid m)
      some (finish_write in_segments address buffer ref m'))
    if address == 0 then at_null else rest
