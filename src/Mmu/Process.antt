-- ===== src/Mmu/Process.antt =====
-- ideal_indirection/mmu.c: mmu_add_process and mmu_remove_process.
-- The segments are not part of the state: the test of an address against them is an argument of an access.
-- Neither are the permission bits and the swap files. MAX_PROCESS_ID and NUM_ENTRIES stand in a header that is not in the repository, and are parameters.
use cs.Prelude.{
  ℕ, zero, suc, ◌+◌, ◌*◌, ◌/◌, ◌^◌, ◌%◌, ◌≤◌, ◌<◌, ◌≡◌, ◌≢◌, refl, Option, none, some, Bool, true,
  false, ◌==◌, leb, ltb, if◌then◌else◌, ◌>>=◌, ◌>>◌, assert, arith, List, [], ◌∷◌, ◌++◌, length, ap,
  ◌∙◌, Bool-cases, inl, inr,
}
use cs.Mmu.{
  Entry, PteRef, Tlb, Frames, page_size, page_number, directory_index, table_index, Mmu, switch_to,
  walk, locate, tlb_miss, write, entry_at, write_entry,
}
use cs.Mmu.Access.{load_page_id}

-- What the kernel answers: the frames for the first page table and for the pages 1 and 2.
pub record NewFrames : Type 0 where
  pub table_frame : ℕ
  pub first_page : ℕ
  pub second_page : ℕ

-- the frames of the present pages of the entries from `i` on, of which `count` are left
pub pages_of : (count i : ℕ) → (ℕ → Entry) → List ℕ
pages_of zero i table = []
pages_of (suc count) i table =
    let rest = pages_of count (i + 1) table in
    if (table i).present then (table i).base_addr * 2 ^ 12 ∷ rest else rest

-- the frames below the present entries of a directory, from `i` on
pub frames_of : (num_entries count i : ℕ) → (ℕ → ℕ → Entry) → (ℕ → Entry) → List ℕ
unfolding pages_of
frames_of num_entries zero i tables directory = []
frames_of num_entries (suc count) i tables directory =
    let rest = frames_of num_entries count (i + 1) tables directory in
    let table = (directory i).base_addr * 2 ^ 12 in
    if (directory i).present then pages_of num_entries 0 (tables table) ++ table ∷ rest else rest

module _ (lib : Tlb) (max_process_id : ℕ) where
  -- one round of the loop over the pages 1 and 2
  abbrev pub set_page : PteRef → ℕ → Mmu lib → Mmu lib
  set_page ref frame m =
      write_entry lib ref
        (record (entry_at lib m ref) { base_addr = frame / 2 ^ 12; present = true }) m

  -- The directory with its first entry set.
  abbrev pub new_directory : (ℕ → Entry) → NewFrames → ℕ → Entry
  new_directory directory frames i =
      if i == 0
      then record (directory 0) { base_addr = frames.table_frame / 2 ^ 12; present = true }
      else directory i

  -- `directory` is what stands in the frame for the directory
  abbrev directed : ℕ → (ℕ → Entry) → NewFrames → Mmu lib → Mmu lib
  directed pid directory frames m = record m {
    directories = λ p. if p == pid then some (new_directory directory frames) else m.directories p;
  }

  abbrev mapped : ℕ → (ℕ → Entry) → NewFrames → Mmu lib → Mmu lib
  mapped pid directory frames m =
      let table = frames.table_frame / 2 ^ 12 * 2 ^ 12 in
      set_page (table, 2) frames.second_page
        (set_page (table, 1) frames.first_page (directed pid directory frames m))

  pub add_process : ℕ → (ℕ → Entry) → NewFrames → Mmu lib → Option (Mmu lib)
  add_process pid directory frames m = do
    assert (ltb pid max_process_id)
    some (mapped pid directory frames m)

  -- The frames that go back to the kernel, without that of the directory, and the state afterwards.
  pub remove_process : (num_entries pid : ℕ) → Mmu lib → Option (List ℕ × Mmu lib)
  unfolding frames_of
  remove_process num_entries pid m = do
    assert (ltb pid max_process_id)
    let returned : List ℕ = elim (m.directories pid) [
      | some directory ↦ frames_of num_entries num_entries 0 m.tables directory
      | none ↦ []
    ]
    let m' = record m { directories = λ p. if p == pid then none else m.directories p }
    some (returned, if m.curr_pid == pid then record m' { tlb = lib.flush m.tlb } else m')

  walk_null :
      (pid address : ℕ) (frames : Frames) (m : Mmu lib)
      → m.directories pid ≡ none
      → walk lib pid address frames m ≡ none
  unfolding walk
  walk_null pid address frames m null = rw null refl

  locate_null :
      (pid address : ℕ) (frames : Frames) (m : Mmu lib)
      → m.directories pid ≡ none
      → lib.get_pte m.tlb (page_number address) ≡ none
      → locate lib pid address frames m ≡ none
  unfolding locate
  locate_null pid address frames m null uncached =
      rw (uncached, walk_null pid address frames m null, locate) refl

  switched_null :
      (pid address : ℕ) (frames : Frames) (m : Mmu lib)
      → m.directories pid ≡ none
      → (m.curr_pid ≡ pid → lib.get_pte m.tlb (page_number address) ≡ none)
      → locate lib pid address frames (switch_to lib pid m) ≡ none
  unfolding switch_to
  switched_null pid address frames m null uncached = elim (Bool-cases (m.curr_pid == pid)) [
    | inl same ↦ rw same (locate_null pid address frames m null (uncached (ground arith)))
    | inr other ↦ rw other (
        locate_null pid address frames (record m { curr_pid = pid; tlb = lib.flush m.tlb }) null
          (lib.get-flush m.tlb (page_number address)))
  ]

  write_null :
      (pid address : ℕ) (buffer : List ℕ) (in_segments : Bool) (frames : Frames) (m : Mmu lib)
      → m.directories pid ≡ none
      → (m.curr_pid ≡ pid → lib.get_pte m.tlb (page_number address) ≡ none)
      → address ≢ 0
      → write lib pid address buffer in_segments frames m ≡ none
  unfolding write
  write_null pid address buffer in_segments frames m null uncached ne =
      let set : (address == 0) ≡ false = ground arith in
      let gone = switched_null pid address frames m null uncached in
      elim (Bool-cases (leb (length buffer + address % page_size) page_size)) [
        | inr e ↦ rw e refl
        | inl e ↦ rw (e, set, gone) refl
      ]

  -- After `mmu_remove_process` for a process number within the table, whichever process was current:
  -- a write of that process to an address that is not null finds neither a cached page nor a
  -- directory.
  pub remove_process-write :
      (num_entries pid : ℕ) (m : Mmu lib)
      → pid < max_process_id
      → (address : ℕ) (buffer : List ℕ) (in_segments : Bool) (frames : Frames) → address ≢ 0
      → (remove_process num_entries pid m >>= λ (returned, m').
          write lib pid address buffer in_segments frames m')
        ≡ none
  unfolding remove_process
  remove_process-write num_entries pid m small address buffer in_segments frames ne =
      let allowed : ltb pid max_process_id ≡ true = ground arith in
      elim (Bool-cases (m.curr_pid == pid)) [
        | inl e ↦
            rw (allowed, e)
              (write_null pid address buffer in_segments frames
                (record m {
                  directories = λ p. if p == pid then none else m.directories p;
                  tlb = lib.flush m.tlb;
                })
                (ground arith) (λ same. lib.get-flush m.tlb (page_number address)) ne)
        | inr e ↦
            rw (allowed, e)
              (write_null pid address buffer in_segments frames
                (record m { directories = λ p. if p == pid then none else m.directories p })
                (ground arith) (λ same. absurd (ground arith)) ne)
      ]

  abbrev walked_to : ℕ → ℕ → Mmu lib → PteRef → Option (PteRef × Mmu lib)
  walked_to pid address m ref =
      some (ref, tlb_miss lib (record m { tlb = lib.add_pte m.tlb (page_number address) ref }))

  walk_present :
      (pid address : ℕ) (frames : Frames) (m : Mmu lib) (directory : ℕ → Entry) (ref : PteRef)
      → m.directories pid ≡ some directory
      → (directory (directory_index address)).present ≡ true
      → ((directory (directory_index address)).base_addr * 2 ^ 12, table_index address) ≡ ref
      → walk lib pid address frames m ≡ walked_to pid address m ref
  unfolding walk
  walk_present pid address frames m directory ref d here at =
      rw (d, here) (ap (λ (r : PteRef). walked_to pid address m r) at)

  locate_present :
      (pid address : ℕ) (frames : Frames) (m : Mmu lib) (directory : ℕ → Entry) (ref : PteRef)
      → m.directories pid ≡ some directory
      → (directory (directory_index address)).present ≡ true
      → ((directory (directory_index address)).base_addr * 2 ^ 12, table_index address) ≡ ref
      → lib.get_pte m.tlb (page_number address) ≡ none
      → (entry_at lib m ref).present ≡ true
      → locate lib pid address frames m ≡ walked_to pid address m ref
  unfolding locate
  locate_present pid address frames m directory ref d here at uncached page =
      let after : Mmu lib =
        tlb_miss lib (record m { tlb = lib.add_pte m.tlb (page_number address) ref }) in
      let walked = walk_present pid address frames m directory ref d here at in
      rw (uncached, walked, locate)
        (ap (λ n. some (ref, n)) (load_page_id lib ref frames after page))

  switch_other :
      (pid : ℕ) (m : Mmu lib)
      → m.curr_pid ≢ pid
      → switch_to lib pid m ≡ record m { curr_pid = pid; tlb = lib.flush m.tlb }
  unfolding switch_to
  switch_other pid m other = let e : (m.curr_pid == pid) ≡ false = ground arith in rw e refl

  pages_set :
      (table page first second : ℕ) (m : Mmu lib)
      → 1 ≤ page
      → page ≤ 2
      → ((entry_at lib
            (set_page (table, 2) second (set_page (table, 1) first m))
            (table, page)).present
          ≡ true)
        × ((entry_at lib
              (set_page (table, 2) second (set_page (table, 1) first m))
              (table, page)).base_addr
            ≡ (if page == 1 then first else second) / 2 ^ 12)
  pages_set table page first second m low high =
      let same : (table == table) ≡ true = ground arith in
      elim (Bool-cases (page == 1)) [
        | inl e ↦
            let f : (page == 2) ≡ false = ground arith in
            (rw (same, f, e) refl, rw (same, f, e) refl)
        | inr e ↦
            let f : (page == 2) ≡ true = ground arith in (rw (same, f) refl, rw (same, f, e) refl)
      ]

  -- After `mmu_add_process` for a process number within the table and not the current one: an
  -- address in the pages 1 and 2 is found without a page fault, and its entry is present and points
  -- to the frame that the kernel gave for that page.
  pub add_process-locate :
      (pid : ℕ) (directory : ℕ → Entry) (new : NewFrames) (m : Mmu lib)
      → pid < max_process_id
      → m.curr_pid ≢ pid
      → (address : ℕ) (frames : Frames) → 1 ≤ page_number address
      → page_number address ≤ 2
      → (ref : PteRef) × (m' n : Mmu lib) × (add_process pid directory new m ≡ some m')
        × (locate lib pid address frames (switch_to lib pid m') ≡ some (ref, n))
        × (n.num_page_faults ≡ m.num_page_faults)
        × ((entry_at lib n ref).present ≡ true)
        × ((entry_at lib n ref).base_addr
            ≡ (if page_number address == 1 then new.first_page else new.second_page) / 2 ^ 12)
  unfolding add_process tlb_miss
  add_process-locate pid directory new m small other address frames low high =
      let allowed : ltb pid max_process_id ≡ true = ground arith in
      let table = new.table_frame / 2 ^ 12 * 2 ^ 12 in
      let ref : PteRef = (table, page_number address) in
      let m' = mapped pid directory new m in
      let s : Mmu lib = record m' { curr_pid = pid; tlb = lib.flush m.tlb } in
      let n : Mmu lib =
        tlb_miss lib (record s { tlb = lib.add_pte s.tlb (page_number address) ref }) in
      let page = page_number address in
      let (here, at_frame) =
        pages_set table page new.first_page new.second_page (directed pid directory new m) low
          high in
      let top : directory_index address ≡ 0 = omega arith in
      let row : table_index address ≡ page_number address = omega arith in
      let found : locate lib pid address frames s ≡ some (ref, n) =
        locate_present pid address frames s (new_directory directory new) ref (ground arith)
          (rw top refl) (rw (top, row) refl) (lib.get-flush m.tlb (page_number address)) here in
      (
        ref,
        m',
        n,
        rw allowed refl,
        ap (locate lib pid address frames) (switch_other pid m' other) ∙ found,
        refl,
        here,
        at_frame,
      )
