-- ===== src/Mmu/Tests.antt =====
-- ideal_indirection/mmu.c with a TLB that never drops a page, and one process.
use cs.Prelude.{
  ℕ, ◌*◌, ◌/◌, ◌^◌, ◌≡◌, refl, Option, none, some, true, false, ◌==◌, if◌then◌else◌, ◌>>=◌, [], ◌∷◌,
  arith,
}
use cs.Mmu.{Entry, PteRef, Tlb, Frames, Mmu, walk, read, write}
use cs.Mmu.Directory.{walk_forgets}
use cs.Mmu.ReadBack.{write-read}
use cs.Mmu.Process.{NewFrames, remove_process, remove_process-write}

abbrev Cache : Type 0
Cache = ℕ → Option PteRef

abbrev table_tlb : Tlb
table_tlb = record {
  Cache = Cache;
  get_pte = λ c page. c page;
  add_pte = λ c page ref other. if other == page then some ref else c other;
  flush = λ c page. none;
  get-flush = λ c page. refl;
  get-add = λ c page ref. ground arith;
}

abbrev absent : Entry
absent = record { present = false; base_addr = 0; dirty = false; accessed = false }

abbrev nothing : ℕ → Entry
nothing i = absent

-- process 0 is current and has a directory without a table; the others have none
abbrev machine : Mmu table_tlb
machine = record {
  tlb = λ page. none;
  curr_pid = 0;
  directories = λ pid. if pid == 0 then some nothing else none;
  tables = λ table i. absent;
  memory = λ a. 0;
  num_tlb_misses = 0;
  num_page_faults = 0;
  num_segmentation_faults = 0;
}

abbrev frames : Frames
frames = record { table_frame = 8192; page_frame = 12288 }

write-read_example :
    (n n' : Mmu table_tlb) × (write table_tlb 0 5000 (7 ∷ 8 ∷ []) true frames machine ≡ some n)
    × (read table_tlb 0 5000 2 true frames n ≡ some (some (7 ∷ 8 ∷ []), n'))
    × (n'.num_page_faults ≡ n.num_page_faults)
    × (n'.num_tlb_misses ≡ n.num_tlb_misses)
write-read_example =
    write-read table_tlb 0 5000 (7 ∷ 8 ∷ []) frames frames machine nothing refl (omega arith)
      (omega arith)

walk_forgets_example :
    (ref ref' : PteRef) × (n n' : Mmu table_tlb) × (walk table_tlb 0 5000 frames machine
      ≡ some (ref, n))
    × (walk table_tlb 0 5000 (record frames { table_frame = 16384 }) n ≡ some (ref', n'))
    × (ref.0 ≡ 8192 / 2 ^ 12 * 2 ^ 12)
    × (ref'.0 ≡ 16384 / 2 ^ 12 * 2 ^ 12)
    × (n'.num_page_faults ≡ 2)
walk_forgets_example =
    walk_forgets table_tlb 0 5000 frames (record frames { table_frame = 16384 }) machine nothing
      refl refl

remove_process-write_example :
    (remove_process table_tlb 4 1024 0 machine >>= λ (returned, m).
    write table_tlb 0 5000 (7 ∷ []) true frames m)
    ≡ none
remove_process-write_example =
    remove_process-write table_tlb 4 1024 0 machine (omega arith) 5000 (7 ∷ []) true frames
      (omega arith)

abbrev new_frames : NewFrames
new_frames = record { table_frame = 4096; first_page = 20480; second_page = 24576 }
