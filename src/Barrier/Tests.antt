-- ===== src/Barrier/Tests.antt =====
-- critical_concurrency/barrier.c on a barrier of two threads.
use cs.Prelude.{◌≡◌, true, arith}
use cs.Barrier.{
  System, start, arrive, arrives, Reach, here, next, IsGrouped, Reach-IsGrouped, early_pass,
}

Reach-IsGrouped_example : IsGrouped 2 (arrive (start 2))
Reach-IsGrouped_example =
    Reach-IsGrouped (omega arith) (omega arith) (next here (arrives (start 2)))

early_pass_example :
    (s : System) × Reach true (start 2) s × (s.passed ≡ 1) × (s.barrier.times_used ≡ 0)
early_pass_example = early_pass 2 (omega arith) (omega arith)
