-- ===== src/Semamore/Tests.antt =====
-- critical_concurrency/semamore.c on a semaphore of at most one.
use cs.Prelude.{◌≡◌, refl, some, arith}
use cs.Semamore.{Semamore, post, start, posted, Balance, Run-Balance}

abbrev closed : Semamore
closed = record { value = 0; max_val = 1 }

abbrev opened : Semamore
opened = record { value = 1; max_val = 1 }

opens : post closed ≡ some opened
unfolding post
opens = refl

Run-Balance_example : Balance closed 0 1 opened
Run-Balance_example = Run-Balance (omega arith) (posted start opens)
