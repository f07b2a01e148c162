-- ===== src/ParReduce/Tests.antt =====
-- teaching_threads/par_reduce.c: sums, with two threads over five numbers, and with too many threads.
use cs.Prelude.{ℕ, ◌+◌, ◌≡◌, some, [], ◌∷◌, arith}
use cs.ParReduce.{par_reduce, reduce, IsMonoid, par_reduce-reduce}

abbrev add : ℕ → ℕ → ℕ
add a b = a + b

add-IsMonoid : IsMonoid add 0
add-IsMonoid = record {
  assoc = λ a b c. omega arith;
  left = λ a. omega arith;
  right = λ a. omega arith;
}

par_reduce-reduce_example :
    par_reduce add (1 ∷ 2 ∷ 3 ∷ 4 ∷ 5 ∷ []) 0 2 ≡ some (reduce add (1 ∷ 2 ∷ 3 ∷ 4 ∷ 5 ∷ []) 0)
par_reduce-reduce_example =
    par_reduce-reduce add (1 ∷ 2 ∷ 3 ∷ 4 ∷ 5 ∷ []) 2 add-IsMonoid (omega arith) (omega arith)
      (omega arith)
