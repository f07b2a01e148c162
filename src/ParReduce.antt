-- ===== src/ParReduce.antt =====
-- teaching_threads/par_reduce.c: a reduction of a list, cut into one slice for each thread.
-- A thread writes only its own `thread_data` and reads the list, which nobody writes, so that its result
-- does not depend on the interleaving: it is computed where the thread is joined. The list is not NULL. An
-- element is of any type. `none` is a division by zero, or a position that the `int`s `offset`, `start` and
-- `end` do not hold.
mod Tests
use cs.Prelude.{
  ℕ, zero, suc, ◌+◌, ◌-◌, ◌*◌, ◌/◌, ◌≤◌, ◌<◌, ◌≡◌, refl, Option, none, some, List, [], ◌∷◌, ◌++◌,
  ◌==◌, ltb, ◌^◌, ◌>>=◌, true, if◌then◌else◌, get_or, length, take, drop, arith, ap, ◌∙◌, sym,
  false, drop-cons, drop-drop, take-append-drop, take-all, length-drop,
}

abbrev pub int_end : ℕ
int_end = 2 ^ 31

module _ {A : Type 0} (reduce_func : A → A → A) where
  -- the loop of `par_reduce_start_routine`, `count` rounds from `i`
  pub reduce_slice : ℕ → ℕ → List A → A → A
  reduce_slice zero i list reduced_output = reduced_output
  reduce_slice (suc count) i list reduced_output =
      reduce_slice count (i + 1) list (reduce_func reduced_output (get_or list i reduced_output))

  -- The reductions of the slices from `start` on, for the threads that are left; the last one goes to
  -- the end of the list.
  pub thread_outputs : ℕ → (start offset : ℕ) → List A → A → Option (List A)
  thread_outputs zero start offset list base_case = some []
  thread_outputs (suc zero) start offset list base_case =
      let end = length list in
      if ltb end int_end then some (reduce_slice (end - start) start list base_case ∷ []) else none
  thread_outputs (suc (suc n)) start offset list base_case =
      let end = start + offset in
      let rest = (do
        outputs ← thread_outputs (suc n) end offset list base_case
        some (reduce_slice offset start list base_case ∷ outputs)) in
      if ltb end int_end then rest else none

  -- the joins, in order
  pub join_all : List A → A → A
  join_all [] sum = sum
  join_all (r ∷ rs) sum = join_all rs (reduce_func sum r)

  pub thread_count : (list_len num_threads : ℕ) → ℕ
  thread_count list_len num_threads = if ltb list_len num_threads then list_len / 2 else num_threads

  pub par_reduce : List A → A → ℕ → Option A
  unfolding reduce_slice thread_outputs join_all thread_count
  par_reduce list base_case num_threads =
      let n = thread_count (length list) num_threads in
      let offset = length list / n in
      let joined = (do
        outputs ← thread_outputs n 0 offset list base_case
        some (join_all outputs base_case)) in
      if n == 0 then none else if ltb offset int_end then joined else none

  -- one element after another
  pub reduce : List A → A → A
  reduce [] acc = acc
  reduce (x ∷ xs) acc = reduce xs (reduce_func acc x)

  reduce_slice_lem :
      (count i : ℕ) (list : List A) (acc : A)
      → i + count ≤ length list
      → reduce_slice count i list acc ≡ reduce (take count (drop i list)) acc
  unfolding reduce_slice reduce
  reduce_slice_lem zero i list acc h = refl
  reduce_slice_lem (suc count) i list acc h =
      let x = get_or list i acc in
      reduce_slice_lem count (i + 1) list (reduce_func acc x) (omega arith)
      ∙ sym (ap (λ xs. reduce (take (suc count) xs) acc) (drop-cons list i acc (omega arith)))

  reduce-append : (xs ys : List A) (acc : A) → reduce (xs ++ ys) acc ≡ reduce ys (reduce xs acc)
  unfolding reduce
  reduce-append [] ys acc = refl
  reduce-append (x ∷ xs) ys acc = reduce-append xs ys (reduce_func acc x)

  -- What the callers rely on: the reducer is associative, and the base case is neutral on both sides.
  pub record IsMonoid (base : A) : Type 0 where
    pub assoc : (a b c : A) → reduce_func (reduce_func a b) c ≡ reduce_func a (reduce_func b c)
    pub left : (a : A) → reduce_func base a ≡ a
    pub right : (a : A) → reduce_func a base ≡ a

  reduce_from :
      {base : A} (m : IsMonoid base) (xs : List A) (acc : A)
      → reduce_func acc (reduce xs base) ≡ reduce xs acc
  unfolding reduce
  reduce_from m [] acc = m.right acc
  reduce_from {base} m (x ∷ xs) acc =
      ap (reduce_func acc) (sym (reduce_from m xs (reduce_func base x)))
      ∙ ap (λ a. reduce_func acc (reduce_func a (reduce xs base))) (m.left x)
      ∙ sym (m.assoc acc x (reduce xs base))
      ∙ reduce_from m xs (reduce_func acc x)

  bind_cons :
      (o : Option (List A)) (r acc : A)
      → ((o >>= λ rs. some (r ∷ rs)) >>= λ rs. some (join_all rs acc))
        ≡ (o >>= λ rs. some (join_all rs (reduce_func acc r)))
  unfolding join_all
  bind_cons none r acc = refl
  bind_cons (some rs) r acc = refl

  outputs_lem :
      {base : A} (m : IsMonoid base) (n start offset : ℕ) (list : List A) (acc : A)
      → start + n * offset + offset ≤ length list
      → length list < int_end
      → (thread_outputs (suc n) start offset list base >>= λ rs. some (join_all rs acc))
        ≡ some (reduce (drop start list) acc)
  unfolding thread_outputs join_all
  outputs_lem {base} m zero start offset list acc h small =
      let int : ltb (length list) int_end ≡ true = ground arith in
      rw int (
        ap some (
          ap (reduce_func acc) (
            reduce_slice_lem (length list - start) start list base (omega arith)
            ∙ ap (λ xs. reduce xs base)
                (take-all (length list - start) (drop start list)
                  (omega (arith, length-drop start list))))
          ∙ reduce_from m (drop start list) acc))
  outputs_lem {base} m (suc n) start offset list acc h small =
      let int : ltb (start + offset) int_end ≡ true = ground arith in
      let first = take offset (drop start list) in
      let slice : reduce_slice offset start list base ≡ reduce first base =
        reduce_slice_lem offset start list base (omega arith) in
      let tail_ = thread_outputs (suc n) (start + offset) offset list base in
      let r = reduce_slice offset start list base in
      ap
        (λ b.
          (if b then (tail_ >>= λ rs. some (r ∷ rs)) else none) >>= λ rs. some (join_all rs acc))
        int
      ∙ bind_cons tail_ r acc
      ∙ outputs_lem m n (start + offset) offset list (reduce_func acc r) (omega arith) small
      ∙ ap some (
          ap (λ a. reduce (drop (start + offset) list) a)
            (ap (reduce_func acc) slice ∙ reduce_from m first acc)
          ∙ sym (reduce-append first (drop (start + offset) list) acc)
          ∙ ap (λ xs. reduce xs acc)
              (ap (λ xs. first ++ xs) (sym (drop-drop start offset list))
                ∙ take-append-drop offset (drop start list)))

  thread_count_pos :
      (list_len num_threads : ℕ)
      → 1 ≤ num_threads
      → 2 ≤ list_len
      → 1 ≤ thread_count list_len num_threads
  unfolding thread_count
  thread_count_pos list_len num_threads one two = ground arith

  counted :
      {base : A} (list : List A) (n : ℕ)
      → IsMonoid base
      → 1 ≤ n
      → length list < int_end
      → (if n == 0
          then none
          else if ltb (length list / n) int_end
          then (thread_outputs n 0 (length list / n) list base >>= λ rs. some (join_all rs base))
          else none)
        ≡ some (reduce list base)
  counted list zero m one small = absurd (omega arith)
  counted {base} list (suc k) m one small =
      let nonzero : (suc k == 0) ≡ false = ground arith in
      let inside : length list / suc k ≤ length list = grind arith in
      let int : ltb (length list / suc k) int_end ≡ true = ground (arith, inside) in
      rw (nonzero, int) (outputs_lem m k 0 (length list / suc k) list base (grind arith) small)

  -- For at least one thread and at least two elements, and fewer than 2 ^ 31, an associative reducer and a neutral base case:
  -- `par_reduce` returns the reduction of the list, one element after another.
  pub par_reduce-reduce :
      {base : A} (list : List A) (num_threads : ℕ)
      → IsMonoid base
      → 1 ≤ num_threads
      → 2 ≤ length list
      → length list < 2 ^ 31
      → par_reduce list base num_threads ≡ some (reduce list base)
  unfolding par_reduce
  par_reduce-reduce {base} list num_threads m one two small =
      counted list (thread_count (length list) num_threads) m
        (thread_count_pos (length list) num_threads one two) small

  -- For a list of at most one element and more threads than elements, `par_reduce` divides by zero.
  pub par_reduce_small :
      (list : List A) (base : A) (num_threads : ℕ)
      → length list ≤ 1
      → length list < num_threads
      → par_reduce list base num_threads ≡ none
  unfolding par_reduce
  par_reduce_small list base num_threads small more = ground arith
