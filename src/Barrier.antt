-- ===== src/Barrier.antt =====
-- critical_concurrency/barrier.c: a reusable barrier over a mutex and a condition variable.
-- `barrier_wait` is one atomic step up to its wait or its end; the threads that sleep in the wait, those
-- that a broadcast has released, and those that have returned are counted beside the struct.
mod Tests
use mathlib.Core.Bool.{false≢true}
use cs.Prelude.{
  ℕ, zero, suc, ◌+◌, ◌-◌, ◌*◌, ◌%◌, ◌^◌, ◌<◌, ◌≤◌, ◌≡◌, ◌≢◌, refl, Bool, true, false, ◌==◌,
  if◌then◌else◌, arith, Bool-cases, inl, inr, ==_iff, subst, ap,
}

-- `barrier_t`, whose counters are `unsigned int`
pub record Barrier : Type 0 where
  pub n_threads : ℕ
  pub count : ℕ
  pub times_used : ℕ

pub init : ℕ → Barrier
init num_threads = record { n_threads = num_threads; count = 0; times_used = 0 }

abbrev word_mod : ℕ
word_mod = 2 ^ 32

-- `barrier_wait` up to the point where the mutex is given up: whether the caller goes to sleep
-- (`false`) or broadcasts and returns (`true`), and the struct after it.
pub wait : Barrier → Bool × Barrier
wait b =
    let count = (b.count + 1) % word_mod in
    if count == b.n_threads
    then (true, record b { count = 0; times_used = (b.times_used + 1) % word_mod })
    else (false, record b { count = count })

pub record System : Type 0 where
  pub barrier : Barrier
  pub asleep : ℕ
  pub released : ℕ
  pub passed : ℕ

pub start : ℕ → System
unfolding init
start n = record { barrier = init n; asleep = 0; released = 0; passed = 0 }

-- A thread calls `barrier_wait`.
pub arrive : System → System
arrive s =
    let (last, b) = wait s.barrier in
    if last
    then record s {
      barrier = b;
      asleep = 0;
      released = s.released + s.asleep;
      passed = s.passed + 1;
    }
    else record s { barrier = b; asleep = s.asleep + 1 }

-- `spurious` says whether `pthread_cond_wait` may return without a broadcast, as POSIX allows: there is
-- no loop around it, so that the thread then returns from `barrier_wait`.
pub data Step (spurious : Bool) : System → System → Type 0 where
  arrives : (s : System) → Step spurious s (arrive s)
  resumes :
      (s : System)
      → 0 < s.released
      → Step spurious s (record s { released = s.released - 1; passed = s.passed + 1 })
  wakes :
      (s : System)
      → spurious ≡ true
      → 0 < s.asleep
      → Step spurious s (record s { asleep = s.asleep - 1; passed = s.passed + 1 })

pub data Reach (spurious : Bool) (s : System) : System → Type 0 where
  here : Reach spurious s s
  next : {t u : System} → Reach spurious s t → Step spurious t u → Reach spurious s u

-- The sleepers are those counted, fewer than a full group, and the threads that may pass or have
-- passed are whole groups, one for each use; the counter of the uses wraps.
pub record IsGrouped (n : ℕ) (s : System) : Type 0 where
  pub threads : s.barrier.n_threads ≡ n
  pub counted : s.barrier.count ≡ s.asleep
  pub below : s.barrier.count < n
  pub uses : ℕ
  pub used : s.barrier.times_used ≡ uses % word_mod
  pub groups : s.passed + s.released ≡ n * uses

wait_last :
    (b : Barrier)
    → b.count + 1 < word_mod
    → b.count + 1 ≡ b.n_threads
    → wait b ≡ (true, record b { count = 0; times_used = (b.times_used + 1) % word_mod })
unfolding wait
wait_last b small e =
    let test : ((b.count + 1) % word_mod == b.n_threads) ≡ true = ground arith in rw test

wait_sleeps :
    (b : Barrier)
    → b.count + 1 < word_mod
    → b.count + 1 ≢ b.n_threads
    → wait b ≡ (false, record b { count = b.count + 1 })
unfolding wait
wait_sleeps b small ne =
    let test : ((b.count + 1) % word_mod == b.n_threads) ≡ false = ground arith in
    let count : (b.count + 1) % word_mod ≡ b.count + 1 = omega arith in
    rw test (ap (λ (c : ℕ). (false, record b { count = c })) count)

arrive-IsGrouped : {n : ℕ} (s : System) → n < word_mod → IsGrouped n s → IsGrouped n (arrive s)
unfolding arrive
arrive-IsGrouped {n} s small g = elim (Bool-cases (s.barrier.count + 1 == s.barrier.n_threads)) [
  | inl at ↦ rw (wait_last s.barrier (omega (arith, g.below)) ((==_iff _ _).0 at)) record {
    threads = g.threads;
    counted = refl;
    below = omega (arith, g.below);
    uses = g.uses + 1;
    used = omega (arith, g.used);
    groups = grind (
      arith,
      g.groups,
      g.counted,
      g.threads,
      (==_iff (s.barrier.count + 1) s.barrier.n_threads).0 at,
    );
  }
  | inr more ↦ rw (wait_sleeps s.barrier (omega (arith, g.below)) (λ e. ground arith)) record {
    threads = g.threads;
    counted = omega (arith, g.counted);
    below = ground (arith, g.below, g.threads);
    uses = g.uses;
    used = g.used;
    groups = g.groups;
  }
]

Step-IsGrouped :
    {n : ℕ} {s t : System} → n < word_mod → Step false s t → IsGrouped n s → IsGrouped n t
Step-IsGrouped small (arrives s) g = arrive-IsGrouped s small g
Step-IsGrouped small (resumes s h) g = record {
  threads = g.threads;
  counted = g.counted;
  below = g.below;
  uses = g.uses;
  used = g.used;
  groups = omega (arith, h, g.groups);
}
Step-IsGrouped small (wakes s e h) g = absurd (false≢true e)

-- Without spurious wake-ups, for a barrier of n threads, 0 < n < 2 ^ 32: in every reachable state
-- fewer than n threads sleep, and the threads that have passed or been released number n for each
-- use of the barrier, which the counter of the uses counts modulo 2 ^ 32: no thread passes before its
-- group is complete.
pub Reach-IsGrouped :
    {n : ℕ} {s : System} → 0 < n → n < 2 ^ 32 → Reach false (start n) s → IsGrouped n s
unfolding start init
Reach-IsGrouped pos small here = record {
  threads = refl;
  counted = refl;
  below = pos;
  uses = 0;
  used = refl;
  groups = omega arith;
}
Reach-IsGrouped pos small (next r st) = Step-IsGrouped small st (Reach-IsGrouped pos small r)

-- With spurious wake-ups, at every barrier of at least two threads, and fewer than 2 ^ 32, some
-- thread can pass before the barrier has been used once.
pub early_pass :
    (n : ℕ)
    → 2 ≤ n
    → n < 2 ^ 32
    → (s : System) × Reach true (start n) s × (s.passed ≡ 1) × (s.barrier.times_used ≡ 0)
unfolding start init arrive
early_pass n h small =
    let b : Barrier = record { n_threads = n; count = 1; times_used = 0 } in
    let slept : arrive (start n) ≡ record { barrier = b; asleep = 1; released = 0; passed = 0 } =
      rw (arrive, wait_sleeps (init n) (omega arith) (omega arith)) in
    (
      record { barrier = b; asleep = 0; released = 0; passed = 1 },
      next (subst (λ t. Reach true (start n) t) slept (next here (arrives (start n))))
          (wakes (record { barrier = b; asleep = 1; released = 0; passed = 0 }) refl (omega arith)),
      refl,
      refl,
    )
