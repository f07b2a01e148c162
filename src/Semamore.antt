-- ===== src/Semamore.antt =====
-- critical_concurrency/semamore.c: a semaphore with a maximum.
-- A call runs under the mutex up to its wait or its end: `none` is a call that waits on the condition
-- variable and leaves the value as it is. Which sleeper a signal wakes is not modelled.
mod Tests
use cs.Prelude.{
  ℕ, ◌+◌, ◌-◌, ◌<◌, ◌≤◌, ◌≡◌, ◌≢◌, ◌⊎◌, Option, none, some, ◌==◌, if◌then◌else◌, arith, refl, suc,
  Bool-cases, inl, inr,
}

-- The value and its maximum are not negative, as every caller of semm_init has it.
pub record Semamore : Type 0 where
  pub value : ℕ
  pub max_val : ℕ

pub init : ℕ → ℕ → Semamore
init value max_val = record { value = value; max_val = max_val }

pub wait : Semamore → Option Semamore
wait s = if s.value == 0 then none else some (record s { value = s.value - 1 })

pub post : Semamore → Option Semamore
post s = if s.value == s.max_val then none else some (record s { value = s.value + 1 })

-- The completed calls of all threads in the order in which they held the mutex, by their numbers.
pub data Run (s : Semamore) : ℕ → ℕ → Semamore → Type 0 where
  start : Run s 0 0 s
  waited :
      {waits posts : ℕ} {t u : Semamore}
      → Run s waits posts t
      → wait t ≡ some u
      → Run s (suc waits) posts u
  posted :
      {waits posts : ℕ} {t u : Semamore}
      → Run s waits posts t
      → post t ≡ some u
      → Run s waits (suc posts) u

-- What holds after `waits` completed waits and `posts` completed posts that began at `s`.
pub record Balance (s : Semamore) (waits posts : ℕ) (t : Semamore) : Type 0 where
  pub max_val : t.max_val ≡ s.max_val
  pub bounded : t.value ≤ s.max_val
  pub balanced : t.value + waits ≡ s.value + posts

wait-Balance :
    {s t u : Semamore} (waits posts : ℕ)
    → Balance s waits posts t
    → wait t ≡ some u
    → Balance s (suc waits) posts u
unfolding wait
wait-Balance waits posts b e = ground arith

post-Balance :
    {s t u : Semamore} (waits posts : ℕ)
    → Balance s waits posts t
    → post t ≡ some u
    → Balance s waits (suc posts) u
unfolding post
post-Balance waits posts b e = ground arith

-- However the calls interleave, started on a semamore whose value is at most its maximum: the value
-- stays in that range and is the initial one, plus the posts and minus the waits that completed.
pub Run-Balance :
    {s t : Semamore} {waits posts : ℕ}
    → s.value ≤ s.max_val
    → Run s waits posts t
    → Balance s waits posts t
Run-Balance h start = record { max_val = refl; bounded = h; balanced = refl }
Run-Balance h (waited {waits} {posts} r e) = wait-Balance waits posts (Run-Balance h r) e
Run-Balance h (posted {waits} {posts} r e) = post-Balance waits posts (Run-Balance h r) e

-- Where the maximum is positive, a wait or a post completes in every state: they never both block.
pub never_both_block : (s : Semamore) → 0 < s.max_val → (wait s ≢ none) ⊎ (post s ≢ none)
unfolding wait post
never_both_block s h = elim (Bool-cases (s.value == 0)) [
  | inl at_zero ↦ inr (λ e. ground arith)
  | inr above ↦ inl (λ e. ground arith)
]
