-- ===== src/Vector/Capacity.antt =====
-- `get_new_capacity` of vector/vector.c: the doubling loop, its bound and its overflow.
use cs.Prelude.{
  ℕ, zero, suc, ◌+◌, ◌*◌, ◌%◌, ◌^◌, ◌≤◌, ◌<◌, ◌≡◌, refl, inl, inr, none, some, arith, ltb,
  Bool-cases, ltb→lt, lt→ltb,
}
use native.Mathlib.Decide.{dec_le}
use cs.Vector.{double_until, get_new_capacity, size_mod}

-- The powers of two, by doubling.
unfoldable pub pow2 : ℕ → ℕ
pow2 zero = 1
pow2 (suc k) = pow2 k * 2

pow2-pos : (k : ℕ) → 1 ≤ pow2 k
unfolding pow2
pow2-pos zero = omega arith
pow2-pos (suc k) = omega (arith, pow2-pos k)

pow2_mono : (j k : ℕ) → j ≤ k → pow2 j ≤ pow2 k
unfolding pow2
pow2_mono zero k h = pow2-pos k
pow2_mono (suc j) zero h = elim h [ ]
pow2_mono (suc j) (suc k) h = omega (arith, pow2_mono j k (omega arith))

-- what the loop returns when the target lies in the range of the remaining doublings
pub record IsLeastPower (target c : ℕ) : Type 0 where
  pub exponent : ℕ
  pub is_power : c ≡ pow2 exponent
  pub enough : target ≤ c
  pub least : (j : ℕ) → target ≤ pow2 j → c ≤ pow2 j

pow2_step : (k target : ℕ) → pow2 k < target → target ≤ pow2 63 → suc k ≤ 63
pow2_step k target h g = elim (dec_le (suc k) 63) [
  | yes p ↦ p
  | no p ↦ absurd (omega (arith, pow2_mono 63 k (omega arith)))
]

pub pow2_sixty : pow2 60 ≡ 2 ^ 60
unfolding pow2
pow2_sixty = refl

pub pow2_top : pow2 63 ≡ 2 ^ 63
unfolding pow2
pow2_top = refl

below_least : (k target j : ℕ) → pow2 k < target → target ≤ pow2 j → pow2 (suc k) ≤ pow2 j
below_least k target j h g = elim (dec_le (suc k) j) [
  | yes p ↦ pow2_mono (suc k) j p
  | no p ↦ absurd (omega (arith, pow2_mono j k (omega arith)))
]

double_step :
    (k target : ℕ) → pow2 k < target → target ≤ pow2 63 → pow2 k * 2 % size_mod ≡ pow2 (suc k)
unfolding pow2
double_step k target h g = omega (arith, pow2_top, pow2_mono (suc k) 63 (pow2_step k target h g))

double_until_lem :
    (fuel k target : ℕ)
    → k + fuel ≡ 64
    → target ≤ pow2 63
    → ((j : ℕ) → target ≤ pow2 j → pow2 k ≤ pow2 j)
    → k ≤ 63
    → (c : ℕ) × (double_until fuel (pow2 k) target ≡ some c) × IsLeastPower target c
unfolding double_until
double_until_lem zero k target e small least hk = absurd (omega arith)
double_until_lem (suc fuel) k target e small least hk = elim (Bool-cases (ltb (pow2 k) target)) [
  | inl more ↦
      let below = ltb→lt (pow2 k) target more in
      let rest =
        double_until_lem fuel (suc k) target (omega arith) small
          (λ j g. below_least k target j below g) (omega (arith, pow2_step k target below small)) in
      (rest.0, rw (more, double_step k target below small) rest.1, rest.2)
  | inr done ↦ (
    pow2 k,
    rw done,
    record { exponent = k; is_power = refl; enough = ground arith; least = least },
  )
]

-- For every target of at most 2 ^ 63 `get_new_capacity` ends, and returns the least power of two
-- that is not below the target.
pub get_new_capacity_lem :
    (target : ℕ)
    → target ≤ 2 ^ 63
    → (c : ℕ) × (get_new_capacity target ≡ some c) × IsLeastPower target c
unfolding get_new_capacity pow2
get_new_capacity_lem target h =
    double_until_lem 64 0 target refl (omega (arith, pow2_top)) (λ j g. pow2-pos j) (omega arith)

-- Once the capacity has wrapped to 0 the loop makes no progress.
double_until-zero : (fuel target : ℕ) → 0 < target → double_until fuel 0 target ≡ none
unfolding double_until
double_until-zero zero target h = refl
double_until-zero (suc fuel) target h = rw (lt→ltb 0 target h) (double_until-zero fuel target h)

double_until_wraps :
    (fuel k target : ℕ) → k ≤ 63 → 2 ^ 63 < target → double_until fuel (pow2 k) target ≡ none
unfolding double_until pow2
double_until_wraps zero k target h g = refl
double_until_wraps (suc fuel) k target h g =
    let below : pow2 k < target = omega (arith, pow2_mono k 63 h, pow2_top) in
    rw (lt→ltb (pow2 k) target below) (elim (dec_le (suc k) 63) [
      | yes p ↦ rw (double_step_below k p) (double_until_wraps fuel (suc k) target p g)
      | no p ↦ rw (double_wraps k (omega arith)) (double_until-zero fuel target (omega arith))
    ])
  where
    double_step_below : (j : ℕ) → suc j ≤ 63 → pow2 j * 2 % size_mod ≡ pow2 (suc j)
    double_step_below j p = omega (arith, pow2_top, pow2_mono (suc j) 63 p)

    double_wraps : (j : ℕ) → j ≡ 63 → pow2 j * 2 % size_mod ≡ 0
    double_wraps j e = rw e refl

-- For a target above 2 ^ 63 the doubling wraps to 0 and the loop of `get_new_capacity` does not end,
-- whatever number of rounds it is given.
get_new_capacity_diverges :
    (rounds target : ℕ) → 2 ^ 63 < target → double_until rounds 1 target ≡ none
unfolding pow2
get_new_capacity_diverges rounds target h = double_until_wraps rounds 0 target (omega arith) h
