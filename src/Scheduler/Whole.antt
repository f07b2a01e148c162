-- ===== src/Scheduler/Whole.antt =====
-- savvy_scheduler/libscheduler.c where the times are whole numbers: the comparers are orders, and the
-- statistics add up.
use cs.Prelude.{not, ◌&&◌, ◌≡◌, ◌≢◌, arith, List, [], ◌∷◌, ◌∙◌}
use cs.Prelude.Int.{ℤ, pos, ◌+ℤ◌, ◌-ℤ◌, ltb_ℤ, int_laws}
use cs.Scheduler.{
  Scheme, fcfs, pri, ppri, psrtf, rr, sjf, Double, Job, Sign, before, same, after, by, comparer,
  comparer_fcfs, break_tie, comparer_pri, comparer_ppri, comparer_psrtf, comparer_rr, comparer_sjf,
  Stats, job_finished,
}

abbrev pub whole : Double
whole = record {
  Value = ℤ;
  less = ltb_ℤ;
  equal = λ a b. not (ltb_ℤ a b) && not (ltb_ℤ b a);
  add = λ a b. a +ℤ b;
  sub = λ a b. a -ℤ b;
  zero = pos 0;
  less_asym = λ a b h. ground arith;
}

abbrev pub flip : Sign → Sign
flip before = after
flip same = same
flip after = before

-- The two arguments swapped give the opposite sign, and "not after" is transitive.
pub record IsOrder (cmp : Job whole → Job whole → Sign) : Type 0 where
  pub swap : (a b : Job whole) → cmp b a ≡ flip (cmp a b)
  pub trans : (a b c : Job whole) → cmp a b ≢ after → cmp b c ≢ after → cmp a c ≢ after

abbrev by_keys : ℤ → ℤ → Sign → Sign
by_keys a b rest = by (ltb_ℤ b a) (ltb_ℤ a b) rest

-- a comparison by two keys, the second for ties
lex_swap : (x y u v : ℤ) → by_keys y x (by_keys v u same) ≡ flip (by_keys x y (by_keys u v same))
lex_swap x y u v = ground arith

lex_trans :
    (x y z u v w : ℤ)
    → by_keys x y (by_keys u v same) ≢ after
    → by_keys y z (by_keys v w same) ≢ after
    → by_keys x z (by_keys u w same) ≢ after
lex_trans x y z u v w h g e = ground arith

fcfs-IsOrder : IsOrder (comparer_fcfs whole)
unfolding comparer_fcfs
fcfs-IsOrder = record { swap = λ a b. ground arith; trans = λ a b c h g e. ground arith }

pri-IsOrder : IsOrder (comparer_pri whole)
unfolding comparer_pri break_tie comparer_fcfs
pri-IsOrder = record { swap = λ a b. ground arith; trans = λ a b c h g e. ground arith }

psrtf-IsOrder : IsOrder (comparer_psrtf whole)
unfolding comparer_psrtf break_tie comparer_fcfs
psrtf-IsOrder = record {
  swap = λ a b. lex_swap (a.rt -ℤ a.ut) (b.rt -ℤ b.ut) a.xxtime b.xxtime;
  trans =
      λ a b c. lex_trans (a.rt -ℤ a.ut) (b.rt -ℤ b.ut) (c.rt -ℤ c.ut) a.xxtime b.xxtime c.xxtime;
}

rr-IsOrder : IsOrder (comparer_rr whole)
unfolding comparer_rr
rr-IsOrder = record { swap = λ a b. ground arith; trans = λ a b c h g e. ground arith }

sjf-IsOrder : IsOrder (comparer_sjf whole)
unfolding comparer_sjf break_tie comparer_fcfs
sjf-IsOrder = record { swap = λ a b. ground arith; trans = λ a b c h g e. ground arith }

-- The comparer of every scheme is an order on the jobs.
pub comparer-IsOrder : (s : Scheme) → IsOrder (comparer whole s)
unfolding comparer comparer_ppri
comparer-IsOrder fcfs = fcfs-IsOrder
comparer-IsOrder pri = pri-IsOrder
comparer-IsOrder ppri = pri-IsOrder
comparer-IsOrder psrtf = psrtf-IsOrder
comparer-IsOrder rr = rr-IsOrder
comparer-IsOrder sjf = sjf-IsOrder

-- The events at which jobs finish, one after another.
pub run_finished : Stats whole → List (Job whole × ℤ) → Stats whole
run_finished s [] = s
run_finished s ((j, time) ∷ js) = run_finished (job_finished whole s j time) js

-- the running times of the jobs
pub total_rt : List (Job whole × ℤ) → ℤ
total_rt [] = pos 0
total_rt ((j, time) ∷ js) = j.rt +ℤ total_rt js

finish_one :
    (s : Stats whole) (j : Job whole) (time rest : ℤ)
    → (job_finished whole s j time).ttat -ℤ (job_finished whole s j time).twt +ℤ rest
      ≡ s.ttat -ℤ s.twt +ℤ (j.rt +ℤ rest)
unfolding job_finished
finish_one s j time rest = omega int_laws

-- However many jobs finish, and when: the total waiting time that is reported is the total turnaround
-- time less the running times of those jobs, and each of them is counted once.
pub finished_balance :
    (s : Stats whole) (js : List (Job whole × ℤ))
    → (run_finished s js).ttat -ℤ (run_finished s js).twt ≡ s.ttat -ℤ s.twt +ℤ total_rt js
unfolding run_finished total_rt
finished_balance s [] = omega int_laws
finished_balance s ((j, time) ∷ js) =
    finished_balance (job_finished whole s j time) js ∙ finish_one s j time (total_rt js)
