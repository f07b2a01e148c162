-- ===== src/Scheduler/Order.antt =====
-- What the comparers of savvy_scheduler/libscheduler.c say.
use cs.Prelude.{Bool, true, false, ◌≡◌, refl, ◌⊎◌, inl, inr, ◌↔◌, arith}
use cs.Prelude.Int.{ltb_ℤ}
use cs.Scheduler.{
  Scheme, fcfs, pri, ppri, psrtf, rr, sjf, Double, Job, Sign, before, same, after, by, comparer,
  comparer_fcfs, break_tie, comparer_pri, comparer_ppri, comparer_psrtf, comparer_rr, comparer_sjf,
}

-- by a first key, and where neither of its tests holds by `rest`
abbrev pub First : (less greater : Bool) → Type 0 → Type 0
First less greater rest = (less ≡ true) ⊎ ((less ≡ false) × (greater ≡ false) × rest)

module _ (double : Double) where
  open double use {less, sub}

  abbrev Earlier : Job double → Job double → Type 0
  Earlier a b = less a.xxtime b.xxtime ≡ true

  -- `a` goes before `b`: by the time of arrival, by the priority, by the time that is left to run, by the
  -- time of the last run, or by the running time; ties by the time of arrival, but for the last run.
  abbrev pub Precedes : Scheme → Job double → Job double → Type 0
  Precedes fcfs a b = Earlier a b
  Precedes pri a b = First (ltb_ℤ a.priority b.priority) (ltb_ℤ b.priority a.priority) (Earlier a b)
  Precedes ppri a b =
      First (ltb_ℤ a.priority b.priority) (ltb_ℤ b.priority a.priority) (Earlier a b)
  Precedes psrtf a b =
      First (less (sub a.rt a.ut) (sub b.rt b.ut)) (less (sub b.rt b.ut) (sub a.rt a.ut))
        (Earlier a b)
  Precedes rr a b = less a.rr_time b.rr_time ≡ true
  Precedes sjf a b = First (less a.rt b.rt) (less b.rt a.rt) (Earlier a b)

  -- One comparison, with what is known of the rest.
  by_before :
      (g s : Bool) (rest : Sign) (R : Type 0)
      → (s ≡ true → g ≡ false)
      → (rest ≡ before) ↔ R
      → (by g s rest ≡ before) ↔ First s g R
  by_before true true rest R asym r = absurd (ground (arith, asym))
  by_before true false rest R asym r = (λ e. ground arith, λ p. ground arith)
  by_before false true rest R asym r = (λ e. inl refl, λ p. refl)
  by_before false false rest R asym r =
      (λ e. inr (refl, refl, r.0 e), λ p. elim p [ inl e ↦ ground arith | inr q ↦ r.1 q.2 ])

  by_after :
      (g s : Bool) (rest : Sign) (R : Type 0)
      → (s ≡ true → g ≡ false)
      → (rest ≡ after) ↔ R
      → (by g s rest ≡ after) ↔ First g s R
  by_after true true rest R asym r = (λ e. inl refl, λ p. refl)
  by_after true false rest R asym r = (λ e. inl refl, λ p. refl)
  by_after false true rest R asym r = (λ e. ground arith, λ p. ground arith)
  by_after false false rest R asym r =
      (λ e. inr (refl, refl, r.0 e), λ p. elim p [ inl e ↦ ground arith | inr q ↦ r.1 q.2 ])

  only_before : (g s : Bool) → (s ≡ true → g ≡ false) → (by g s same ≡ before) ↔ (s ≡ true)
  only_before true s asym = (λ e. ground arith, λ h. ground (arith, asym))
  only_before false true asym = (λ e. refl, λ h. refl)
  only_before false false asym = (λ e. ground arith, λ h. ground arith)

  only_after : (g s : Bool) → (by g s same ≡ after) ↔ (g ≡ true)
  only_after true s = (λ e. refl, λ h. refl)
  only_after false true = (λ e. ground arith, λ h. ground arith)
  only_after false false = (λ e. ground arith, λ h. ground arith)

  fcfs_before : (a b : Job double) → (comparer_fcfs double a b ≡ before) ↔ Earlier a b
  unfolding comparer_fcfs
  fcfs_before a b =
      only_before (less b.xxtime a.xxtime) (less a.xxtime b.xxtime)
        (double.less_asym a.xxtime b.xxtime)

  fcfs_after : (a b : Job double) → (comparer_fcfs double a b ≡ after) ↔ Earlier b a
  unfolding comparer_fcfs
  fcfs_after a b = only_after (less b.xxtime a.xxtime) (less a.xxtime b.xxtime)

  asym_ℤ :
      (a b : Job double) → ltb_ℤ a.priority b.priority ≡ true → ltb_ℤ b.priority a.priority ≡ false
  asym_ℤ a b h = ground arith

  -- What a comparer says of two jobs.
  abbrev Says : Scheme → (Job double → Job double → Sign) → Type 0
  Says scheme cmp =
      (a b : Job double)
      → ((cmp a b ≡ before) ↔ Precedes scheme a b) × ((cmp a b ≡ after) ↔ Precedes scheme b a)

  fcfs-Says : Says fcfs (comparer_fcfs double)
  fcfs-Says a b = (fcfs_before a b, fcfs_after a b)

  pri-Says : Says pri (comparer_pri double)
  unfolding comparer_pri break_tie
  pri-Says a b = (
    by_before (ltb_ℤ b.priority a.priority) (ltb_ℤ a.priority b.priority) (comparer_fcfs double a b)
        (Earlier a b) (asym_ℤ a b) (fcfs_before a b),
    by_after (ltb_ℤ b.priority a.priority) (ltb_ℤ a.priority b.priority) (comparer_fcfs double a b)
        (Earlier b a) (asym_ℤ a b) (fcfs_after a b),
  )

  psrtf-Says : Says psrtf (comparer_psrtf double)
  unfolding comparer_psrtf break_tie
  psrtf-Says a b =
      let l = sub a.rt a.ut in
      let r = sub b.rt b.ut in
      (
        by_before (less r l) (less l r) (comparer_fcfs double a b) (Earlier a b)
            (double.less_asym l r) (fcfs_before a b),
        by_after (less r l) (less l r) (comparer_fcfs double a b) (Earlier b a)
            (double.less_asym l r) (fcfs_after a b),
      )

  rr-Says : Says rr (comparer_rr double)
  unfolding comparer_rr
  rr-Says a b = (
    only_before (less b.rr_time a.rr_time) (less a.rr_time b.rr_time)
        (double.less_asym a.rr_time b.rr_time),
    only_after (less b.rr_time a.rr_time) (less a.rr_time b.rr_time),
  )

  sjf-Says : Says sjf (comparer_sjf double)
  unfolding comparer_sjf break_tie
  sjf-Says a b = (
    by_before (less b.rt a.rt) (less a.rt b.rt) (comparer_fcfs double a b) (Earlier a b)
        (double.less_asym a.rt b.rt) (fcfs_before a b),
    by_after (less b.rt a.rt) (less a.rt b.rt) (comparer_fcfs double a b) (Earlier b a)
        (double.less_asym a.rt b.rt) (fcfs_after a b),
  )

  -- The comparer of every scheme returns -1 exactly where the first job precedes the second by that scheme,
  -- and 1 exactly where the second precedes the first, whatever the times are, NaN included.
  pub comparer-Precedes :
      (scheme : Scheme) (a b : Job double)
      → ((comparer double scheme a b ≡ before) ↔ Precedes scheme a b)
        × ((comparer double scheme a b ≡ after) ↔ Precedes scheme b a)
  unfolding comparer comparer_ppri
  comparer-Precedes fcfs = fcfs-Says
  comparer-Precedes pri = pri-Says
  comparer-Precedes ppri = pri-Says
  comparer-Precedes psrtf = psrtf-Says
  comparer-Precedes rr = rr-Says
  comparer-Precedes sjf = sjf-Says
