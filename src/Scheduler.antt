-- ===== src/Scheduler.antt =====
-- savvy_scheduler/libscheduler.c: the comparers of the six schemes, and the scheduler's events.
-- The times are `double`s, a parameter with what IEEE 754 says of `<` alone: sums and differences may be
-- rounded, and a time may be NaN. The priority queue is a library beside the source, and a parameter.
pub mod Order
pub mod Events
pub mod Whole
mod Tests
use cs.Prelude.{
  ℕ, suc, ◌+◌, ◌≡◌, ◌≢◌, Option, none, some, Bool, true, false, ◌==◌, if◌then◌else◌, List, [], ◌∷◌,
}
use cs.Prelude.Int.{ℤ, ltb_ℤ}

pub data Scheme : Type 0 where
  fcfs pri ppri psrtf rr sjf : Scheme

-- what a comparer returns: -1, 0 and 1
pub data Sign : Type 0 where
  before same after : Sign

-- the tests `a > b` and `b > a`, and what is left
abbrev pub by : (greater smaller : Bool) → Sign → Sign
by greater smaller rest = if greater then after else if smaller then before else rest

unfoldable pub is_preemptive : Scheme → Bool
is_preemptive psrtf = true
is_preemptive ppri = true
is_preemptive rr = true
is_preemptive s = false

abbrev pub one_if : Bool → ℕ
one_if true = 1
one_if false = 0

-- `double` with the operations that the program uses. No two numbers are each less than the other, and NaN
-- is neither less nor greater than any.
pub record Double : Type 1 where
  pub Value : Type 0
  pub less : Value → Value → Bool
  pub equal : Value → Value → Bool
  pub add : Value → Value → Value
  pub sub : Value → Value → Value
  pub zero : Value
  pub less_asym : (a b : Value) → less a b ≡ true → less b a ≡ false

module _ (double : Double) where
  open double use {Value, less, equal, add, sub, zero}

  -- `job_info`
  pub record Job : Type 0 where
    pub id : ℕ
    pub priority : ℤ
    pub rt : Value
    pub rr_time : Value
    pub xxtime : Value
    pub et : Value
    pub ut : Value
    pub st : Value

  pub comparer_fcfs : Job → Job → Sign
  comparer_fcfs a b = by (less b.xxtime a.xxtime) (less a.xxtime b.xxtime) same

  pub break_tie : Job → Job → Sign
  unfolding comparer_fcfs
  break_tie a b = comparer_fcfs a b

  pub comparer_pri : Job → Job → Sign
  unfolding break_tie
  comparer_pri a b = by (ltb_ℤ b.priority a.priority) (ltb_ℤ a.priority b.priority) (break_tie a b)

  pub comparer_ppri : Job → Job → Sign
  unfolding comparer_pri
  comparer_ppri a b = comparer_pri a b

  pub comparer_psrtf : Job → Job → Sign
  unfolding break_tie
  comparer_psrtf a b =
      let left_a = sub a.rt a.ut in
      let left_b = sub b.rt b.ut in by (less left_b left_a) (less left_a left_b) (break_tie a b)

  pub comparer_rr : Job → Job → Sign
  comparer_rr a b = by (less b.rr_time a.rr_time) (less a.rr_time b.rr_time) same

  pub comparer_sjf : Job → Job → Sign
  unfolding break_tie
  comparer_sjf a b = by (less b.rt a.rt) (less a.rt b.rt) (break_tie a b)

  -- the comparer that `scheduler_start_up` puts into the queue
  unfoldable pub comparer : Scheme → Job → Job → Sign
  comparer fcfs = comparer_fcfs
  comparer pri = comparer_pri
  comparer ppri = comparer_ppri
  comparer psrtf = comparer_psrtf
  comparer rr = comparer_rr
  comparer sjf = comparer_sjf

  -- The statistics, and the number of finished jobs.
  pub record Stats : Type 0 where
    pub job_count : ℕ
    pub twt : Value
    pub ttat : Value
    pub trt : Value

  -- `scheduler_quantum_expired` for the job that gives up the processor: the time it ran is added.
  abbrev pub evict : Value → Job → Job
  evict time j = record j { ut = add j.ut (sub time j.rr_time) }

  -- what is noted in a job that gets the processor
  pub dispatch : Value → Job → Job
  dispatch time j =
      if equal j.ut zero
      then record j { rr_time = time; st = time }
      else record j { rr_time = time }

  -- libpriqueue, made with a comparer: offering puts a job in, polling takes out a job that no other
  -- one comes before. `count k` is the number of jobs in it with the id `k`.
  pub record Priqueue (cmp : Job → Job → Sign) : Type 1 where
    pub Queue : Type 0
    pub init : Queue
    pub offer : Queue → Job → Queue
    pub poll : Queue → Option (Job × Queue)
    pub count : ℕ → Queue → ℕ
    pub Within : Job → Queue → Type 0
    pub count-init : (k : ℕ) → count k init ≡ 0
    pub count-offer :
        (k : ℕ) (q : Queue) (j : Job) → count k (offer q j) ≡ one_if (j.id == k) + count k q
    pub poll-none : (q : Queue) → poll q ≡ none → (k : ℕ) → count k q ≡ 0
    pub poll-some :
        (q : Queue) (j : Job) (r : Queue)
        → poll q ≡ some (j, r)
        → (k : ℕ) → count k q ≡ one_if (j.id == k) + count k r
    pub Within-offer_new : (q : Queue) (j : Job) → Within j (offer q j)
    pub Within-offer_old : (q : Queue) (i j : Job) → Within i q → Within i (offer q j)
    pub poll-first :
        (q : Queue) (j : Job) (r : Queue)
        → poll q ≡ some (j, r)
        → (i : Job) → Within i q
        → cmp i j ≢ before
    pub poll-occupied : (q : Queue) (i : Job) → Within i q → poll q ≢ none

  module _ (scheme : Scheme) (lib : Priqueue (comparer scheme)) where
    open lib use {Queue, init, offer, poll}

    -- `scheduler_new_job`, with the fields of the new `job_info`
    pub new_job :
        Queue → (job_number : ℕ) → (time : Value) (priority : ℤ) (running_time : Value) → Queue
    new_job q job_number time priority running_time = offer q (record {
      id = job_number;
      priority = priority;
      rt = running_time;
      rr_time = zero;
      xxtime = time;
      et = zero;
      ut = zero;
      st = zero;
    })

    -- `priqueue_poll`, and the notes in the job
    pub next_job : Queue → Value → Option Job × Queue
    unfolding dispatch
    next_job q time = elim (poll q) [ none ↦ (none, q) | some (j, r) ↦ (some (dispatch time j), r) ]

    abbrev pub put_back : Queue → Option Job → Value → Queue
    put_back q none time = q
    put_back q (some j) time = offer q (evict time j)

    abbrev pub keep : Queue → Option Job → Value → Option Job × Queue
    keep q none time = next_job q time
    keep q (some j) time = (some j, q)

    pub quantum_expired : Queue → Option Job → Value → Option Job × Queue
    unfolding next_job is_preemptive
    quantum_expired q evicted time =
        if is_preemptive scheme
        then next_job (put_back q evicted time) time
        else keep q evicted time

  -- The job itself is released here, so that only the statistics stay.
  pub job_finished : Stats → Job → Value → Stats
  job_finished s j time = record {
    job_count = s.job_count + 1;
    ttat = add s.ttat (sub time j.xxtime);
    twt = add s.twt (sub (sub time j.xxtime) j.rt);
    trt = add s.trt (sub j.st j.xxtime);
  }
