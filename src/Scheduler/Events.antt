-- ===== src/Scheduler/Events.antt =====
-- The events of savvy_scheduler/libscheduler.c: no job is lost, and the next one is a first one.
use cs.Prelude.{
  ℕ, ◌+◌, ◌≡◌, refl, Option, none, some, true, false, ◌==◌, arith, Bool-cases, inl, inr,
  Option-cases, ◌∙◌, sym, ap, if◌then◌else◌,
}
use cs.Scheduler.{
  Scheme, Double, Job, comparer, Priqueue, one_if, evict, dispatch, is_preemptive, next_job,
  put_back, keep, quantum_expired,
}
use cs.Scheduler.Order.{Precedes, comparer-Precedes}

module _ (double : Double) where
  open double use {Value, equal, add, sub, zero}

  id-dispatch : (time : Value) (j : Job double) → (dispatch double time j).id ≡ j.id
  unfolding dispatch
  id-dispatch time j = ground arith

  -- a job that is there or not, counted by its id
  abbrev pub held : ℕ → Option (Job double) → ℕ
  held k none = 0
  held k (some j) = one_if (j.id == k)

  dispatch_lem :
      (time : Value) (n : Job double)
      → dispatch double time n
        ≡ record n { rr_time = time; st = if equal n.ut zero then time else n.st }
  unfolding dispatch
  dispatch_lem time n = elim (Bool-cases (equal n.ut zero)) [
    | inl e ↦
        ap (λ b. if b then record n { rr_time = time; st = time } else record n { rr_time = time })
          e
        ∙ sym (ap (λ b. record n { rr_time = time; st = if b then time else n.st }) e)
    | inr e ↦
        ap (λ b. if b then record n { rr_time = time; st = time } else record n { rr_time = time })
          e
        ∙ sym (ap (λ b. record n { rr_time = time; st = if b then time else n.st }) e)
  ]

  module _ (scheme : Scheme) (lib : Priqueue double (comparer double scheme)) where
    open lib use {Queue, offer, poll, count, Within}

    next_job-none :
        (q : Queue) (time : Value) → poll q ≡ none → next_job double scheme lib q time ≡ (none, q)
    unfolding next_job
    next_job-none q time e = rw (e, next_job)

    next_job-some :
        (q r : Queue) (j : Job double) (time : Value)
        → poll q ≡ some (j, r)
        → next_job double scheme lib q time ≡ (some (dispatch double time j), r)
    unfolding next_job
    next_job-some q r j time e = rw (e, next_job)

    next_job-count :
        (q : Queue) (time : Value) (k : ℕ)
        → let (next, r) = next_job double scheme lib q time in held k next + count k r ≡ count k q
    next_job-count q time k = elim (Option-cases (poll q)) [
      | inl e ↦ rw (next_job-none q time e) (omega arith)
      | inr (p, e) ↦
          rw (next_job-some q p.1 p.0 time e, id-dispatch time p.0)
            (sym (lib.poll-some q p.0 p.1 e k))
    ]

    put_back-count :
        (q : Queue) (evicted : Option (Job double)) (time : Value) (k : ℕ)
        → count k (put_back double scheme lib q evicted time) ≡ held k evicted + count k q
    put_back-count q none time k = omega arith
    put_back-count q (some j) time k = lib.count-offer k q (evict double time j)

    keep-count :
        (q : Queue) (evicted : Option (Job double)) (time : Value) (k : ℕ)
        → let (next, r) = keep double scheme lib q evicted time in
          held k next + count k r ≡ held k evicted + count k q
    keep-count q none time k = next_job-count q time k ∙ omega arith
    keep-count q (some j) time k = refl

    -- Under every scheme, when a quantum expires no job is lost and none appears: for each id, the jobs
    -- on the processor and in the queue are as many after the event as before it.
    pub quantum_expired-count :
        (q : Queue) (evicted : Option (Job double)) (time : Value) (k : ℕ)
        → let (next, r) = quantum_expired double scheme lib q evicted time in
          held k next + count k r ≡ held k evicted + count k q
    unfolding quantum_expired
    quantum_expired-count q evicted time k = elim (Bool-cases (is_preemptive scheme)) [
      | inl preempts ↦ rw preempts (
          next_job-count (put_back double scheme lib q evicted time) time k
          ∙ put_back-count q evicted time k)
      | inr keeps ↦ rw keeps (keep-count q evicted time k)
    ]

    -- Under a scheme that does not preempt, a job on the processor keeps it and the queue is as it was.
    pub quantum_expired_keeps :
        (q : Queue) (j : Job double) (time : Value)
        → is_preemptive scheme ≡ false
        → quantum_expired double scheme lib q (some j) time ≡ (some j, q)
    unfolding quantum_expired
    quantum_expired_keeps q j time keeps = rw keeps

    -- Under a preemptive scheme, with a job on the processor: the time that it ran since its last dispatch is
    -- added to its running time, and it goes back into the queue. The job that is taken out there gets the
    -- processor, with its dispatch noted, and its start where it has not run yet; neither the one that gave
    -- up the processor nor any other job in the queue precedes it by the scheme, and the others stay there.
    pub quantum_expired_first :
        (q : Queue) (j : Job double) (time : Value)
        → is_preemptive scheme ≡ true
        → let evicted : Job double = record j { ut = add j.ut (sub time j.rr_time) } in
          (n : Job double) × (r : Queue) × (quantum_expired double scheme lib q (some j) time
            ≡ (some (record n { rr_time = time; st = if equal n.ut zero then time else n.st }), r))
          × ¬ Precedes double scheme evicted n
          × ((i : Job double) → Within i q → ¬ Precedes double scheme i n)
          × ((k : ℕ) → one_if (n.id == k) + count k r ≡ one_if (j.id == k) + count k q)
    unfolding quantum_expired
    quantum_expired_first q j time preempts =
        let waiting = offer q (evict double time j) in
        elim (Option-cases (poll waiting)) [
          | inl e ↦ absurd (
              lib.poll-occupied waiting (evict double time j)
                (lib.Within-offer_new q (evict double time j)) e)
          | inr (p, e) ↦ (
            p.0,
            p.1,
            rw preempts (next_job-some waiting p.1 p.0 time e)
                ∙ ap (λ (n : Job double). (some n, p.1)) (dispatch_lem time p.0),
            λ h.
                lib.poll-first waiting p.0 p.1 e (evict double time j)
                  (lib.Within-offer_new q (evict double time j))
                  ((comparer-Precedes double scheme (evict double time j) p.0).0.1 h),
            λ i w h.
                lib.poll-first waiting p.0 p.1 e i
                  (lib.Within-offer_old q i (evict double time j) w)
                  ((comparer-Precedes double scheme i p.0).0.1 h),
            λ k.
                sym (lib.poll-some waiting p.0 p.1 e k) ∙ lib.count-offer k q (evict double time j),
          )
        ]
