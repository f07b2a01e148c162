-- ===== src/BlockingQueue/Fifo.antt =====
-- The calls of critical_concurrency/queue.c against a bounded first-in first-out list.
use cs.Prelude.{
  ℕ, zero, suc, ◌+◌, ◌-◌, ◌<◌, ◌≡◌, ◌≢◌, refl, none, some, ◌==◌, if◌then◌else◌, ◌⊎◌, inl, inr,
  Bool-cases, some_inj, none≢some, true, false, List, [], ◌∷◌, ◌++◌, length, arith, ap, ◌∙◌, sym,
  append_assoc, subst,
}
use cs.BlockingQueue.{
  Ptr, null, Heap, Queue, write, create, push, pull, push_waits, free_nodes, destroy,
}
use cs.BlockingQueue.Rep.{Cells, has, first, values, Linked, IsQueue, frame, push_first, push_more}

module _ {V : Type 0} where
  pub create-IsQueue : (h : Heap V) (max_size : ℕ) → IsQueue (create h max_size) []
  unfolding create
  create-IsQueue h max_size = record {
    linked = tt;
    head = refl;
    tail = refl;
    size = refl;
    bounded = λ p. omega arith;
  }

  push_ready :
      {q : Queue V} (xs : Cells V) (fresh : Ptr) (v : V)
      → IsQueue q xs
      → fresh ≢ null
      → q.heap fresh ≡ none
      → push_waits q ≡ false
      → (r : Queue V) × (push q fresh v ≡ some r) × IsQueue r (xs ++ ((fresh, v) ∷ []))
  push_ready [] fresh v is ne unused ready = push_first fresh v is ne ready
  push_ready (c ∷ xs) fresh v is ne unused ready = push_more c xs fresh v is ne unused ready

  -- On a queue with a maximum that is reached `queue_push` waits.
  pub push_full :
      {q : Queue V} {xs : Cells V} (fresh : Ptr) (v : V)
      → IsQueue q xs
      → 0 < q.max_size
      → length xs ≡ q.max_size
      → push q fresh v ≡ none
  unfolding push push_waits
  push_full fresh v is pos full = ground (arith, is.size)

  -- Given a fresh node, `queue_push` on a queue without a maximum or below it puts the value behind
  -- the others.
  pub push_lem :
      {q : Queue V} {xs : Cells V} (fresh : Ptr) (v : V)
      → IsQueue q xs
      → fresh ≢ null
      → q.heap fresh ≡ none
      → (q.max_size ≡ 0) ⊎ (length xs < q.max_size)
      → (r : Queue V) × (push q fresh v ≡ some r) × IsQueue r (xs ++ ((fresh, v) ∷ []))
  unfolding push_waits
  push_lem {q} {xs} fresh v is ne unused room =
      push_ready xs fresh v is ne unused (ground (arith, is.size, room))

  -- `queue_pull` waits on an empty queue.
  pub pull-nil : {q : Queue V} → IsQueue q [] → pull q ≡ none
  unfolding pull
  pull-nil is = ground (arith, is.size)

  -- `queue_pull` on a queue with a value returns the oldest, frees its node, and leaves the rest.
  pub pull-cons :
      {q : Queue V} (p : Ptr) (v : V) (xs : Cells V)
      → IsQueue q ((p, v) ∷ xs)
      → (r : Queue V) × (pull q ≡ some (v, r)) × IsQueue r xs × (r.heap p ≡ none)
  unfolding pull
  pull-cons {q} p v [] is = (
    record q { heap = write q.heap q.head none; head = null; tail = null; size = q.size - 1 },
    ground (arith, is.linked, is.head, is.size),
    record {
      linked = tt;
      head = refl;
      tail = refl;
      size = omega (arith, is.size);
      bounded = λ pos. omega (arith, is.bounded pos);
    },
    ground (arith, is.head),
  )
  pull-cons {q} p v (c ∷ xs) is = (
    record q { heap = write q.heap q.head none; head = c.0; size = q.size - 1 },
    ground (arith, is.linked.1, is.head, is.size),
    record {
      linked =
          frame q.heap q.head none (c ∷ xs) is.linked.3
            (subst (λ a. has a (c ∷ xs) ≡ false) (sym is.head) is.linked.2);
      head = refl;
      tail = is.tail;
      size = omega (arith, is.size);
      bounded = λ pos. omega (arith, is.bounded pos);
    },
    ground (arith, is.head),
  )

  free_nodes_lem :
      (fuel : ℕ) (h : Heap V) (xs : Cells V)
      → Linked h xs
      → length xs < fuel
      → (g : Heap V) × (free_nodes fuel h (first xs) ≡ some g)
        × ((a : Ptr) → g a ≡ (if has a xs then none else h a))
  unfolding free_nodes
  free_nodes_lem zero h xs l enough = elim enough [ ]
  free_nodes_lem (suc fuel) h [] l enough = (h, refl, λ a. refl)
  free_nodes_lem (suc fuel) h ((p, v) ∷ xs) l enough =
      let (g, r, freed) =
        free_nodes_lem fuel (write h p none) xs (frame h p none xs l.3 l.2) (omega arith) in
      let test : (p == null) ≡ false = ground arith in
      (g, rw (test, l.1) r, λ a. freed a ∙ ground arith)

  -- `queue_destroy` ends, and frees exactly the nodes of the queue.
  destroy_lem :
      {q : Queue V} {xs : Cells V}
      → IsQueue q xs
      → (g : Heap V) × (destroy q ≡ some g)
        × ((a : Ptr) → g a ≡ (if has a xs then none else q.heap a))
  unfolding destroy
  destroy_lem {q} {xs} is =
      let (g, r, freed) =
        free_nodes_lem (q.size + 1) q.heap xs is.linked (omega (arith, is.size)) in
      (g, subst (λ p. free_nodes (q.size + 1) q.heap p ≡ some g) (sym is.head) r, freed)

  -- The completed calls of all threads, in the order in which they held the mutex: the values pushed,
  -- and the values pulled.
  pub data Run (q : Queue V) : List V → List V → Queue V → Type 0 where
    start : Run q [] [] q
    pushed :
        {ins outs : List V} {r s : Queue V}
        → Run q ins outs r
        → (fresh : Ptr) (v : V) → fresh ≢ null
        → r.heap fresh ≡ none
        → push r fresh v ≡ some s
        → Run q (ins ++ (v ∷ [])) outs s
    pulled :
        {ins outs : List V} {r s : Queue V} (v : V)
        → Run q ins outs r
        → pull r ≡ some (v, s)
        → Run q ins (outs ++ (v ∷ [])) s

  values-snoc :
      (p : Ptr) (v : V) (xs : Cells V) → values (xs ++ ((p, v) ∷ [])) ≡ values xs ++ (v ∷ [])
  values-snoc p v [] = refl
  values-snoc p v (c ∷ xs) = ap (λ ys. c.1 ∷ ys) (values-snoc p v xs)

  -- What the threads have seen so far, and what the queue still holds.
  pub record Outcome (r : Queue V) (ins outs : List V) : Type 0 where
    pub cells : Cells V
    pub is : IsQueue r cells
    pub fifo : ins ≡ outs ++ values cells

  push_waiting : (r : Queue V) (fresh : Ptr) (v : V) → push_waits r ≡ true → push r fresh v ≡ none
  unfolding push
  push_waiting r fresh v waits = rw waits

  after_push :
      {ins outs : List V} {r s : Queue V} (fresh : Ptr) (v : V)
      → Outcome r ins outs
      → fresh ≢ null
      → r.heap fresh ≡ none
      → push r fresh v ≡ some s
      → Outcome s (ins ++ (v ∷ [])) outs
  after_push {ins} {outs} {r} {s} fresh v o ne unused done = elim (Bool-cases (push_waits r)) [
    | inl waits ↦ absurd (none≢some (sym (push_waiting r fresh v waits) ∙ done))
    | inr ready ↦
        let (t, ran, is') = push_ready o.cells fresh v o.is ne unused ready in
        record {
          cells = o.cells ++ ((fresh, v) ∷ []);
          is =
              subst (λ u. IsQueue u (o.cells ++ ((fresh, v) ∷ []))) (some_inj (sym ran ∙ done)) is';
          fifo =
              ap (λ ys. ys ++ (v ∷ [])) o.fifo
              ∙ append_assoc outs (values o.cells) (v ∷ [])
              ∙ ap (λ ys. outs ++ ys) (sym (values-snoc fresh v o.cells));
        }
  ]

  after_pull :
      {ins : List V} (outs : List V) {r s : Queue V} (v : V) (xs : Cells V)
      → IsQueue r xs
      → ins ≡ outs ++ values xs
      → pull r ≡ some (v, s)
      → Outcome s ins (outs ++ (v ∷ []))
  after_pull outs v [] is e done = absurd (none≢some (sym (pull-nil is) ∙ done))
  after_pull outs {s} v ((p, w) ∷ xs) is e done =
      let (t, ran, is', freed) = pull-cons p w xs is in
      let same : ◌≡◌ {A = V × Queue V} (w, t) (v, s) = some_inj (sym ran ∙ done) in
      record {
        cells = xs;
        is = subst (λ u. IsQueue u xs) (ap (λ u. u.1) same) is';
        fifo =
            e
            ∙ ap (λ u. outs ++ (u ∷ values xs)) (ap (λ u. u.0) same)
            ∙ sym (append_assoc outs (v ∷ []) (values xs));
      }

  -- However the calls of the threads interleave, started on an empty queue: the values pulled so far
  -- and then the values still held are the values pushed so far, in order, and a queue with a maximum
  -- never holds more than that.
  pub Run_fifo :
      {q r : Queue V} {ins outs : List V} → IsQueue q [] → Run q ins outs r → Outcome r ins outs
  Run_fifo is start = record { cells = []; is = is; fifo = refl }
  Run_fifo is (pushed run fresh v ne unused done) =
      after_push fresh v (Run_fifo is run) ne unused done
  Run_fifo is (pulled v run done) =
      let o = Run_fifo is run in after_pull _ v o.cells o.is o.fifo done
