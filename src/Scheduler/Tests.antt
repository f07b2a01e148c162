-- ===== src/Scheduler/Tests.antt =====
-- savvy_scheduler/libscheduler.c with whole numbers for the times and a queue that is a list, from which a
-- first job is picked out.
use cs.Prelude.{
  ℕ, ◌+◌, ◌≡◌, ◌≢◌, refl, Option, none, some, Bool, true, false, if◌then◌else◌, arith, List, [],
  ◌∷◌, ◌⊎◌, ◌↔◌, inl, inr, Bool-cases, sym, ap, ◌∙◌, subst, some_inj, none≢some, ◌==◌,
}
use cs.Prelude.Int.{pos, ◌+ℤ◌, ◌-ℤ◌}
use cs.Scheduler.{
  psrtf, Job, Sign, before, same, after, comparer, Priqueue, is_preemptive, one_if, quantum_expired,
}
use cs.Scheduler.Order.{Precedes, comparer-Precedes}
use cs.Scheduler.Whole.{whole, IsOrder, flip, comparer-IsOrder}
use cs.Scheduler.Events.{held, quantum_expired-count, quantum_expired_first}

abbrev is_before : Sign → Bool
is_before before = true
is_before s = false

module _ (cmp : Job whole → Job whole → Sign) where
  abbrev choose : Job whole → List (Job whole) → Job whole × List (Job whole)
  choose j [] = (j, [])
  choose j (k ∷ ks) =
      let (m, r) = choose k ks in if is_before (cmp m j) then (m, j ∷ r) else (j, m ∷ r)

  abbrev poll_list : List (Job whole) → Option (Job whole × List (Job whole))
  poll_list [] = none
  poll_list (j ∷ js) = some (choose j js)

is_before_sound : (s : Sign) → is_before s ≡ true → s ≡ before
is_before_sound before e = refl
is_before_sound same e = ground arith
is_before_sound after e = ground arith

is_before_complete : (s : Sign) → is_before s ≡ false → s ≢ before
is_before_complete s e b = let clash : true ≡ false = sym (ap is_before b) ∙ e in ground arith

ne_signs : before ≢ after
ne_signs e = ground arith

abbrev count_list : ℕ → List (Job whole) → ℕ
count_list k [] = 0
count_list k (j ∷ js) = one_if (j.id == k) + count_list k js

abbrev WithinList : Job whole → List (Job whole) → Type 0
WithinList i [] = ⊥
WithinList i (j ∷ js) = (i ≡ j) ⊎ WithinList i js

module _ (cmp : Job whole → Job whole → Sign) (order : IsOrder cmp) where
  choose-count :
      (j : Job whole) (js : List (Job whole)) (k : ℕ)
      → count_list k (j ∷ js)
        ≡ one_if ((choose cmp j js).0.id == k) + count_list k (choose cmp j js).1
  choose-count j [] k = refl
  choose-count j (i ∷ is) k = ground (arith, choose-count i is k)

  not_before_refl : (j : Job whole) → cmp j j ≢ before
  not_before_refl j e = ne_signs (sym e ∙ order.swap j j ∙ ap flip e)

  not_before-not_after : (i j : Job whole) → cmp i j ≢ before → cmp j i ≢ after
  not_before-not_after i j ne e = ne (order.swap j i ∙ ap flip e)

  not_after-not_before : (i j : Job whole) → cmp i j ≢ after → cmp j i ≢ before
  not_after-not_before i j ne e = ne (order.swap j i ∙ ap flip e)

  picked :
      (m j k : Job whole) (ks : List (Job whole)) (i : Job whole)
      → (WithinList i (k ∷ ks) → cmp i m ≢ before)
      → cmp m j ≡ before
      → WithinList i (j ∷ k ∷ ks)
      → cmp i m ≢ before
  picked m j k ks i others e (inl at) =
      subst (λ x. cmp x m ≢ before) (sym at) (not_after-not_before m j (λ a. ne_signs (sym e ∙ a)))
  picked m j k ks i others e (inr w) = others w

  kept :
      (m j k : Job whole) (ks : List (Job whole)) (i : Job whole)
      → (WithinList i (k ∷ ks) → cmp i m ≢ before)
      → cmp m j ≢ before
      → WithinList i (j ∷ k ∷ ks)
      → cmp i j ≢ before
  kept m j k ks i others e (inl at) = subst (λ x. cmp x j ≢ before) (sym at) (not_before_refl j)
  kept m j k ks i others e (inr w) =
      not_after-not_before j i
        (order.trans j m i (not_before-not_after m j e) (not_before-not_after i m (others w)))

  choose-first :
      (j : Job whole) (js : List (Job whole)) (i : Job whole)
      → WithinList i (j ∷ js)
      → cmp i (choose cmp j js).0 ≢ before
  choose-first j [] i (inl e) = subst (λ k. cmp k j ≢ before) (sym e) (not_before_refl j)
  choose-first j [] i (inr w) = absurd w
  choose-first j (k ∷ ks) i w = elim (Bool-cases (is_before (cmp (choose cmp k ks).0 j))) [
    | inl e ↦
        rw e
          (picked (choose cmp k ks).0 j k ks i (λ u. choose-first k ks i u) (is_before_sound _ e) w)
    | inr e ↦
        rw e (
          kept (choose cmp k ks).0 j k ks i (λ u. choose-first k ks i u) (is_before_complete _ e) w)
  ]

  nothing : (q : List (Job whole)) → poll_list cmp q ≡ none → (k : ℕ) → count_list k q ≡ 0
  nothing [] e k = refl
  nothing (j ∷ js) e k = absurd (none≢some (sym e))

  something :
      (q : List (Job whole)) (j : Job whole) (r : List (Job whole))
      → poll_list cmp q ≡ some (j, r)
      → (k : ℕ) → count_list k q ≡ one_if (j.id == k) + count_list k r
  something [] j r e k = absurd (none≢some e)
  something (i ∷ is) j r e k =
      subst
        (λ (p : Job whole × List (Job whole)).
          count_list k (i ∷ is) ≡ one_if (p.0.id == k) + count_list k p.1)
        (some_inj e) (choose-count i is k)

  firsts :
      (q : List (Job whole)) (j : Job whole) (r : List (Job whole))
      → poll_list cmp q ≡ some (j, r)
      → (i : Job whole) → WithinList i q
      → cmp i j ≢ before
  firsts [] j r e i w = absurd w
  firsts (h ∷ hs) j r e i w =
      subst (λ (p : Job whole × List (Job whole)). cmp i p.0 ≢ before) (some_inj e)
        (choose-first h hs i w)

  occupied : (q : List (Job whole)) (i : Job whole) → WithinList i q → poll_list cmp q ≢ none
  occupied [] i w e = w
  occupied (j ∷ js) i w e = none≢some (sym e)

  -- the list as the library
  abbrev line : Priqueue whole cmp
  line = record {
    Queue = List (Job whole);
    init = [];
    offer = λ q j. j ∷ q;
    poll = poll_list cmp;
    count = count_list;
    Within = WithinList;
    count-init = λ k. refl;
    count-offer = λ k q j. refl;
    poll-none = nothing;
    poll-some = something;
    Within-offer_new = λ q j. inl refl;
    Within-offer_old = λ q i j w. inr w;
    poll-first = firsts;
    poll-occupied = occupied;
  }

abbrev job : ℕ → ℕ → Job whole
job id left = record {
  id = id;
  priority = pos 0;
  rt = pos left;
  rr_time = pos 2;
  xxtime = pos id;
  et = pos 0;
  ut = pos 0;
  st = pos 0;
}

comparer-Precedes_example :
    ((comparer whole psrtf (job 8 3) (job 7 9) ≡ before) ↔ Precedes whole psrtf (job 8 3) (job 7 9))
    × ((comparer whole psrtf (job 8 3) (job 7 9) ≡ after)
        ↔ Precedes whole psrtf (job 7 9) (job 8 3))
comparer-Precedes_example = comparer-Precedes whole psrtf (job 8 3) (job 7 9)

-- the queue of the scheme that runs the shortest remaining time first
abbrev shortest : Priqueue whole (comparer whole psrtf)
shortest = line (comparer whole psrtf) (comparer-IsOrder psrtf)

abbrev waiting : List (Job whole)
waiting = job 7 9 ∷ job 8 3 ∷ []

quantum_expired-count_example :
    let (next, r) = quantum_expired whole psrtf shortest waiting (some (job 9 4)) (pos 5) in
    held whole 8 next + count_list 8 r ≡ 1
quantum_expired-count_example =
    quantum_expired-count whole psrtf shortest waiting (some (job 9 4)) (pos 5) 8

quantum_expired_first_example :
    let evicted : Job whole = record (job 9 4) { ut = pos 0 +ℤ (pos 5 -ℤ pos 2) } in
    (n : Job whole) × (r : List (Job whole)) × (quantum_expired whole psrtf shortest waiting
        (some (job 9 4))
        (pos 5)
      ≡ (
        some (record n { rr_time = pos 5; st = if whole.equal n.ut (pos 0) then pos 5 else n.st }),
        r,
      ))
    × ¬ Precedes whole psrtf evicted n
    × ((i : Job whole) → WithinList i waiting → ¬ Precedes whole psrtf i n)
    × ((k : ℕ) → one_if (n.id == k) + count_list k r ≡ one_if (9 == k) + count_list k waiting)
unfolding is_preemptive
quantum_expired_first_example =
    quantum_expired_first whole psrtf shortest waiting (job 9 4) (pos 5) refl
