-- ===== src/ParallelMake/Parmake/Failure.antt =====
-- A goal that is up to date counts twice in parallel_make/parmake.c, and the thread then waits for ever.
use cs.Prelude.{
  ℕ, zero, suc, ◌+◌, ◌<◌, ◌≡◌, ◌≢◌, refl, Option, some, none, Bool, true, false, ◌==◌,
  if◌then◌else◌, List, [], ◌∷◌, ◌++◌, arith, ap, sym, subst, ◌∙◌, Bool-cases, inl, inr,
}
use cs.ParallelMake.{Text, GraphLibrary, SetLibrary}
use cs.ParallelMake.Parser.{rule_at}
use cs.ParallelMake.Parmake.{
  System, state_processing, state_succeeded, state_failed, Make, get_state, set_state, any_failed,
  check_failed_dependencies, all_newer, changed, execute, all_tasks, push_failed_antineighbors,
  push_successful_antineighbors, ready, process, push_antineighbors, count_goal, push_end,
  rope_round, Outcome, ended, waiting, working, rope_from,
}

-- no NULL in the queue
abbrev pub AreRules : List (Option Text) → Type 0
AreRules [] = Unit
AreRules (none ∷ ts) = ⊥
AreRules (some t ∷ ts) = AreRules ts

differ : (a b : ℕ) → a ≢ b → (a == b) ≡ false
differ a b h = ground arith

module _ (lib : GraphLibrary) (sets : SetLibrary) (sys : System) where
  open lib use {Graph, neighbors, neighbors-write, antineighbors}
  open sets use {set_contains}

  AreRules-all_tasks : (ts : List Text) → AreRules (all_tasks lib sets sys ts)
  unfolding all_tasks
  AreRules-all_tasks [] = tt
  AreRules-all_tasks (t ∷ ts) = AreRules-all_tasks ts

  AreRules-append : (xs ys : List (Option Text)) → AreRules xs → AreRules ys → AreRules (xs ++ ys)
  AreRules-append [] ys h k = k
  AreRules-append (none ∷ xs) ys h k = absurd h
  AreRules-append (some x ∷ xs) ys h k = AreRules-append xs ys h k

  -- More was counted than there are goals, and no NULL waits in the queue.
  pub record IsOver (m : Make lib sets sys) : Type 0 where
    pub over : m.goal_total < m.goal_count
    pub rules : AreRules m.tasks

  if_both :
      (P : Make lib sets sys → Type 0) (a b : Make lib sets sys) (c : Bool)
      → P a
      → P b
      → P (if c then a else b)
  if_both P a b true h k = h
  if_both P a b false h k = k

  process-IsOver : (m : Make lib sets sys) (t : Text) → IsOver m → IsOver (process lib sets sys m t)
  unfolding process
  process-IsOver m t o =
      let g =
        check_failed_dependencies lib sets sys (set_state lib sets sys m.nodes t state_processing)
          t in
      let r = execute lib sets sys g m.world t in
      let ran = record m { nodes = r.0; world = r.1 } in
      let current = record m {
        nodes = set_state lib sets sys g t state_succeeded;
        goal_count = m.goal_count + 1;
      } in
      if_both IsOver ran current (changed lib sets sys g m.world t)
        (record { over = o.over; rules = o.rules })
        (record { over = (let h = o.over in omega arith); rules = o.rules })

  push-IsOver :
      (m : Make lib sets sys) (t : Text) → IsOver m → IsOver (push_antineighbors lib sets sys m t)
  unfolding push_failed_antineighbors push_successful_antineighbors
  push-IsOver m t o =
      let state = get_state lib sets sys m.nodes t in
      if_both IsOver _ _ (state == state_failed)
        (record {
          over = o.over;
          rules = AreRules-append m.tasks _ o.rules (AreRules-all_tasks (antineighbors m.nodes t));
        })
        (if_both IsOver _ _ (state == state_succeeded)
          (record {
            over = o.over;
            rules =
                AreRules-append m.tasks _ o.rules
                  (AreRules-all_tasks (ready lib sets sys m.nodes (antineighbors m.nodes t)));
          })
          o)

  count-IsOver :
      (m : Make lib sets sys) (t : Text) → IsOver m → IsOver (count_goal lib sets sys m t)
  count-IsOver m t o =
      if_both IsOver _ _ (set_contains m.valid_goals t)
        (record { over = (let h = o.over in omega arith); rules = o.rules }) o

  end-IsOver : (m : Make lib sets sys) → IsOver m → IsOver (push_end lib sets sys m)
  end-IsOver m o =
      let apart : (m.goal_count == m.goal_total) ≡ false = (let h = o.over in ground arith) in
      subst IsOver
        (sym (ap (λ b. if b then record m { tasks = m.tasks ++ (none ∷ []) } else m) apart)) o

  rope_round-IsOver :
      (m : Make lib sets sys) (t : Text) → IsOver m → IsOver (rope_round lib sets sys m t)
  unfolding rope_round
  rope_round-IsOver m t o =
      if_both IsOver _ _ (get_state lib sets sys m.nodes t == state_processing) o
        (end-IsOver _ (count-IsOver _ t (push-IsOver _ t (process-IsOver m t o))))

  abbrev pub IsEnded : Outcome lib sets sys → Type 0
  IsEnded (ended m) = Unit
  IsEnded (waiting m) = ⊥
  IsEnded (working m) = ⊥

  -- A thread that has counted more than there are goals never returns.
  over_never_ends :
      (fuel : ℕ) (m : Make lib sets sys) (tasks : List (Option Text))
      → m.goal_total < m.goal_count
      → AreRules tasks
      → IsEnded (rope_from lib sets sys fuel m tasks)
      → ⊥
  unfolding rope_from
  over_never_ends fuel m [] over rules e = e
  over_never_ends fuel m (none ∷ rest) over rules e = rules
  over_never_ends zero m (some t ∷ rest) over rules e = e
  over_never_ends (suc fuel) m (some t ∷ rest) over rules e =
      let o =
        rope_round-IsOver (record m { tasks = rest }) t (record { over = over; rules = rules }) in
      over_never_ends fuel (rope_round lib sets sys (record m { tasks = rest }) t)
        (rope_round lib sets sys (record m { tasks = rest }) t).tasks o.over o.rules e

  -- All goals were counted, before the goal `t` is counted once more.
  record IsFull (t : Text) (m : Make lib sets sys) : Type 0 where
    full : m.goal_count ≡ m.goal_total
    rules : AreRules m.tasks
    valid : set_contains m.valid_goals t ≡ true

  push-IsFull :
      (m : Make lib sets sys) (t : Text)
      → IsFull t m
      → IsFull t (push_antineighbors lib sets sys m t)
  unfolding push_failed_antineighbors push_successful_antineighbors
  push-IsFull m t o =
      let state = get_state lib sets sys m.nodes t in
      if_both (IsFull t) _ _ (state == state_failed)
        (record {
          full = o.full;
          rules = AreRules-append m.tasks _ o.rules (AreRules-all_tasks (antineighbors m.nodes t));
          valid = o.valid;
        })
        (if_both (IsFull t) _ _ (state == state_succeeded)
          (record {
            full = o.full;
            rules =
                AreRules-append m.tasks _ o.rules
                  (AreRules-all_tasks (ready lib sets sys m.nodes (antineighbors m.nodes t)));
            valid = o.valid;
          })
          o)

  count-IsFull :
      (m : Make lib sets sys) (t : Text) → IsFull t m → IsOver (count_goal lib sets sys m t)
  count-IsFull m t o =
      subst IsOver
        (sym (ap (λ b. if b then record m { goal_count = m.goal_count + 1 } else m) o.valid))
        (record { over = (let h = o.full in omega arith); rules = o.rules })

  neighbors-checked :
      (g : Graph) (t s : Text)
      → neighbors (check_failed_dependencies lib sets sys g t) s ≡ neighbors g s
  unfolding check_failed_dependencies
  neighbors-checked g t s = elim (Bool-cases (any_failed lib sets sys g (neighbors g t))) [
    | inl e ↦
        ap (λ b. neighbors (if b then set_state lib sets sys g t state_failed else g) s) e
        ∙ neighbors-write g t (record (rule_at lib g t) { state = state_failed }) s
    | inr e ↦ ap (λ b. neighbors (if b then set_state lib sets sys g t state_failed else g) s) e
  ]

  changed_by : sys.World → Text → List Text → Bool
  unfolding all_newer
  changed_by w t ns = elim (sys.mtime w t) [
    | none ↦ true
    | some old ↦ all_newer lib sets sys w old ns
  ]

  changed_lem :
      (g : Graph) (w : sys.World) (t : Text)
      → changed lib sets sys g w t ≡ changed_by w t (neighbors g t)
  unfolding changed changed_by
  changed_lem g w t = refl

  process-IsFull :
      (m : Make lib sets sys) (t : Text)
      → AreRules m.tasks
      → set_contains m.valid_goals t ≡ true
      → changed lib sets sys m.nodes m.world t ≡ false
      → m.goal_count + 1 ≡ m.goal_total
      → IsFull t (process lib sets sys m t)
  unfolding process
  process-IsFull m t rules valid old last =
      let g1 = set_state lib sets sys m.nodes t state_processing in
      let g = check_failed_dependencies lib sets sys g1 t in
      let same : neighbors g t ≡ neighbors m.nodes t =
        neighbors-checked g1 t t
        ∙ neighbors-write m.nodes t (record (rule_at lib m.nodes t) { state = state_processing })
            t in
      let still : changed lib sets sys g m.world t ≡ false =
        changed_lem g m.world t
        ∙ ap (changed_by m.world t) same
        ∙ sym (changed_lem m.nodes m.world t)
        ∙ old in
      let r = execute lib sets sys g m.world t in
      let ran = record m { nodes = r.0; world = r.1 } in
      let current = record m {
        nodes = set_state lib sets sys g t state_succeeded;
        goal_count = m.goal_count + 1;
      } in
      subst (IsFull t) (sym (ap (λ b. if b then ran else current) still))
        (record { full = last; rules = rules; valid = valid })

  pub up_to_date_waits :
      (m : Make lib sets sys) (t : Text) (rest : List (Option Text))
      → AreRules rest
      → set_contains m.valid_goals t ≡ true
      → get_state lib sets sys m.nodes t ≢ state_processing
      → changed lib sets sys m.nodes m.world t ≡ false
      → m.goal_count + 1 ≡ m.goal_total
      → (fuel : ℕ) → ¬ IsEnded (rope_from lib sets sys fuel m (some t ∷ rest))
  unfolding rope_from rope_round
  up_to_date_waits m t rest rules valid idle old last zero e = e
  up_to_date_waits m t rest rules valid idle old last (suc fuel) e =
      let m1 = record m { tasks = rest } in
      let o =
        end-IsOver _
          (count-IsFull _ t (push-IsFull _ t (process-IsFull m1 t rules valid old last))) in
      let waits : (get_state lib sets sys m.nodes t == state_processing) ≡ false =
        differ (get_state lib sets sys m.nodes t) state_processing idle in
      let o' =
        subst IsOver
          (sym (
            ap
              (λ b.
                if b
                then m1
                else push_end lib sets sys (
                    count_goal lib sets sys
                      (push_antineighbors lib sets sys (process lib sets sys m1 t) t) t))
              waits))
          o in
      over_never_ends fuel (rope_round lib sets sys m1 t) (rope_round lib sets sys m1 t).tasks
        o'.over o'.rules e
