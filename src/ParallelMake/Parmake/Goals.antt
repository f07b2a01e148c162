-- ===== src/ParallelMake/Parmake/Goals.antt =====
-- The goals that parallel_make/parmake.c drops and those that it keeps.
use cs.Prelude.{
  ℕ, ◌+◌, ◌-◌, ◌≤◌, ◌<◌, ◌≡◌, ◌≢◌, refl, some, true, ◌||◌, ◌==◌, if◌then◌else◌, List, [], ◌∷◌, ◌++◌,
  length, arith, ap, sym, subst, ◌∙◌, ◌⊎◌, inl, inr, Bool-cases, ◌↔◌, ◌>>=◌, length-append,
}
use cs.Prelude.Chars.{str_eq, str_eq_sound, str_eq_refl}
use cs.ParallelMake.{Text, contains, GraphLibrary, SetLibrary}
use cs.ParallelMake.Parmake.{System, state_ignored, Checked, get_state, cycles, Make, check_goals}
use cs.Prelude.Paths.{HasCycle}
use cs.ParallelMake.Parmake.Paths.{Edge, unseen_le}
use cs.ParallelMake.Parmake.Cycles.{Agrees, AllCyclic, Same, NoCycle, cycles-Visits}

contains-snoc :
    (xs : List Text) (d t : Text) → contains (xs ++ d ∷ []) t ≡ contains xs t || str_eq d t
contains-snoc [] d t = ground arith
contains-snoc (x ∷ xs) d t = ground (arith, contains-snoc xs d t)

module _ (lib : GraphLibrary) (sets : SetLibrary) (sys : System) (g0 : lib.Graph) where
  open lib use {vertices}
  open sets use {set_contains, set_add, contains-add}

  -- What was dropped reaches a cycle, and what was kept does not.
  pub record IsSorted (m : Make lib sets sys) : Type 0 where
    pub agrees : Agrees lib sets sys g0 m.nodes
    pub cyclic : AllCyclic lib sets sys g0 m.visited
    pub dropped : (t : Text) → contains m.dropped t ≡ true → HasCycle (Edge lib g0) t
    pub kept : (t : Text) → set_contains m.valid_goals t ≡ true → NoCycle lib sets sys g0 t

  abbrev drop_goal : Make lib sets sys → Text → Checked lib sets sys → Make lib sets sys
  drop_goal m target r = record m {
    nodes = r.graph;
    visited = r.seen;
    goal_total = m.goal_total - 1;
    dropped = m.dropped ++ (target ∷ []);
  }

  abbrev keep_goal : Make lib sets sys → Text → Checked lib sets sys → Make lib sets sys
  keep_goal m target r = record m {
    nodes = r.graph;
    visited = r.seen;
    valid_goals = set_add m.valid_goals target;
  }

  check_goals_step :
      (fuel : ℕ) (m : Make lib sets sys) (target : Text) (rest : List Text)
      (r : Checked lib sets sys)
      → cycles lib sets sys fuel m.nodes m.visited target ≡ some r
      → check_goals lib sets sys fuel m (target ∷ rest)
        ≡ check_goals lib sets sys fuel
            (if r.status == state_ignored then drop_goal m target r else keep_goal m target r)
            rest
  unfolding check_goals
  check_goals_step fuel m target rest r e =
      ap
        (λ o. o >>= λ x.
          check_goals lib sets sys fuel
            (if x.status == state_ignored then drop_goal m target x else keep_goal m target x) rest)
        e

  -- A goal that was looked at is dropped or kept, and stays so.
  pub record Settles (m : Make lib sets sys) (goals : List Text) (m' : Make lib sets sys)
      : Type 0 where
    pub sorted : IsSorted m'
    pub settled :
        (t : Text)
        → contains goals t ≡ true
        → (contains m'.dropped t ≡ true) ⊎ (set_contains m'.valid_goals t ≡ true)
    pub dropped_stay : (t : Text) → contains m.dropped t ≡ true → contains m'.dropped t ≡ true
    pub kept_stay :
        (t : Text) → set_contains m.valid_goals t ≡ true → set_contains m'.valid_goals t ≡ true
    pub untouched : (m'.tasks ≡ m.tasks) × (m'.world ≡ m.world)
    pub all_cyclic :
        ((t : Text) → contains goals t ≡ true → HasCycle (Edge lib g0) t)
        → m'.goal_total ≡ m.goal_total - length goals
    pub total :
        length goals ≤ m.goal_total
        → m'.goal_total + length m'.dropped ≡ m.goal_total + length m.dropped

  drop_goal-IsSorted :
      (m : Make lib sets sys) (target : Text) (r : Checked lib sets sys)
      → IsSorted m
      → Agrees lib sets sys g0 r.graph
      → HasCycle (Edge lib g0) target
      → AllCyclic lib sets sys g0 r.seen
      → IsSorted (drop_goal m target r)
  drop_goal-IsSorted m target r s a c cyclic = record {
    agrees = a;
    cyclic = cyclic;
    dropped = λ t h.
        let either = contains-snoc m.dropped target t in
        elim (Bool-cases (str_eq target t)) [
          | inl same ↦ subst (HasCycle (Edge lib g0)) (str_eq_sound target t same) c
          | inr other ↦ s.dropped t (ground arith)
        ];
    kept = s.kept;
  }

  keep_goal-IsSorted :
      (m : Make lib sets sys) (target : Text) (r : Checked lib sets sys)
      → IsSorted m
      → Agrees lib sets sys g0 r.graph
      → NoCycle lib sets sys g0 target
      → Same lib sets sys g0 m.visited r.seen
      → IsSorted (keep_goal m target r)
  keep_goal-IsSorted m target r s a clear same = record {
    agrees = a;
    cyclic = λ v h. s.cyclic v (sym (same v) ∙ h);
    dropped = s.dropped;
    kept = λ t h.
        let either = contains-add m.valid_goals target t in
        elim (Bool-cases (str_eq target t)) [
          | inl e ↦ subst (NoCycle lib sets sys g0) (str_eq_sound target t e) clear
          | inr other ↦ s.kept t (ground arith)
        ];
  }

  -- one goal in front of those that are settled
  settle_drop :
      (m m' : Make lib sets sys) (target : Text) (rest : List Text) (r : Checked lib sets sys)
      → Settles (drop_goal m target r) rest m'
      → Settles m (target ∷ rest) m'
  settle_drop m m' target rest r s = record {
    sorted = s.sorted;
    settled = λ t h. elim (Bool-cases (str_eq target t)) [
      | inl e ↦ inl (s.dropped_stay t (contains-snoc m.dropped target t ∙ ground arith))
      | inr e ↦ s.settled t (ground arith)
    ];
    dropped_stay = λ t h. s.dropped_stay t (contains-snoc m.dropped target t ∙ ground arith);
    kept_stay = s.kept_stay;
    untouched = s.untouched;
    all_cyclic = λ h. omega (arith, s.all_cyclic (λ t on. h t (ground arith)));
    total =
        λ few. omega (arith, s.total (omega (arith, few)), length-append m.dropped (target ∷ []));
  }

  settle_keep :
      (m m' : Make lib sets sys) (target : Text) (rest : List Text) (r : Checked lib sets sys)
      → NoCycle lib sets sys g0 target
      → Settles (keep_goal m target r) rest m'
      → Settles m (target ∷ rest) m'
  settle_keep m m' target rest r clear s = record {
    sorted = s.sorted;
    settled = λ t h. elim (Bool-cases (str_eq target t)) [
      | inl e ↦ inr (s.kept_stay t (contains-add m.valid_goals target t ∙ ground arith))
      | inr e ↦ s.settled t (ground arith)
    ];
    dropped_stay = s.dropped_stay;
    kept_stay = λ t h. s.kept_stay t (contains-add m.valid_goals target t ∙ ground arith);
    untouched = s.untouched;
    all_cyclic = λ h. absurd (clear (h target (let e = str_eq_refl target in ground arith)));
    total = λ few. s.total (omega (arith, few));
  }

  pub check_goals-Settles :
      (fuel : ℕ) (m : Make lib sets sys) (goals : List Text)
      → length (vertices g0) < fuel
      → ((t : Text) → contains goals t ≡ true → contains (vertices g0) t ≡ true)
      → IsSorted m
      → (m' : Make lib sets sys) × (check_goals lib sets sys fuel m goals ≡ some m')
        × Settles m goals m'
  unfolding check_goals
  check_goals-Settles fuel m [] enough on s = (
    m,
    refl,
    record {
      sorted = s;
      settled = λ t h. absurd (cc);
      dropped_stay = λ t h. h;
      kept_stay = λ t h. h;
      untouched = (refl, refl);
      all_cyclic = λ h. omega arith;
      total = λ few. refl;
    },
  )
  check_goals-Settles fuel m (target ∷ rest) enough on s =
      let (r, got, o) =
        cycles-Visits lib sets sys g0 fuel m.nodes m.visited target s.agrees
          (on target (let e = str_eq_refl target in ground arith)) (λ v h. inr (s.cyclic v h))
          (omega (arith, unseen_le sets m.visited (vertices g0))) in
      let later : (t : Text) → contains rest t ≡ true → contains (vertices g0) t ≡ true =
        (λ t h. on t (ground arith)) in
      elim o.found [
        | inl (status, c, cyclic) ↦
            let (m', done, settles) =
              check_goals-Settles fuel (drop_goal m target r) rest enough later
                (drop_goal-IsSorted m target r s o.agrees c cyclic) in
            (
              m',
              check_goals_step fuel m target rest r got
                  ∙ ap
                      (λ k.
                        check_goals lib sets sys fuel
                          (if k == state_ignored
                            then drop_goal m target r
                            else keep_goal m target r)
                          rest)
                      status
                  ∙ done,
              settle_drop m m' target rest r settles,
            )
        | inr (status, same, clear) ↦
            let (m', done, settles) =
              check_goals-Settles fuel (keep_goal m target r) rest enough later
                (keep_goal-IsSorted m target r s o.agrees clear same) in
            (
              m',
              check_goals_step fuel m target rest r got
                  ∙ ap
                      (λ k.
                        check_goals lib sets sys fuel
                          (if k == state_ignored
                            then drop_goal m target r
                            else keep_goal m target r)
                          rest)
                      status
                  ∙ done,
              settle_keep m m' target rest r clear settles,
            )
      ]

module _ (lib : GraphLibrary) (sets : SetLibrary) (sys : System) where
  open lib use {vertices, contains-vertices}
  open sets use {set_create, set_contains, contains-create}

  -- no goal was looked at, and no rule is ignored
  pub record IsFresh (m : Make lib sets sys) : Type 0 where
    pub unvisited : m.visited ≡ set_create
    pub none_kept : m.valid_goals ≡ set_create
    pub none_dropped : m.dropped ≡ []
    pub none_ignored : (t : Text) → get_state lib sets sys m.nodes t ≢ state_ignored

  pub IsFresh-IsSorted : (m : Make lib sets sys) → IsFresh m → IsSorted lib sets sys m.nodes m
  IsFresh-IsSorted m f = record {
    agrees = record {
      links = λ j. refl;
      there = λ j h. sym (contains-vertices m.nodes j) ∙ h;
      ignored = λ j e. absurd (f.none_ignored j e);
    };
    cyclic = λ v h. absurd (empty_set m.visited f.unvisited v h);
    dropped = λ t h. absurd (empty_list m.dropped f.none_dropped t h);
    kept = λ t h. absurd (empty_set m.valid_goals f.none_kept t h);
  }
    where
      empty_set : (s : sets.Set) → s ≡ set_create → (v : Text) → set_contains s v ≡ true → ⊥
      empty_set s e v h =
          let never = contains-create v in let same = ap (λ x. set_contains x v) e in cc

      empty_list : (l : List Text) → l ≡ [] → (t : Text) → contains l t ≡ true → ⊥
      empty_list l e t h = let same = ap (λ x. contains x t) e in cc

  exactly : {A B C : Type 0} → A ⊎ B → (A → C) → (B → C → ⊥) → (A ↔ C) × (B ↔ (C → ⊥))
  exactly (inl a) f g = ((f, λ c. a), (λ b. g b, λ n. absurd (n (f a))))
  exactly (inr b) f g = ((λ a. f a, λ c. absurd (g b c)), (λ b'. g b', λ n. b))

  -- From the start, with more rounds than there are keys, the loop of `load_rules` over goals of the graph
  -- ends. A goal is dropped exactly where it reaches a cycle, and kept as valid exactly where it does
  -- not; `goal_total` then counts the goals that were not dropped.
  pub check_goals_lem :
      (fuel : ℕ) (m : Make lib sets sys) (goals : List Text)
      → IsFresh m
      → length (vertices m.nodes) < fuel
      → ((t : Text) → contains goals t ≡ true → contains (vertices m.nodes) t ≡ true)
      → m.goal_total ≡ length goals
      → (m' : Make lib sets sys) × (check_goals lib sets sys fuel m goals ≡ some m')
        × ((t : Text)
            → contains goals t ≡ true
            → ((contains m'.dropped t ≡ true) ↔ HasCycle (Edge lib m.nodes) t)
              × ((set_contains m'.valid_goals t ≡ true) ↔ (HasCycle (Edge lib m.nodes) t → ⊥)))
        × (m'.goal_total + length m'.dropped ≡ length goals)
  check_goals_lem fuel m goals fresh_ enough on total =
      let (m', done, s) =
        check_goals-Settles lib sets sys m.nodes fuel m goals enough on
          (IsFresh-IsSorted m fresh_) in
      (
        m',
        done,
        λ t h. exactly (s.settled t h) (s.sorted.dropped t) (s.sorted.kept t),
        omega (arith, s.total (omega (arith, total)), ap length fresh_.none_dropped, total),
      )
