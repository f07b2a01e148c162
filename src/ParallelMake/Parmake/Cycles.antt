-- ===== src/ParallelMake/Parmake/Cycles.antt =====
-- The check for cycles of parallel_make/parmake.c ends, and finds exactly the goals that reach a cycle.
use cs.Prelude.{
  ℕ, zero, suc, ◌≤◌, ◌<◌, ◌≡◌, refl, Option, some, true, false, ◌==◌, List, [], ◌∷◌, arith, ap, sym,
  subst, ◌∙◌, ◌⊎◌, inl, inr, Bool-cases, ◌↔◌,
}
use cs.Prelude.Chars.{str_eq, str_eq_sound, str_eq_refl}
use cs.Prelude.Paths.{Reaches, arrived, along, HasCycle, Reaches-snoc, HasCycle-lead, HasCycle-next}
use cs.ParallelMake.{Text, contains, GraphLibrary, SetLibrary}
use cs.ParallelMake.Parser.{contains_vertex, rule_at}
use cs.ParallelMake.Parmake.{
  System, state_unprocessed, state_ignored, Checked, get_state, set_state, check_neighbors, cycles,
}
use cs.ParallelMake.Parmake.Paths.{Edge, state_set, contains-set, unseen, unseen_same, unseen_add}

module _ (lib : GraphLibrary) (sets : SetLibrary) (sys : System) (g0 : lib.Graph) where
  open lib use {Graph, vertices, neighbors, write, neighbors-write, neighbors-contains}
  open sets use {Set, set_contains, set_add, set_remove, contains-add, contains-remove}

  -- The graph is `g0` but for its states, and a rule is ignored only where a cycle is reached.
  pub record Agrees (g : Graph) : Type 0 where
    pub links : (j : Text) → neighbors g j ≡ neighbors g0 j
    pub there : (j : Text) → contains (vertices g0) j ≡ true → contains_vertex lib g j ≡ true
    pub ignored : (j : Text) → get_state lib sets sys g j ≡ state_ignored → HasCycle (Edge lib g0) j

  -- Everything visited leads here or to a cycle.
  abbrev pub LeadsTo : Set → Text → Type 0
  LeadsTo seen node =
      (v : Text)
      → set_contains seen v ≡ true
      → Reaches (Edge lib g0) v node ⊎ HasCycle (Edge lib g0) v

  abbrev pub AllCyclic : Set → Type 0
  AllCyclic seen = (v : Text) → set_contains seen v ≡ true → HasCycle (Edge lib g0) v

  abbrev pub Same : Set → Set → Type 0
  Same seen seen' = (v : Text) → set_contains seen' v ≡ set_contains seen v

  -- What comes out for a key, where `Clear` says that no cycle was found.
  pub record Outcome (seen : Set) (node : Text) (Clear : Type 0) (r : Checked lib sets sys)
      : Type 0 where
    pub agrees : Agrees r.graph
    pub found :
        ((r.status ≡ state_ignored) × HasCycle (Edge lib g0) node × AllCyclic r.seen)
        ⊎ ((r.status ≡ state_unprocessed) × Same seen r.seen × Clear)

  abbrev pub NoCycle : Text → Type 0
  NoCycle node = HasCycle (Edge lib g0) node → ⊥

  Agrees-set :
      (g : Graph) (node : Text) (s : ℕ)
      → contains (vertices g0) node ≡ true
      → (s ≡ state_ignored → HasCycle (Edge lib g0) node)
      → Agrees g
      → Agrees (set_state lib sets sys g node s)
  Agrees-set g node s on reason a = record {
    links = λ j. neighbors-write g node (record (rule_at lib g node) { state = s }) j ∙ a.links j;
    there = λ j h.
        contains-set lib g node (record (rule_at lib g node) { state = s }) j (a.there node on)
          (a.there j h);
    ignored = λ j e.
        let now = state_set lib g node s j (a.there node on) in
        elim (Bool-cases (str_eq node j)) [
          | inl same ↦
              subst (HasCycle (Edge lib g0)) (str_eq_sound node j same) (reason (ground arith))
          | inr other ↦ a.ignored j (ground arith)
        ];
  }

  Clear-all : (node : Text) → ((n : Text) → Edge lib g0 node n → NoCycle n) → NoCycle node
  Clear-all node clear c = let (u, e, c') = HasCycle-next (Edge lib g0) node c in clear u e c'

  cyclic_seen :
      (seen : Set) (node : Text) → LeadsTo seen node → HasCycle (Edge lib g0) node → AllCyclic seen
  cyclic_seen seen node leads c v on = elim (leads v on) [
    | inl p ↦ HasCycle-lead (Edge lib g0) p c
    | inr c' ↦ c'
  ]

  -- an edge to what was visited
  closing :
      (seen : Set) (node n : Text)
      → LeadsTo seen node
      → Edge lib g0 node n
      → set_contains seen n ≡ true
      → HasCycle (Edge lib g0) node
  closing seen node n leads e on = elim (leads n on) [
    | inl p ↦ record { entry = node; next = n; lead = arrived; out = e; back = p }
    | inr c ↦ HasCycle-lead (Edge lib g0) (along e arrived) c
  ]

  LeadsTo-add :
      (seen : Set) (node n : Text)
      → LeadsTo seen node
      → Edge lib g0 node n
      → LeadsTo (set_add seen n) n
  LeadsTo-add seen node n leads e v on = elim (Bool-cases (str_eq n v)) [
    | inl same ↦ inl (subst (λ x. Reaches (Edge lib g0) x n) (str_eq_sound n v same) arrived)
    | inr other ↦
        let before : set_contains seen v ≡ true = (let h = contains-add seen n v in ground arith) in
        elim (leads v before) [ inl p ↦ inl (Reaches-snoc (Edge lib g0) p e) | inr c ↦ inr c ]
  ]

  Same-remove :
      (seen seen' : Set) (n : Text)
      → set_contains seen n ≡ false
      → Same (set_add seen n) seen'
      → Same seen (set_remove seen' n)
  Same-remove seen seen' n new same v =
      let removed = contains-remove seen' n v in
      let kept = same v in
      let added = contains-add seen n v in
      elim (Bool-cases (str_eq n v)) [
        | inl e ↦
            let absent : set_contains seen v ≡ false =
              subst (λ x. set_contains seen x ≡ false) (str_eq_sound n v e) new in
            ground arith
        | inr e ↦ ground arith
      ]

  abbrev pub Visit : Type 0
  Visit = Graph → Set → Text → Option (Checked lib sets sys)

  abbrev pub Succeeds : Option (Checked lib sets sys) → Set → Text → Type 0 → Type 0
  Succeeds o seen node Clear = (r : Checked lib sets sys) × (o ≡ some r) × Outcome seen node Clear r

  -- what the recursive call does for keys with few unvisited ones
  abbrev pub Visits : Visit → (fuel : ℕ) → Type 0
  Visits visit fuel =
      (g : Graph) (seen : Set) (n : Text)
      → Agrees g
      → contains (vertices g0) n ≡ true
      → LeadsTo seen n
      → unseen sets seen (vertices g0) < fuel
      → Succeeds (visit g seen n) seen n (NoCycle n)

  abbrev AllEdges : Text → List Text → Type 0
  AllEdges node ns = (n : Text) → contains ns n ≡ true → Edge lib g0 node n

  abbrev AllClear : List Text → Type 0
  AllClear ns = (n : Text) → contains ns n ≡ true → NoCycle n

  check_seen :
      (visit : Visit) (g : Graph) (seen : Set) (node n : Text) (ns : List Text)
      → set_contains seen n ≡ true
      → check_neighbors lib sets sys visit g seen node (n ∷ ns)
        ≡ some (record { status = state_ignored; graph = g; seen = seen })
  unfolding check_neighbors
  check_seen visit g seen node n ns h = rw (h, check_neighbors) refl

  check_ignored :
      (visit : Visit) (g : Graph) (seen : Set) (node n : Text) (ns : List Text)
      (r : Checked lib sets sys)
      → set_contains seen n ≡ false
      → visit g (set_add seen n) n ≡ some r
      → (r.status == state_ignored) ≡ true
      → check_neighbors lib sets sys visit g seen node (n ∷ ns)
        ≡ some (record {
          status = state_ignored;
          graph = set_state lib sets sys r.graph node state_ignored;
          seen = r.seen;
        })
  unfolding check_neighbors
  check_ignored visit g seen node n ns r h e s = rw (h, e, s, check_neighbors) refl

  check_clear :
      (visit : Visit) (g : Graph) (seen : Set) (node n : Text) (ns : List Text)
      (r : Checked lib sets sys)
      → set_contains seen n ≡ false
      → visit g (set_add seen n) n ≡ some r
      → (r.status == state_ignored) ≡ false
      → check_neighbors lib sets sys visit g seen node (n ∷ ns)
        ≡ check_neighbors lib sets sys visit r.graph (set_remove r.seen n) node ns
  unfolding check_neighbors
  check_clear visit g seen node n ns r h e s = rw (h, e, s, check_neighbors) refl

  check_neighbors_lem :
      (visit : Visit) (fuel : ℕ) (g : Graph) (seen : Set) (node : Text) (ns : List Text)
      → Visits visit fuel
      → Agrees g
      → contains (vertices g0) node ≡ true
      → AllEdges node ns
      → LeadsTo seen node
      → unseen sets seen (vertices g0) ≤ fuel
      → Succeeds (check_neighbors lib sets sys visit g seen node ns) seen node (AllClear ns)
  unfolding check_neighbors
  check_neighbors_lem visit fuel g seen node [] rec a on edges leads few = (
    record { status = state_unprocessed; graph = g; seen = seen },
    refl,
    record { agrees = a; found = inr (refl, λ v. refl, λ n h. absurd (cc)) },
  )
  check_neighbors_lem visit fuel g seen node (n ∷ ns) rec a on edges leads few =
      let e : Edge lib g0 node n = edges n (let r = str_eq_refl n in ground arith) in
      let below : contains (vertices g0) n ≡ true = neighbors-contains g0 node n e in
      elim (Bool-cases (set_contains seen n)) [
        | inl old ↦
            let c = closing seen node n leads e old in
            (
              record { status = state_ignored; graph = g; seen = seen },
              check_seen visit g seen node n ns old,
              record { agrees = a; found = inl (refl, c, cyclic_seen seen node leads c) },
            )
        | inr new ↦
            let (r, got, o) =
              rec g (set_add seen n) n a below (LeadsTo-add seen node n leads e)
                (omega (arith, unseen_add sets seen n (vertices g0) new below)) in
            elim o.found [
              | inl (ignored, c, cyclic) ↦
                  let c' = HasCycle-lead (Edge lib g0) (along e arrived) c in
                  (
                    record {
                      status = state_ignored;
                      graph = set_state lib sets sys r.graph node state_ignored;
                      seen = r.seen;
                    },
                    check_ignored visit g seen node n ns r new got
                        (ap (λ k. k == state_ignored) ignored),
                    record {
                      agrees = Agrees-set r.graph node state_ignored on (λ h. c') o.agrees;
                      found = inl (refl, c', cyclic);
                    },
                  )
              | inr (clear, same, never) ↦
                  let back = Same-remove seen r.seen n new same in
                  let (r', got', o') =
                    check_neighbors_lem visit fuel r.graph (set_remove r.seen n) node ns rec
                      o.agrees on (λ m h. edges m (ground arith))
                      (λ v h. leads v (sym (back v) ∙ h))
                      (omega
                        (arith, unseen_same sets seen (set_remove r.seen n) (vertices g0) back)) in
                  (
                    r',
                    check_clear visit g seen node n ns r new got
                          (ap (λ k. k == state_ignored) clear)
                        ∙ got',
                    record {
                      agrees = o'.agrees;
                      found = elim o'.found [
                        | inl f ↦ inl f
                        | inr (u, s, all) ↦ inr (u, λ v. s v ∙ back v, clear_both n ns never all)
                      ];
                    },
                  )
            ]
      ]
    where
      clear_both : (n : Text) (ns : List Text) → NoCycle n → AllClear ns → AllClear (n ∷ ns)
      clear_both n ns never all m h = elim (Bool-cases (str_eq n m)) [
        | inl same ↦ subst NoCycle (str_eq_sound n m same) never
        | inr other ↦ all m (ground arith)
      ]

  cycles-ignored :
      (fuel : ℕ) (g : Graph) (seen : Set) (node : Text)
      → (get_state lib sets sys g node == state_ignored) ≡ true
      → cycles lib sets sys (suc fuel) g seen node
        ≡ some (record { status = state_ignored; graph = g; seen = seen })
  unfolding cycles
  cycles-ignored fuel g seen node h = rw (h, cycles) refl

  cycles_step :
      (fuel : ℕ) (g : Graph) (seen : Set) (node : Text)
      → (get_state lib sets sys g node == state_ignored) ≡ false
      → cycles lib sets sys (suc fuel) g seen node
        ≡ check_neighbors lib sets sys
            (cycles lib sets sys fuel)
            (set_state lib sets sys g node state_unprocessed)
            seen
            node
            (neighbors g node)
  unfolding cycles
  cycles_step fuel g seen node h = rw (h, cycles) refl

  pub cycles-Visits : (fuel : ℕ) → Visits (cycles lib sets sys fuel) fuel
  cycles-Visits zero g seen node a on leads few = absurd (omega (arith, few))
  cycles-Visits (suc fuel) g seen node a on leads few =
      elim (Bool-cases (get_state lib sets sys g node == state_ignored)) [
        | inl h ↦
            let c = a.ignored node (ground arith) in
            (
              record { status = state_ignored; graph = g; seen = seen },
              cycles-ignored fuel g seen node h,
              record { agrees = a; found = inl (refl, c, cyclic_seen seen node leads c) },
            )
        | inr h ↦
            let (r, got, o) =
              check_neighbors_lem (cycles lib sets sys fuel) fuel
                (set_state lib sets sys g node state_unprocessed) seen node (neighbors g node)
                (cycles-Visits fuel)
                (Agrees-set g node state_unprocessed on (λ e. absurd (omega (arith, e))) a) on
                (λ n e. subst (λ ns. contains ns n ≡ true) (a.links node) e) leads
                (omega (arith, few)) in
            (
              r,
              cycles_step fuel g seen node h ∙ got,
              record {
                agrees = o.agrees;
                found = elim o.found [
                  | inl f ↦ inl f
                  | inr (u, s, all) ↦ inr (
                    u,
                    s,
                    Clear-all node
                        (λ n e. all n (subst (λ ns. contains ns n ≡ true) (sym (a.links node)) e)),
                  )
                ];
              },
            )
      ]

  -- `cycles` on a key of the graph, with nothing that leads elsewhere among the visited ones, ends within
  -- one round more than there are keys, and says IGNORED exactly where a cycle is reached from the key.
  -- Afterwards every ignored rule and, where it says so, every visited key reaches a cycle; otherwise the
  -- visited keys are those from before.
  pub cycles_lem :
      (g : Graph) (seen : Set) (node : Text)
      → Agrees g
      → contains (vertices g0) node ≡ true
      → LeadsTo seen node
      → (fuel : ℕ) → unseen sets seen (vertices g0) < fuel
      → (r : Checked lib sets sys) × (cycles lib sets sys fuel g seen node ≡ some r)
        × Agrees r.graph
        × ((r.status ≡ state_ignored) ↔ HasCycle (Edge lib g0) node)
        × (LeadsTo r.seen node)
  cycles_lem g seen node a on leads fuel few =
      let (r, got, o) = cycles-Visits fuel g seen node a on leads few in
      (
        r,
        got,
        o.agrees,
        exactly r o.found,
        elim o.found [
          | inl (s, c, cyclic) ↦ (λ v h. inr (cyclic v h))
          | inr (s, same, clear) ↦ (λ v h. leads v (sym (same v) ∙ h))
        ],
      )
    where
      exactly :
          (r : Checked lib sets sys)
          → ((r.status ≡ state_ignored) × HasCycle (Edge lib g0) node × AllCyclic r.seen)
            ⊎ ((r.status ≡ state_unprocessed) × Same seen r.seen × NoCycle node)
          → (r.status ≡ state_ignored) ↔ HasCycle (Edge lib g0) node
      exactly r (inl (s, c, cyclic)) = (λ e. c, λ d. s)
      exactly r (inr (s, same, clear)) = (λ e. absurd (omega (arith, s, e)), λ d. absurd (clear d))
