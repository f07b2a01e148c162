-- ===== src/ParallelMake/Parmake.antt =====
-- parallel_make/parmake.c: the goals, the check for cycles, and the rules that one thread runs.
-- A rule is named by its target; the queue of the library is a list. With one thread, as by default, the
-- lock changes nothing.
pub mod Paths
pub mod Cycles
pub mod Goals
pub mod Failure
pub mod Dropped
use cs.Prelude.{
  ℕ, zero, suc, ◌+◌, ◌-◌, Option, none, some, Bool, true, false, not, ◌==◌, leb, ◌&&◌,
  if◌then◌else◌, List, [], ◌∷◌, ◌++◌, length, ◌>>=◌,
}
use cs.ParallelMake.{Text, Rule, rule_of, GraphLibrary, SetLibrary}
use cs.ParallelMake.Parser.{rule_at}

abbrev pub state_default : ℕ
state_default = 0

abbrev pub state_unprocessed : ℕ
state_unprocessed = 1

abbrev pub state_failed : ℕ
state_failed = 2

abbrev pub state_succeeded : ℕ
state_succeeded = 3

abbrev pub state_ignored : ℕ
state_ignored = 4

abbrev pub state_processing : ℕ
state_processing = 5

-- The files and what `system` does: `mtime` is what `stat` tells of a file, `none` where there is none.
pub record System : Type 1 where
  pub World : Type 0
  pub mtime : World → Text → Option ℕ
  pub run : World → Text → Bool × World

module _ (lib : GraphLibrary) (sets : SetLibrary) (sys : System) where
  open lib use {Graph, vertices, neighbors, antineighbors, write}
  open sets use {Set, set_create, set_contains, set_add, set_remove}
  open sys use {World, mtime, run}

  -- The globals, and the world. NULL in the queue is `none`.
  pub record Make : Type 0 where
    pub nodes : Graph
    pub tasks : List (Option Text)
    pub visited : Set
    pub valid_goals : Set
    pub goal_total : ℕ
    pub goal_count : ℕ
    pub dropped : List Text
    pub world : World

  abbrev pub get_state : Graph → Text → ℕ
  get_state g target = (rule_at lib g target).state

  abbrev pub set_state : Graph → Text → ℕ → Graph
  set_state g target state = write g target (record (rule_at lib g target) { state = state })

  -- What `cycles` returns, and the graph and the set of visited keys afterwards.
  pub record Checked : Type 0 where
    pub status : ℕ
    pub graph : Graph
    pub seen : Set

  -- The loop over the neighbors; `visit` is the recursive call.
  pub check_neighbors :
      (visit : Graph → Set → Text → Option Checked)
      → Graph
      → Set
      → Text
      → List Text
      → Option Checked
  check_neighbors visit g seen node [] =
      some (record { status = state_unprocessed; graph = g; seen = seen })
  check_neighbors visit g seen node (n ∷ ns) =
      let marked = set_add seen n in
      let further = (do
        r ← visit g marked n
        (let next = check_neighbors visit r.graph (set_remove r.seen n) node ns in
            if r.status == state_ignored
            then some (record {
              status = state_ignored;
              graph = set_state r.graph node state_ignored;
              seen = r.seen;
            })
            else next)) in
      if set_contains seen n
      then some (record { status = state_ignored; graph = g; seen = seen })
      else further

  pub cycles : (fuel : ℕ) → Graph → Set → Text → Option Checked
  unfolding check_neighbors
  cycles zero g seen node = none
  cycles (suc fuel) g seen node =
      let further =
        check_neighbors (cycles fuel) (set_state g node state_unprocessed) seen node
          (neighbors g node) in
      if get_state g node == state_ignored
      then some (record { status = state_ignored; graph = g; seen = seen })
      else further

  pub any_failed : Graph → List Text → Bool
  any_failed g [] = false
  any_failed g (d ∷ ds) =
      let rest = any_failed g ds in if get_state g d == state_failed then true else rest

  pub check_failed_dependencies : Graph → Text → Graph
  unfolding any_failed
  check_failed_dependencies g target =
      if any_failed g (neighbors g target) then set_state g target state_failed else g

  -- No dependency is a file as old as the one with the time `old`.
  unfoldable pub all_newer : World → (old : ℕ) → List Text → Bool
  all_newer w old [] = true
  all_newer w old (d ∷ ds) =
      let rest = all_newer w old ds in
      elim (mtime w d) [ none ↦ rest | some time ↦ if leb time old then false else rest ]

  unfoldable pub changed : Graph → World → Text → Bool
  unfolding all_newer
  changed g w target = elim (mtime w target) [
    | none ↦ true
    | some old ↦ all_newer w old (neighbors g target)
  ]

  -- Whether a command failed, after which no other runs.
  pub run_commands : World → List Text → Bool × World
  run_commands w [] = (false, w)
  run_commands w (c ∷ cs) =
      let (failed, w') = run w c in
      let rest = run_commands w' cs in if failed then (true, w') else rest

  pub execute : Graph → World → Text → Graph × World
  unfolding run_commands
  execute g w target =
      let (failed, w') = run_commands w (rule_at lib g target).commands in
      let g' = if failed then set_state g target state_failed else g in
      (if get_state g' target == state_failed then g' else set_state g' target state_succeeded, w')

  pub all_tasks : List Text → List (Option Text)
  all_tasks [] = []
  all_tasks (t ∷ ts) = some t ∷ all_tasks ts

  pub push_failed_antineighbors : Make → Text → Make
  unfolding all_tasks
  push_failed_antineighbors m target = record m {
    tasks = m.tasks ++ all_tasks (antineighbors m.nodes target);
  }

  pub all_succeeded : Graph → List Text → Bool
  all_succeeded g [] = true
  all_succeeded g (d ∷ ds) = (get_state g d == state_succeeded) && all_succeeded g ds

  -- those of the antineighbors that can run now
  pub ready : Graph → List Text → List Text
  unfolding all_succeeded
  ready g [] = []
  ready g (a ∷ anti) =
      let rest = ready g anti in
      if not (get_state g a == state_default) && all_succeeded g (neighbors g a)
      then a ∷ rest
      else rest

  pub push_successful_antineighbors : Make → Text → Make
  unfolding ready all_tasks
  push_successful_antineighbors m target = record m {
    tasks = m.tasks ++ all_tasks (ready m.nodes (antineighbors m.nodes target));
  }

  -- from the check of the dependencies to the state that the rule ends with
  pub process : Make → Text → Make
  unfolding check_failed_dependencies changed execute
  process m target =
      let g = check_failed_dependencies (set_state m.nodes target state_processing) target in
      let (g', w') = execute g m.world target in
      let ran = record m { nodes = g'; world = w' } in
      let current = record m {
        nodes = set_state g target state_succeeded;
        goal_count = m.goal_count + 1;
      } in
      if changed g m.world target then ran else current

  abbrev pub push_antineighbors : Make → Text → Make
  push_antineighbors m target =
      let failed = push_failed_antineighbors m target in
      let succeeded = push_successful_antineighbors m target in
      let state = get_state m.nodes target in
      if state == state_failed then failed else if state == state_succeeded then succeeded else m

  abbrev pub count_goal : Make → Text → Make
  count_goal m target =
      if set_contains m.valid_goals target then record m { goal_count = m.goal_count + 1 } else m

  abbrev pub push_end : Make → Make
  push_end m =
      if m.goal_count == m.goal_total then record m { tasks = m.tasks ++ (none ∷ []) } else m

  -- one round of the loop of `rope`
  pub rope_round : Make → Text → Make
  unfolding process push_failed_antineighbors push_successful_antineighbors
  rope_round m target =
      let next = push_end (count_goal (push_antineighbors (process m target) target) target) in
      if get_state m.nodes target == state_processing then m else next

  -- How a thread stands: it returned, it waits for a task, or it goes on.
  pub data Outcome : Type 0 where
    ended waiting working : Make → Outcome

  pub rope_from : (fuel : ℕ) → Make → List (Option Text) → Outcome
  unfolding rope_round
  rope_from fuel m [] = waiting m
  rope_from fuel m (none ∷ rest) = ended (record m { tasks = rest ++ (none ∷ []) })
  rope_from zero m (some target ∷ rest) = working m
  rope_from (suc fuel) m (some target ∷ rest) =
      let m' = rope_round (record m { tasks = rest }) target in rope_from fuel m' m'.tasks

  pub rope : (fuel : ℕ) → Make → Outcome
  unfolding rope_from
  rope fuel m = rope_from fuel m m.tasks

  -- The loop of `load_rules` over the goals; `dropped` are the goals it prints a failure for.
  pub check_goals : (fuel : ℕ) → Make → List Text → Option Make
  unfolding cycles
  check_goals fuel m [] = some m
  check_goals fuel m (target ∷ rest) = do
    r ← cycles fuel m.nodes m.visited target
    let m' = record m { nodes = r.graph; visited = r.seen }
    let without = record m' { goal_total = m.goal_total - 1; dropped = m.dropped ++ (target ∷ []) }
    let with_goal = record m' { valid_goals = set_add m.valid_goals target }
    check_goals fuel (if r.status == state_ignored then without else with_goal) rest

  -- the rules without a dependency that some goal needs
  pub leaves : Graph → List Text → List Text
  leaves g [] = []
  leaves g (t ∷ ts) =
      let rest = leaves g ts in
      if (length (neighbors g t) == 0) && (get_state g t == state_unprocessed)
      then t ∷ rest
      else rest

  pub load_rules : (fuel : ℕ) → Make → Option Make
  unfolding check_goals leaves all_tasks
  load_rules fuel m = do
    let goals = neighbors m.nodes []
    checked ← check_goals fuel (record m { goal_total = length goals; goal_count = 0 }) goals
    let stopped = record checked { tasks = checked.tasks ++ (none ∷ []) }
    let m' = if checked.goal_total == 0 then stopped else checked
    some (record m' { tasks = m'.tasks ++ all_tasks (leaves m'.nodes (vertices m.nodes)) })

  abbrev pub fresh : Graph → World → Make
  fresh g w = record {
    nodes = g;
    tasks = [];
    visited = set_create;
    valid_goals = set_create;
    goal_total = 0;
    goal_count = 0;
    dropped = [];
    world = w;
  }

  -- `parmake` with `num_threads` 1, behind the parser: the one thread runs `rope`. With several threads the
  -- runs of `rope` interleave, which is not modelled; `depth` is the fuel of the check for cycles.
  pub parmake_alone : (depth fuel : ℕ) → Graph → World → Option Outcome
  unfolding load_rules rope
  parmake_alone depth fuel g w = do m ← load_rules depth (fresh g w); some (rope fuel m)
