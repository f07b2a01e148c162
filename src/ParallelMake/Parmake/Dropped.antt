-- ===== src/ParallelMake/Parmake/Dropped.antt =====
-- parallel_make/parmake.c where every goal reaches a cycle.
use cs.Prelude.{
  ℕ, ◌<◌, ◌≡◌, ◌≢◌, refl, Option, none, some, true, ◌==◌, if◌then◌else◌, List, [], ◌∷◌, ◌++◌,
  length, arith, ap, ◌∙◌, ◌>>=◌,
}
use cs.Prelude.Paths.{HasCycle}
use cs.ParallelMake.{Text, contains, GraphLibrary, SetLibrary}
use cs.ParallelMake.Parmake.{
  System, state_ignored, Make, get_state, check_goals, leaves, all_tasks, load_rules, fresh, ended,
  rope_from, rope, parmake_alone,
}
use cs.ParallelMake.Parmake.Paths.{Edge}
use cs.ParallelMake.Parmake.Goals.{IsFresh, IsFresh-IsSorted, check_goals-Settles}

module _ (lib : GraphLibrary) (sets : SetLibrary) (sys : System) where
  open lib use {Graph, vertices, neighbors, neighbors-contains}

  abbrev begin : Graph → sys.World → Make lib sets sys
  begin g w = record (fresh lib sets sys g w) {
    goal_total = length (neighbors g []);
    goal_count = 0;
  }

  abbrev stopped : Make lib sets sys → Make lib sets sys
  stopped m = if m.goal_total == 0 then record m { tasks = m.tasks ++ (none ∷ []) } else m

  abbrev with_leaves : Graph → Make lib sets sys → Make lib sets sys
  with_leaves g m = record m {
    tasks = m.tasks ++ all_tasks lib sets sys (leaves lib sets sys m.nodes (vertices g));
  }

  abbrev loaded : Graph → Make lib sets sys → Make lib sets sys
  loaded g m = with_leaves g (stopped m)

  parmake_alone-loaded :
      (depth fuel : ℕ) (g : Graph) (w : sys.World) (m : Make lib sets sys)
      → check_goals lib sets sys depth (begin g w) (neighbors g []) ≡ some m
      → parmake_alone lib sets sys depth fuel g w ≡ some (rope lib sets sys fuel (loaded g m))
  unfolding parmake_alone load_rules
  parmake_alone-loaded depth fuel g w m e =
      ap (λ o. (o >>= λ c. some (loaded g c)) >>= λ m. some (rope lib sets sys fuel m)) e

  -- with NULL in front
  rope_ends :
      (fuel : ℕ) (g : Graph) (m : Make lib sets sys)
      → m.goal_total ≡ 0
      → m.tasks ≡ []
      → (m' : Make lib sets sys) × (rope lib sets sys fuel (loaded g m) ≡ ended m')
        × (m'.world ≡ m.world)
  unfolding rope rope_from
  rope_ends fuel g m total empty_ =
      let ended_at = λ (ts : List (Option Text)). record m { tasks = ts ++ (none ∷ []) } in
      let zero_left : (m.goal_total == 0) ≡ true = ground arith in
      (
        _,
        ap (λ b. rope lib sets sys fuel (with_leaves g (if b then ended_at m.tasks else m)))
              zero_left
            ∙ ap (λ ts. rope lib sets sys fuel (with_leaves g (ended_at ts))) empty_,
        refl,
      )

  -- Where no rule is ignored at first and every goal reaches a cycle, `parmake` with one thread returns at once with every
  -- file as it was: each goal is dropped, and no command runs.
  pub parmake_all_cyclic :
      (depth fuel : ℕ) (g : Graph) (w : sys.World)
      → ((t : Text) → get_state lib sets sys g t ≢ state_ignored)
      → length (vertices g) < depth
      → ((t : Text) → contains (neighbors g []) t ≡ true → HasCycle (Edge lib g) t)
      → (m : Make lib sets sys) × (parmake_alone lib sets sys depth fuel g w ≡ some (ended m))
        × (m.world ≡ w)
  parmake_all_cyclic depth fuel g w calm enough cyclic =
      let goals = neighbors g [] in
      let f : IsFresh lib sets sys (begin g w) = record {
        unvisited = refl;
        none_kept = refl;
        none_dropped = refl;
        none_ignored = calm;
      } in
      let (m, done, s) =
        check_goals-Settles lib sets sys g depth (begin g w) goals enough
          (λ t h. neighbors-contains g [] t h) (IsFresh-IsSorted lib sets sys (begin g w) f) in
      let (m', ends, same) =
        rope_ends fuel g m (omega (arith, s.all_cyclic cyclic)) s.untouched.0 in
      (m', parmake_alone-loaded depth fuel g w m done ∙ ap some ends, same ∙ s.untouched.1)
