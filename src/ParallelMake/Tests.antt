-- ===== src/ParallelMake/Tests.antt =====
-- A graph as a list of rules and a function to the neighbors, and small Makefiles over it.
use cs.Prelude.{
  ◌+◌, ◌<◌, ◌≡◌, ◌≢◌, ◌↔◌, length, refl, Option, some, none, is_some, Bool, true, false, not, ◌&&◌,
  ◌||◌, if◌then◌else◌, List, [], ◌∷◌, ◌++◌, arith, ap, sym, subst, ◌∙◌, ◌⊎◌, inl, inr, Bool-cases,
}
use cs.Prelude.Chars.{
  str_eq, str_eq_sound, is_space, is_alnum, is_alpha, is_digit, is_upper, is_lower,
}
use cs.MakefileText.{is_makefile_target}
use cs.ParallelMake.{Text, Rule, rule_of, contains, GraphLibrary, SetLibrary}
use cs.ParallelMake.Parmake.{
  System, state_processing, state_ignored, parmake_alone, ended, Make, get_state, changed,
  all_newer, check_goals, rope_from,
}
use cs.Prelude.Paths.{HasCycle, arrived}
use cs.ParallelMake.Parmake.Paths.{Edge}
use cs.ParallelMake.Parmake.Goals.{IsFresh, check_goals_lem}
use cs.ParallelMake.Parmake.Dropped.{parmake_all_cyclic}
use cs.ParallelMake.Parmake.Failure.{IsEnded, up_to_date_waits}
use cs.ParallelMake.Parser.{ok, opened, parse_makefile}
use cs.ParallelMake.Parser.Entries.{Entry, written, IsMakefile}
use cs.ParallelMake.Parser.RoundTrip.{AllStand, parse-written}

abbrev find : List (Text × Rule) → Text → Option Rule
find [] k = none
find ((j, r) ∷ rs) k = if str_eq j k then some r else find rs k

abbrev names : List (Text × Rule) → List Text
names [] = []
names ((j, r) ∷ rs) = j ∷ names rs

contains-names : (rs : List (Text × Rule)) (k : Text) → contains (names rs) k ≡ is_some (find rs k)
contains-names [] k = refl
contains-names ((j, r) ∷ rs) k = either r (find rs k) (str_eq j k) (contains-names rs k)
  where
    either :
        (r : Rule) (o : Option Rule) {a : Bool} (b : Bool)
        → a ≡ is_some o
        → b || a ≡ is_some (if b then some r else o)
    either r o true e = refl
    either r o false e = e

-- Edges lead to vertices.
record ListGraph : Type 0 where
  rules : List (Text × Rule)
  out : Text → List Text
  closed : (s t : Text) → contains (out s) t ≡ true → contains (names rules) t ≡ true

closed-cons : (a : Bool) {b : Bool} → b ≡ true → a || b ≡ true
closed-cons a h = ground arith

abbrev put_rule : ListGraph → Text → Rule → ListGraph
put_rule g k r = record {
  rules = (k, r) ∷ g.rules;
  out = g.out;
  closed = λ s t e. closed-cons (str_eq k t) (g.closed s t e);
}

abbrev out_with : ListGraph → (s t : Text) → Text → List Text
out_with g s t k =
    let more = if contains (g.out s) t then g.out s else g.out s ++ (t ∷ []) in
    if str_eq s k then more else g.out k

contains-snoc :
    (xs : List Text) (d t : Text) → contains (xs ++ d ∷ []) t ≡ contains xs t || str_eq d t
contains-snoc [] d t = ground arith
contains-snoc (x ∷ xs) d t = ground (arith, contains-snoc xs d t)

out_with-closed :
    (g : ListGraph) (s t : Text)
    → contains (names g.rules) t ≡ true
    → (k j : Text) → contains (out_with g s t k) j ≡ true
    → contains (names g.rules) j ≡ true
out_with-closed g s t there k j e = elim (Bool-cases (str_eq t j)) [
  | inl same ↦ ap (contains (names g.rules)) (sym (str_eq_sound t j same)) ∙ there
  | inr other ↦
      let last = contains-snoc (g.out s) t j in
      let from_s = g.closed s j in let from_k = g.closed k j in ground arith
]

abbrev either_way : (b : Bool) → (b ≡ true) ⊎ (b ≡ false)
either_way true = inl refl
either_way false = inr refl

-- An edge to a key that is no vertex is not added.
abbrev link_if :
    (g : ListGraph) (s t : Text)
    → (contains (names g.rules) t ≡ true) ⊎ (contains (names g.rules) t ≡ false)
    → ListGraph
link_if g s t (inl there) = record {
  rules = g.rules;
  out = out_with g s t;
  closed = out_with-closed g s t there;
}
link_if g s t (inr gone) = g

abbrev link : ListGraph → (s t : Text) → ListGraph
link g s t = link_if g s t (either_way (contains (names g.rules) t))

out-link_if :
    (g : ListGraph) (s t j : Text)
    → (c : (contains (names g.rules) t ≡ true) ⊎ (contains (names g.rules) t ≡ false))
    → contains (names g.rules) t ≡ true
    → (link_if g s t c).out j ≡ out_with g s t j
out-link_if g s t j (inl there) on = refl
out-link_if g s t j (inr gone) on = absurd (cc)

find-link_if :
    (g : ListGraph) (s t j : Text)
    → (c : (contains (names g.rules) t ≡ true) ⊎ (contains (names g.rules) t ≡ false))
    → find (link_if g s t c).rules j ≡ find g.rules j
find-link_if g s t j (inl there) = refl
find-link_if g s t j (inr gone) = refl

abbrev those_to : List Text → (Text → List Text) → Text → List Text
those_to [] out t = []
those_to (k ∷ ks) out t =
    let rest = those_to ks out t in if contains (out k) t then k ∷ rest else rest

abbrev list_graph : GraphLibrary
list_graph = record {
  Graph = ListGraph;
  create = record { rules = []; out = λ k. []; closed = λ s t e. e };
  vertices = λ g. names g.rules;
  get_value = λ g k. find g.rules k;
  neighbors = λ g k. g.out k;
  antineighbors = λ g t. those_to (names g.rules) g.out t;
  set_value = put_rule;
  write = put_rule;
  add_edge = link;
  get-create = λ k. refl;
  neighbors-create = λ k. refl;
  contains-vertices = λ g k. contains-names g.rules k;
  get-set = λ g k r j. refl;
  neighbors-set = λ g k r j new. refl;
  get-write = λ g k r j there. refl;
  neighbors-write = λ g k r j. refl;
  get-add_edge = λ g s t j from to. find-link_if g s t j (either_way (contains (names g.rules) t));
  neighbors-add_edge = λ g s t j from to.
      out-link_if g s t j (either_way (contains (names g.rules) t)) (contains-names g.rules t ∙ to);
  neighbors-contains = λ g s t e. g.closed s t e;
}

-- "app: a.o b.o" with the command "cc -o app", and "a.o:" with "cc a.c" and "touch x"
abbrev app_rule : Entry
app_rule = record {
  target = 97 ∷ 112 ∷ 112 ∷ [];
  deps = (97 ∷ 46 ∷ 111 ∷ []) ∷ (98 ∷ 46 ∷ 111 ∷ []) ∷ [];
  commands = (99 ∷ 99 ∷ 32 ∷ 45 ∷ 111 ∷ 32 ∷ 97 ∷ 112 ∷ 112 ∷ []) ∷ [];
}

abbrev object_rule : Entry
object_rule = record {
  target = 97 ∷ 46 ∷ 111 ∷ [];
  deps = [];
  commands = (99 ∷ 99 ∷ 32 ∷ 97 ∷ 46 ∷ 99 ∷ []) ∷ (116 ∷ 111 ∷ 117 ∷ 99 ∷ 104 ∷ 32 ∷ 120 ∷ []) ∷ [];
}

app-IsMakefile : IsMakefile (app_rule ∷ object_rule ∷ [])
unfolding str_eq is_space is_alnum is_alpha is_digit is_upper is_lower is_makefile_target
app-IsMakefile = (
  record {
    named = record { word = (omega arith, refl); colon_free = refl; start = refl };
    spelled = ((omega arith, refl), ((omega arith, refl), tt));
    distinct = (refl, (refl, tt));
    trimmed = (record { first = refl; last = refl; bare = refl }, tt);
  },
  refl,
  (
    record {
      named = record { word = (omega arith, refl); colon_free = refl; start = refl };
      spelled = tt;
      distinct = tt;
      trimmed = (
        record { first = refl; last = refl; bare = refl },
        (record { first = refl; last = refl; bare = refl }, tt),
      );
    },
    refl,
    tt,
  ),
)

parse-written_example :
    (g : ListGraph) × (parse_makefile list_graph (opened (written (app_rule ∷ object_rule ∷ []))) []
      ≡ ok (g, []))
    × AllStand list_graph g (app_rule ∷ object_rule ∷ [])
    × (g.out [] ≡ (97 ∷ 112 ∷ 112 ∷ []) ∷ [])
parse-written_example = parse-written list_graph app_rule (object_rule ∷ []) app-IsMakefile

-- sets as their tests
abbrev list_sets : SetLibrary
list_sets = record {
  Set = Text → Bool;
  set_create = λ k. false;
  set_contains = λ s k. s k;
  set_add = λ s k j. str_eq k j || s j;
  set_remove = λ s k j. not (str_eq k j) && s j;
  contains-create = λ k. refl;
  contains-add = λ s k j. refl;
  contains-remove = λ s k j. refl;
}

-- Every file has the same time, and every command succeeds.
abbrev same_time : System
same_time = record { World = Unit {0}; mtime = λ w t. some 7; run = λ w c. (false, w) }

-- "x" depends on "y" and on itself, and "y" on nothing.
abbrev looped : ListGraph
looped =
    link
      (link
        (put_rule (put_rule list_graph.create (120 ∷ []) (rule_of (120 ∷ []))) (121 ∷ [])
          (rule_of (121 ∷ [])))
        (120 ∷ []) (121 ∷ []))
      (120 ∷ []) (120 ∷ [])

abbrev looped_make : Make list_graph list_sets same_time
looped_make = record {
  nodes = looped;
  tasks = [];
  visited = λ k. false;
  valid_goals = λ k. false;
  goal_total = 2;
  goal_count = 0;
  dropped = [];
  world = tt;
}

looped-IsFresh : IsFresh list_graph list_sets same_time looped_make
unfolding str_eq
looped-IsFresh = record {
  unvisited = refl;
  none_kept = refl;
  none_dropped = refl;
  none_ignored = λ t e. ground arith;
}

looped_few : length (names looped.rules) < 3
unfolding str_eq
looped_few = omega arith

looped_on :
    (t : Text)
    → contains ((120 ∷ []) ∷ (121 ∷ []) ∷ []) t ≡ true
    → contains (names looped.rules) t ≡ true
unfolding str_eq
looped_on t e = ground arith

check_goals_lem_example :
    (m' : Make list_graph list_sets same_time) × (check_goals list_graph list_sets same_time 3
        looped_make
        ((120 ∷ []) ∷ (121 ∷ []) ∷ [])
      ≡ some m')
    × ((t : Text)
        → contains ((120 ∷ []) ∷ (121 ∷ []) ∷ []) t ≡ true
        → ((contains m'.dropped t ≡ true) ↔ HasCycle (Edge list_graph looped) t)
          × ((m'.valid_goals t ≡ true) ↔ (HasCycle (Edge list_graph looped) t → ⊥)))
    × (m'.goal_total + length m'.dropped ≡ 2)
check_goals_lem_example =
    check_goals_lem list_graph list_sets same_time 3 looped_make ((120 ∷ []) ∷ (121 ∷ []) ∷ [])
      looped-IsFresh looped_few looped_on refl

-- The goal "x" is as old as "y", on which it depends.
abbrev current_make : Make list_graph list_sets same_time
current_make = record looped_make {
  nodes =
      link
        (put_rule (put_rule list_graph.create (120 ∷ []) (rule_of (120 ∷ []))) (121 ∷ [])
          (rule_of (121 ∷ [])))
        (120 ∷ []) (121 ∷ []);
  valid_goals = λ k. str_eq (120 ∷ []) k;
  goal_total = 1;
}

current_valid : current_make.valid_goals (120 ∷ []) ≡ true
unfolding str_eq
current_valid = refl

current_idle :
    get_state list_graph list_sets same_time current_make.nodes (120 ∷ []) ≢ state_processing
unfolding str_eq
current_idle e = omega (arith, e)

current_old : changed list_graph list_sets same_time current_make.nodes tt (120 ∷ []) ≡ false
unfolding str_eq changed all_newer
current_old = refl

up_to_date_waits_example :
    ¬ IsEnded list_graph list_sets same_time
      (rope_from list_graph list_sets same_time 9 current_make (some (120 ∷ []) ∷ []))
up_to_date_waits_example =
    up_to_date_waits list_graph list_sets same_time current_make (120 ∷ []) [] tt current_valid
      current_idle current_old refl 9

-- the sentinel with the goal "x", which depends on itself
abbrev circular : ListGraph
circular =
    link
      (link (put_rule (put_rule list_graph.create [] (rule_of [])) (120 ∷ []) (rule_of (120 ∷ [])))
        (120 ∷ []) (120 ∷ []))
      [] (120 ∷ [])

circular_few : length (names circular.rules) < 3
unfolding str_eq
circular_few = omega arith

circular_calm : (t : Text) → get_state list_graph list_sets same_time circular t ≢ state_ignored
unfolding str_eq
circular_calm t e = ground arith

circular_loop : HasCycle (Edge list_graph circular) (120 ∷ [])
unfolding str_eq
circular_loop = record {
  entry = 120 ∷ [];
  next = 120 ∷ [];
  lead = arrived;
  out = refl;
  back = arrived;
}

only_one : (a : Bool) → a || false ≡ true → a ≡ true
only_one true h = h
only_one false h = h

circular_goal : (t : Text) → contains (circular.out []) t ≡ true → (120 ∷ []) ≡ t
unfolding str_eq
circular_goal t h = str_eq_sound (120 ∷ []) t (only_one (str_eq (120 ∷ []) t) h)

parmake_all_cyclic_example :
    (m : Make list_graph list_sets same_time) × (parmake_alone list_graph list_sets same_time 3 5
        circular tt
      ≡ some (ended m))
    × (m.world ≡ tt)
parmake_all_cyclic_example =
    parmake_all_cyclic list_graph list_sets same_time 3 5 circular tt circular_calm circular_few
      (λ t h. subst (HasCycle (Edge list_graph circular)) (circular_goal t h) circular_loop)
