-- ===== src/ParallelMake.antt =====
-- parallel_make: rules, and the graph library that the parser and parmake call.
-- A string is the list of its characters before the terminator, so that equal keys are equal strings.
pub mod Parser
pub mod Parmake
mod Tests
use cs.Prelude.Chars.{str_eq}
use cs.Prelude.{
  ℕ, ◌≡◌, Option, none, some, is_some, Bool, true, false, not, ◌&&◌, ◌||◌, if◌then◌else◌, List, [],
  ◌∷◌, ◌++◌,
}

abbrev pub Text : Type 0
Text = List ℕ

-- `rule_t`; `data` is NULL throughout.
pub record Rule : Type 0 where
  pub target : Text
  pub commands : List Text
  pub state : ℕ

-- `rule_init`, with the target that `str_to_rule_constructor` then sets
abbrev pub rule_of : Text → Rule
rule_of s = record { target = s; commands = []; state = 0 }

abbrev pub contains : List Text → Text → Bool
contains [] t = false
contains (x ∷ xs) t = str_eq x t || contains xs t

-- includes/graph.h: a graph with strings for keys and rules for values. `write` stands for an assignment
-- through the pointer that `graph_get_vertex_value` returns.
pub record GraphLibrary : Type 1 where
  pub Graph : Type 0
  pub create : Graph
  pub vertices : Graph → List Text
  pub get_value : Graph → Text → Option Rule
  pub neighbors : Graph → Text → List Text
  pub antineighbors : Graph → Text → List Text
  pub set_value : Graph → Text → Rule → Graph
  pub write : Graph → Text → Rule → Graph
  pub add_edge : Graph → Text → Text → Graph
  pub get-create : (k : Text) → get_value create k ≡ none
  pub neighbors-create : (k : Text) → neighbors create k ≡ []
  pub contains-vertices : (g : Graph) (k : Text) → contains (vertices g) k ≡ is_some (get_value g k)
  pub get-set :
      (g : Graph) (k : Text) (r : Rule) (j : Text)
      → get_value (set_value g k r) j ≡ (if str_eq k j then some r else get_value g j)
  pub neighbors-set :
      (g : Graph) (k : Text) (r : Rule) (j : Text)
      → get_value g k ≡ none
      → neighbors (set_value g k r) j ≡ neighbors g j
  pub get-write :
      (g : Graph) (k : Text) (r : Rule) (j : Text)
      → is_some (get_value g k) ≡ true
      → get_value (write g k r) j ≡ (if str_eq k j then some r else get_value g j)
  pub neighbors-write :
      (g : Graph) (k : Text) (r : Rule) (j : Text) → neighbors (write g k r) j ≡ neighbors g j
  pub get-add_edge :
      (g : Graph) (s t j : Text)
      → is_some (get_value g s) ≡ true
      → is_some (get_value g t) ≡ true
      → get_value (add_edge g s t) j ≡ get_value g j
  pub neighbors-add_edge :
      (g : Graph) (s t j : Text)
      → is_some (get_value g s) ≡ true
      → is_some (get_value g t) ≡ true
      → neighbors (add_edge g s t) j ≡ (
          if str_eq s j
          then (if contains (neighbors g s) t then neighbors g s else neighbors g s ++ (t ∷ []))
          else neighbors g j)
  pub neighbors-contains :
      (g : Graph) (s t : Text) → contains (neighbors g s) t ≡ true → contains (vertices g) t ≡ true

-- includes/set.h: a set of strings
pub record SetLibrary : Type 1 where
  pub Set : Type 0
  pub set_create : Set
  pub set_contains : Set → Text → Bool
  pub set_add : Set → Text → Set
  pub set_remove : Set → Text → Set
  pub contains-create : (k : Text) → set_contains set_create k ≡ false
  pub contains-add :
      (s : Set) (k j : Text) → set_contains (set_add s k) j ≡ str_eq k j || set_contains s j
  pub contains-remove :
      (s : Set) (k j : Text)
      → set_contains (set_remove s k) j ≡ not (str_eq k j) && set_contains s j
