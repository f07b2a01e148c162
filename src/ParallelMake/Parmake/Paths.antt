-- ===== src/ParallelMake/Parmake/Paths.antt =====
-- Edges in the graph of parallel_make/parmake.c, its states, and the keys that were not visited.
use cs.Prelude.{
  ℕ, ◌+◌, ◌≤◌, ◌<◌, ◌≡◌, refl, Option, some, none, is_some, Bool, true, false, if◌then◌else◌, List,
  [], ◌∷◌, length, arith, ap, sym, ◌∙◌, inl, inr, Bool-cases,
}
use cs.Prelude.Chars.{str_eq, str_eq_sound, str_eq_refl}
use cs.ParallelMake.{Text, Rule, contains, GraphLibrary, SetLibrary}
use cs.ParallelMake.Parser.{contains_vertex, rule_at}

module _ (lib : GraphLibrary) where
  open lib use {Graph, vertices, get_value, neighbors, write, get-write, neighbors-write}

  abbrev pub Edge : Graph → Text → Text → Type 0
  Edge g s t = contains (neighbors g s) t ≡ true

  abbrev state_of : Option Rule → ℕ
  state_of none = 0
  state_of (some r) = r.state

  state_at :
      (g : Graph) (j : Text) (o : Option Rule)
      → get_value g j ≡ o
      → (rule_at lib g j).state ≡ state_of o
  state_at g j none e = rw (e, rule_at) refl
  state_at g j (some r) e = rw (e, rule_at) refl

  abbrev with_state : Graph → Text → ℕ → Rule
  with_state g k s = record (rule_at lib g k) { state = s }

  pub state_set :
      (g : Graph) (k : Text) (s : ℕ) (j : Text)
      → contains_vertex lib g k ≡ true
      → (rule_at lib (write g k (with_state g k s)) j).state
        ≡ (if str_eq k j then s else (rule_at lib g j).state)
  state_set g k s j there =
      let r = with_state g k s in
      state_at (write g k r) j (get_value (write g k r) j) refl
      ∙ ap state_of (get-write g k r j there)
      ∙ either (str_eq k j)
    where
      either :
          (b : Bool)
          → state_of (if b then some (with_state g k s) else get_value g j)
            ≡ (if b then s else (rule_at lib g j).state)
      either true = refl
      either false = sym (state_at g j (get_value g j) refl)

  pub contains-set :
      (g : Graph) (k : Text) (r : Rule) (j : Text)
      → contains_vertex lib g k ≡ true
      → contains_vertex lib g j ≡ true
      → contains_vertex lib (write g k r) j ≡ true
  contains-set g k r j there here = ap is_some (get-write g k r j there) ∙ either (str_eq k j)
    where
      either : (b : Bool) → is_some (if b then some r else get_value g j) ≡ true
      either true = refl
      either false = here

module _ (sets : SetLibrary) where
  open sets use {Set, set_contains, set_add, contains-add}

  -- how many of the keys are not in the set
  pub unseen : Set → List Text → ℕ
  unseen s [] = 0
  unseen s (v ∷ vs) = let rest = unseen s vs in if set_contains s v then rest else rest + 1

  pub unseen_same :
      (s s' : Set) (vs : List Text)
      → ((v : Text) → set_contains s' v ≡ set_contains s v)
      → unseen s' vs ≡ unseen s vs
  unfolding unseen
  unseen_same s s' [] h = refl
  unseen_same s s' (v ∷ vs) h = let here = h v in let rest = unseen_same s s' vs h in ground arith

  unseen_add_le : (s : Set) (k : Text) (vs : List Text) → unseen (set_add s k) vs ≤ unseen s vs
  unfolding unseen
  unseen_add_le s k [] = omega arith
  unseen_add_le s k (v ∷ vs) =
      let here = contains-add s k v in let rest = unseen_add_le s k vs in ground arith

  pub unseen_add :
      (s : Set) (k : Text) (vs : List Text)
      → set_contains s k ≡ false
      → contains vs k ≡ true
      → unseen (set_add s k) vs < unseen s vs
  unfolding unseen
  unseen_add s k [] new on = cc
  unseen_add s k (v ∷ vs) new on = elim (Bool-cases (str_eq v k)) [
    | inl same ↦
        let e : v ≡ k = str_eq_sound v k same in
        let now : set_contains (set_add s k) v ≡ true =
          contains-add s k v ∙ (let r = str_eq_refl k in cc) in
        let before : set_contains s v ≡ false = ap (set_contains s) e ∙ new in
        let rest = unseen_add_le s k vs in ground arith
    | inr other ↦
        let later : contains vs k ≡ true = ground arith in
        let rest = unseen_add s k vs new later in let here = contains-add s k v in ground arith
  ]

  pub unseen_le : (s : Set) (vs : List Text) → unseen s vs ≤ length vs
  unfolding unseen
  unseen_le s [] = omega arith
  unseen_le s (v ∷ vs) = let rest = unseen_le s vs in ground arith
