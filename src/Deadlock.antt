-- ===== src/Deadlock.antt =====
-- deadlock_demolition/libdrm.c: mutexes that refuse a wait which would deadlock, over any graph library.
-- Mutexes and thread ids are the addresses that the graph has for keys.
pub mod Search
pub mod Threads
pub mod Requests
pub mod Invariant
pub mod Freedom
mod Tests
use cs.Prelude.{
  ℕ, zero, suc, ◌≡◌, Option, none, some, Bool, true, false, not, ◌==◌, ◌&&◌, ◌||◌, if◌then◌else◌,
  List, [], ◌∷◌, ◌++◌, length, ◌>>=◌,
}

abbrev pub member : List ℕ → ℕ → Bool
member [] k = false
member (x ∷ xs) k = (x == k) || member xs k

abbrev pub without : List ℕ → ℕ → List ℕ
without [] k = []
without (x ∷ xs) k = let rest = without xs k in if x == k then rest else x ∷ rest

-- graph.h, as `shallow_graph_create` makes it: keys are compared by their addresses. A key that is no
-- vertex has no neighbors.
pub record GraphLibrary : Type 1 where
  pub Graph : Type 0
  pub create : Graph
  pub vertices : Graph → List ℕ
  pub neighbors : Graph → ℕ → List ℕ
  pub add_vertex : Graph → ℕ → Graph
  pub remove_vertex : Graph → ℕ → Graph
  pub add_edge : Graph → ℕ → ℕ → Graph
  pub remove_edge : Graph → ℕ → ℕ → Graph
  pub vertices-create : vertices create ≡ []
  pub neighbors-absent : (g : Graph) (s : ℕ) → member (vertices g) s ≡ false → neighbors g s ≡ []
  pub neighbors-contains :
      (g : Graph) (s t : ℕ) → member (neighbors g s) t ≡ true → member (vertices g) t ≡ true
  pub vertices-add_vertex :
      (g : Graph) (k j : ℕ)
      → member (vertices (add_vertex g k)) j ≡ (k == j) || member (vertices g) j
  pub neighbors-add_vertex : (g : Graph) (k j : ℕ) → neighbors (add_vertex g k) j ≡ neighbors g j
  pub vertices-add_edge :
      (g : Graph) (s t j : ℕ)
      → member (vertices g) s ≡ true
      → member (vertices g) t ≡ true
      → member (vertices (add_edge g s t)) j ≡ member (vertices g) j
  pub neighbors-add_edge :
      (g : Graph) (s t j : ℕ)
      → member (vertices g) s ≡ true
      → member (vertices g) t ≡ true
      → neighbors (add_edge g s t) j ≡ (
          if s == j
          then (if member (neighbors g s) t then neighbors g s else neighbors g s ++ (t ∷ []))
          else neighbors g j)
  pub vertices-remove_edge :
      (g : Graph) (s t j : ℕ)
      → member (neighbors g s) t ≡ true
      → member (vertices (remove_edge g s t)) j ≡ member (vertices g) j
  pub neighbors-remove_edge :
      (g : Graph) (s t j : ℕ)
      → member (neighbors g s) t ≡ true
      → neighbors (remove_edge g s t) j
        ≡ (if s == j then without (neighbors g s) t else neighbors g j)

-- set.h, as `shallow_set_create` makes it
pub record SetLibrary : Type 1 where
  pub Set : Type 0
  pub set_create : Set
  pub set_contains : Set → ℕ → Bool
  pub set_add : Set → ℕ → Set
  pub contains-create : (k : ℕ) → set_contains set_create k ≡ false
  pub contains-add :
      (s : Set) (k j : ℕ) → set_contains (set_add s k) j ≡ (k == j) || set_contains s j

module _ (lib : GraphLibrary) (sets : SetLibrary) where
  open lib use {
    Graph, create, vertices, neighbors, add_vertex, remove_vertex, add_edge, remove_edge,
  }
  open sets use {Set, set_create, set_contains, set_add}

  abbrev pub adjacent : Graph → ℕ → ℕ → Bool
  adjacent g s t = member (neighbors g s) t

  -- `rag` is NULL before the first call.
  pub drm_init : (rag : Option Graph) → (drm : ℕ) → Graph
  drm_init none drm = add_vertex create drm
  drm_init (some g) drm = add_vertex g drm

  -- Whether the mutex is released, and the graph afterwards.
  pub drm_post : Graph → (drm thread_id : ℕ) → Bool × Graph
  drm_post g drm thread_id =
      let known = member (vertices g) drm && member (vertices g) thread_id in
      if not known || not (adjacent g drm thread_id)
      then (false, g)
      else (true, remove_edge g drm thread_id)

  -- The loop of `contains_cycle`; `search` is the recursive call. The set of visited keys is NULL, which is
  -- `none`, whenever a call returns.
  pub search_all :
      (search : Option Set → ℕ → Option (Bool × Option Set))
      → Option Set
      → List ℕ
      → Option (Bool × Option Set)
  search_all search visited [] = some (false, none)
  search_all search visited (n ∷ ns) = do
    (found, visited') ← search visited n
    (let further = search_all search visited' ns in
        if found then some (true, visited') else further)

  abbrev pub set_of : Option Set → Set
  set_of none = set_create
  set_of (some s) = s

  pub contains_cycle : (fuel : ℕ) → Graph → Option Set → ℕ → Option (Bool × Option Set)
  unfolding search_all
  contains_cycle zero g visited node = none
  contains_cycle (suc fuel) g visited node =
      let seen = set_of visited in
      let further =
        search_all (contains_cycle fuel g) (some (set_add seen node)) (neighbors g node) in
      if set_contains seen node then some (true, none) else further

  abbrev pub asked : Graph → (drm thread_id : ℕ) → Graph
  asked g drm thread_id = add_edge (add_vertex g thread_id) thread_id drm

  abbrev pub refused : Graph → (drm thread_id : ℕ) → Graph
  refused g drm thread_id = remove_edge (asked g drm thread_id) thread_id drm

  -- What `drm_wait` does with the answer of the search.
  abbrev pub decide : Graph → (drm thread_id : ℕ) → (found : Bool) → Bool × Graph
  decide g drm thread_id true = (false, refused g drm thread_id)
  decide g drm thread_id false = (true, asked g drm thread_id)

  -- `drm_wait` up to the lock of the mutex: whether it goes on to lock, and the graph. When a call begins
  -- `visited` is NULL; the search gets one round more than there are keys.
  pub wait_request : Graph → (drm thread_id : ℕ) → Option (Bool × Graph)
  unfolding contains_cycle
  wait_request g drm thread_id =
      let g' = asked g drm thread_id in
      let searched = (do
        (found, visited) ← contains_cycle (suc (length (vertices g'))) g' none thread_id
        some (decide g drm thread_id found)) in
      if adjacent g' drm thread_id then some (decide g drm thread_id true) else searched

  -- `drm_wait` behind the lock of the mutex
  abbrev pub wait_update : Graph → (drm thread_id : ℕ) → Graph
  wait_update g drm thread_id = add_edge (remove_edge g thread_id drm) drm thread_id

  abbrev pub drm_destroy : Graph → (drm : ℕ) → Graph
  drm_destroy g drm = remove_vertex g drm
