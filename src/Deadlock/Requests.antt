-- ===== src/Deadlock/Requests.antt =====
-- A request of drm_wait in deadlock_demolition/libdrm.c, by a thread with no edge yet.
use cs.Prelude.{
  ℕ, suc, ◌≡◌, refl, Option, none, some, Bool, true, false, ◌==◌, ◌||◌, if◌then◌else◌, [], ◌∷◌,
  ◌++◌, length, arith, ap, sym, ◌∙◌, inl, inr, Bool-cases, ◌↔◌,
}
use cs.Prelude.Paths.{arrived, along, HasCycle, HasCycle-fewer}
use cs.Deadlock.{
  member, without, GraphLibrary, SetLibrary, contains_cycle, adjacent, asked, refused, decide,
  wait_request,
}
use cs.Deadlock.Search.{member_self, Edge, IsLine, contains_cycle_lem}

module _ (lib : GraphLibrary) (sets : SetLibrary) (g : lib.Graph) (d t : ℕ) where
  open lib use {
    Graph, vertices, neighbors, add_vertex, vertices-add_vertex, neighbors-add_vertex,
    vertices-add_edge, neighbors-add_edge, vertices-remove_edge, neighbors-remove_edge,
  }

  module _ (on : member (vertices g) d ≡ true) (alone : neighbors g t ≡ []) where
    thread_in : member (vertices (add_vertex g t)) t ≡ true
    thread_in = let h = vertices-add_vertex g t t in ground arith

    mutex_in : member (vertices (add_vertex g t)) d ≡ true
    mutex_in = let h = vertices-add_vertex g t d in ground arith

    pub neighbors-asked :
        (j : ℕ) → neighbors (asked lib sets g d t) j ≡ (if t == j then d ∷ [] else neighbors g j)
    neighbors-asked j =
        let ns = neighbors (add_vertex g t) t in
        neighbors-add_edge (add_vertex g t) t d j thread_in mutex_in
        ∙ ap
            (λ l.
              if t == j
              then (if member l d then l else l ++ (d ∷ []))
              else neighbors (add_vertex g t) j)
            (neighbors-add_vertex g t t ∙ alone)
        ∙ ap (λ l. if t == j then d ∷ [] else l) (neighbors-add_vertex g t j)

    pub vertices-asked :
        (j : ℕ) → member (vertices (asked lib sets g d t)) j ≡ (t == j) || member (vertices g) j
    vertices-asked j =
        vertices-add_edge (add_vertex g t) t d j thread_in mutex_in ∙ vertices-add_vertex g t j

    Edge-asked : Edge lib sets (asked lib sets g d t) t d
    Edge-asked =
        ap (λ l. member l d) (neighbors-asked t)
        ∙ (let same : (t == t) ≡ true = ground arith in
            ap (λ b. member (if b then d ∷ [] else neighbors g t) d) same)
        ∙ member_self d []

    pub neighbors-refused : (j : ℕ) → neighbors (refused lib sets g d t) j ≡ neighbors g j
    neighbors-refused j =
        neighbors-remove_edge (asked lib sets g d t) t d j Edge-asked ∙ elim (Bool-cases (t == j)) [
          | inl same ↦
              let here : t ≡ j = ground arith in
              let self : (t == t) ≡ true = ground arith in
              let gone : without (d ∷ []) d ≡ [] = ground arith in
              ap
                (λ b.
                  if b
                  then without (neighbors (asked lib sets g d t) t) d
                  else neighbors (asked lib sets g d t) j)
                same
              ∙ ap (λ l. without l d) (neighbors-asked t)
              ∙ ap (λ b. without (if b then d ∷ [] else neighbors g t) d) self
              ∙ gone
              ∙ sym alone
              ∙ ap (neighbors g) here
          | inr other ↦
              ap
                (λ b.
                  if b
                  then without (neighbors (asked lib sets g d t) t) d
                  else neighbors (asked lib sets g d t) j)
                other
              ∙ neighbors-asked j
              ∙ ap (λ b. if b then d ∷ [] else neighbors g j) other
        ]

    pub vertices-refused :
        (j : ℕ) → member (vertices (refused lib sets g d t)) j ≡ (t == j) || member (vertices g) j
    vertices-refused j =
        vertices-remove_edge (asked lib sets g d t) t d j Edge-asked ∙ vertices-asked j

    IsLine-asked : IsLine lib sets g → IsLine lib sets (asked lib sets g d t)
    IsLine-asked line s = elim (Bool-cases (t == s)) [
      | inl same ↦ inr (d, neighbors-asked s ∙ ap (λ b. if b then d ∷ [] else neighbors g s) same)
      | inr other ↦
          let as_before = neighbors-asked s ∙ ap (λ b. if b then d ∷ [] else neighbors g s) other in
          elim (line s) [ inl e ↦ inl (as_before ∙ e) | inr (u, e) ↦ inr (u, as_before ∙ e) ]
    ]

    -- Without a cycle that the thread reaches there is none at all.
    pub acyclic-asked :
        ((k : ℕ) → HasCycle (Edge lib sets g) k → ⊥)
        → (HasCycle (Edge lib sets (asked lib sets g d t)) t → ⊥)
        → (k : ℕ) → HasCycle (Edge lib sets (asked lib sets g d t)) k
        → ⊥
    acyclic-asked clear clear_t =
        HasCycle-fewer (Edge lib sets g) (Edge lib sets (asked lib sets g d t)) t
          (λ s u e. elim (Bool-cases (t == s)) [
            | inl same ↦ inr (ground arith)
            | inr other ↦ inl (
                ap (λ l. member l u)
                  (sym (neighbors-asked s ∙ ap (λ b. if b then d ∷ [] else neighbors g s) other))
                ∙ e)
          ])
          clear clear_t

    found_at_once :
        adjacent lib sets (asked lib sets g d t) d t ≡ true
        → wait_request lib sets g d t ≡ some (decide lib sets g d t true)
    unfolding wait_request
    found_at_once h = rw (h, wait_request) refl

    searched :
        (b : Bool) (v : Option sets.Set)
        → adjacent lib sets (asked lib sets g d t) d t ≡ false
        → contains_cycle lib sets
            (suc (length (vertices (asked lib sets g d t))))
            (asked lib sets g d t)
            none
            t
          ≡ some (b, v)
        → wait_request lib sets g d t ≡ some (decide lib sets g d t b)
    unfolding wait_request
    searched b v h e = rw (h, e, wait_request) refl

    -- A request returns, and it is refused exactly where waiting would close a cycle.
    pub wait_request_lem :
        IsLine lib sets g
        → (found : Bool) × (wait_request lib sets g d t ≡ some (decide lib sets g d t found))
          × ((found ≡ true) ↔ HasCycle (Edge lib sets (asked lib sets g d t)) t)
    wait_request_lem line = elim (Bool-cases (adjacent lib sets (asked lib sets g d t) d t)) [
      | inl h ↦
          let c : HasCycle (Edge lib sets (asked lib sets g d t)) t = record {
            entry = t;
            next = d;
            lead = arrived;
            out = Edge-asked;
            back = along h arrived;
          } in
          (true, found_at_once h, (λ e. c, λ e. refl))
      | inr h ↦
          let (b, got, truth) =
            contains_cycle_lem lib sets (asked lib sets g d t) t
              (suc (length (vertices (asked lib sets g d t)))) (IsLine-asked line)
              (vertices-asked t ∙ ground arith) (omega arith) in
          (b, searched b none h got, truth)
    ]
