-- ===== src/Deadlock/Invariant/Reached.antt =====
-- Every state that the calls of deadlock_demolition/libdrm.c lead to satisfies the invariant.
use cs.Prelude.{
  ℕ, ◌≡◌, refl, some, Bool, true, false, [], ◌∷◌, arith, ap, sym, subst, ◌∙◌, ◌⊎◌, inl, inr,
  Bool-cases, ◌↔◌, some_inj,
}
use cs.Prelude.Paths.{HasCycle, HasCycle-next}
use cs.Deadlock.{member, GraphLibrary, SetLibrary, drm_init, asked, refused, decide, wait_request}
use cs.Deadlock.Search.{Edge, IsLine}
use cs.Deadlock.Requests.{neighbors-refused, vertices-refused, wait_request_lem}
use cs.Deadlock.Threads.{
  Phase, running, blocked, locked, System, start, Step, init, refuse, accept, lock, own, post,
  Reach, first, next, waiting,
}
use cs.Deadlock.Invariant.{wanted, free, taken, owned, Inv, Inv-same}
use cs.Deadlock.Invariant.Waiting.{accept-Inv, lock-Inv}
use cs.Deadlock.Invariant.Owning.{own-Inv}
use cs.Deadlock.Invariant.Releasing.{released-Inv}

module _ (lib : GraphLibrary) (sets : SetLibrary) (is_mutex : ℕ → Bool) where
  open lib use {
    Graph, create, vertices, neighbors, add_vertex, vertices-create, neighbors-absent,
    vertices-add_vertex, neighbors-add_vertex,
  }

  neighbors-start : (d j : ℕ) → neighbors (add_vertex create d) j ≡ []
  neighbors-start d j =
      neighbors-add_vertex create d j
      ∙ neighbors-absent create j (ap (λ l. member l j) vertices-create)

  start-Inv : (d : ℕ) → Inv lib sets is_mutex (start lib sets is_mutex d)
  unfolding drm_init
  start-Inv d = record {
    thread_out = λ t h. neighbors-start d t;
    mutex_out = λ e h. free (neighbors-start d e) refl;
    in_lock = λ t e p. absurd (cc);
    known = λ t e w. absurd (cc);
    acyclic = λ k c.
        let (u, e, c') = HasCycle-next (Edge lib sets (add_vertex create d)) k c in
        let gone : member [] u ≡ true = subst (λ l. member l u ≡ true) (neighbors-start d k) e in
        cc;
  }

  init-Inv :
      (s : System lib sets is_mutex) (d : ℕ)
      → Inv lib sets is_mutex s
      → Inv lib sets is_mutex (record s { rag = drm_init lib sets (some s.rag) d })
  unfolding drm_init
  init-Inv s d i =
      Inv-same lib sets is_mutex s (add_vertex s.rag d) (neighbors-add_vertex s.rag d)
        (λ j h. vertices-add_vertex s.rag d j ∙ ground arith) i

  wanted_line : (p : Phase) → (wanted p ≡ []) ⊎ ((d : ℕ) × (wanted p ≡ d ∷ []))
  wanted_line running = inl refl
  wanted_line (blocked d) = inr (d, refl)
  wanted_line (locked d) = inr (d, refl)

  -- In the graph of the invariant no key has two neighbors.
  pub Inv-IsLine : (s : System lib sets is_mutex) → Inv lib sets is_mutex s → IsLine lib sets s.rag
  Inv-IsLine s i k = elim (Bool-cases (is_mutex k)) [
    | inl mutex ↦ elim (i.mutex_out k mutex) [
      | free n f ↦ inl n
      | taken t n f p ↦ inl n
      | owned t h n f p ↦ inr (t, n)
    ]
    | inr thread ↦ elim (wanted_line (s.phase k)) [
      | inl e ↦ inl (i.thread_out k thread ∙ e)
      | inr (d, e) ↦ inr (d, i.thread_out k thread ∙ e)
    ]
  ]

  module _ (s : System lib sets is_mutex) (d t : ℕ) (i : Inv lib sets is_mutex s)
      (thread : is_mutex t ≡ false) (on : member (vertices s.rag) d ≡ true)
      (idle : s.phase t ≡ running) where
    alone : neighbors s.rag t ≡ []
    alone = i.thread_out t thread ∙ ap wanted idle

    -- What the answer of a request says.
    pub answer :
        (b : Bool) (g : Graph)
        → wait_request lib sets s.rag d t ≡ some (b, g)
        → ((b ≡ false)
            × (g ≡ refused lib sets s.rag d t)
            × HasCycle (Edge lib sets (asked lib sets s.rag d t)) t)
          ⊎ ((b ≡ true)
              × (g ≡ asked lib sets s.rag d t)
              × (HasCycle (Edge lib sets (asked lib sets s.rag d t)) t → ⊥))
    answer b g e =
        let (found, got, truth) = wait_request_lem lib sets s.rag d t on alone (Inv-IsLine s i) in
        by_found found truth (some_inj (sym got ∙ e))
      where
        by_found :
            (found : Bool)
            → (found ≡ true) ↔ HasCycle (Edge lib sets (asked lib sets s.rag d t)) t
            → decide lib sets s.rag d t found ≡ (b, g)
            → ((b ≡ false)
                × (g ≡ refused lib sets s.rag d t)
                × HasCycle (Edge lib sets (asked lib sets s.rag d t)) t)
              ⊎ ((b ≡ true)
                  × (g ≡ asked lib sets s.rag d t)
                  × (HasCycle (Edge lib sets (asked lib sets s.rag d t)) t → ⊥))
        by_found true truth h = inl (ap (λ r. r.0) (sym h), ap (λ r. r.1) (sym h), truth.0 refl)
        by_found false truth h =
            inr (ap (λ r. r.0) (sym h), ap (λ r. r.1) (sym h), λ c. let never = truth.1 c in cc)

    refuse-Inv :
        (g : Graph)
        → wait_request lib sets s.rag d t ≡ some (false, g)
        → Inv lib sets is_mutex (record s { rag = g })
    refuse-Inv g e = elim (answer false g e) [
      | inl (f, at, c) ↦
          subst (λ x. Inv lib sets is_mutex (record s { rag = x })) (sym at)
            (Inv-same lib sets is_mutex s (refused lib sets s.rag d t)
              (neighbors-refused lib sets s.rag d t on alone)
              (λ j h. vertices-refused lib sets s.rag d t on alone j ∙ ground arith) i)
      | inr (f, at, c) ↦ absurd (cc)
    ]

    granted-Inv :
        (g : Graph)
        → is_mutex d ≡ true
        → wait_request lib sets s.rag d t ≡ some (true, g)
        → Inv lib sets is_mutex (waiting lib sets is_mutex s d t g)
    granted-Inv g mutex e = elim (answer true g e) [
      | inl (f, at, c) ↦ absurd (cc)
      | inr (f, at, c) ↦
          subst (λ x. Inv lib sets is_mutex (waiting lib sets is_mutex s d t x)) (sym at)
            (accept-Inv lib sets is_mutex s d t i mutex thread on idle c)
    ]

  Step-Inv :
      (s s' : System lib sets is_mutex)
      → Step lib sets is_mutex s s'
      → Inv lib sets is_mutex s
      → Inv lib sets is_mutex s'
  Step-Inv s s' (init d mutex) i = init-Inv s d i
  Step-Inv s s' (refuse d t g mutex thread on idle e) i = refuse-Inv s d t i thread on idle g e
  Step-Inv s s' (accept d t g mutex thread on idle e) i =
      granted-Inv s d t i thread on idle g mutex e
  Step-Inv s s' (lock d t asks unlocked) i = lock-Inv lib sets is_mutex s d t i asks unlocked
  Step-Inv s s' (own d t has_lock) i = own-Inv lib sets is_mutex s d t i has_lock
  Step-Inv s s' (post d t mutex thread idle) i = released-Inv lib sets is_mutex s d t i mutex thread

  pub Reach-Inv :
      (s : System lib sets is_mutex) → Reach lib sets is_mutex s → Inv lib sets is_mutex s
  Reach-Inv s (first d mutex) = start-Inv d
  Reach-Inv s' (next {s} r step) = Step-Inv s s' step (Reach-Inv s r)
