-- ===== src/Deadlock/Freedom.antt =====
-- The threads that use deadlock_demolition/libdrm.c never wait in a circle.
use cs.Prelude.{ℕ, ◌≡◌, some, Bool, true, false, [], ◌∷◌, ap, ◌∙◌, ◌↔◌}
use cs.Prelude.Paths.{Reaches, arrived, along, HasCycle, Reaches-trans}
use cs.Deadlock.{member, GraphLibrary, SetLibrary, asked, decide, wait_request}
use cs.Deadlock.Search.{Edge, member_self}
use cs.Deadlock.Requests.{wait_request_lem}
use cs.Deadlock.Threads.{running, blocked, System, Reach}
use cs.Deadlock.Invariant.{wanted, Held, free, taken, owned, Inv}
use cs.Deadlock.Invariant.Reached.{Inv-IsLine, Reach-Inv}

module _ (lib : GraphLibrary) (sets : SetLibrary) (is_mutex : ℕ → Bool) where
  open lib use {vertices, neighbors}

  -- The thread `t` is stopped at the lock of a mutex that the thread `u` has locked.
  pub record Waits (s : System lib sets is_mutex) (t u : ℕ) : Type 0 where
    pub mutex : ℕ
    pub stopped : s.phase t ≡ blocked mutex
    pub held : s.holder mutex ≡ some u

  abbrev IsBlocked : System lib sets is_mutex → ℕ → Type 0
  IsBlocked s t = (d : ℕ) × (s.phase t ≡ blocked d)

  Reaches-IsBlocked :
      (s : System lib sets is_mutex) {t u : ℕ}
      → Reaches (Waits s) t u
      → IsBlocked s u
      → IsBlocked s t
  Reaches-IsBlocked s arrived b = b
  Reaches-IsBlocked s (along w p) b = (w.mutex, w.stopped)

  module _ (s : System lib sets is_mutex) (i : Inv lib sets is_mutex s) where
    thread-Edge : (t d : ℕ) → s.phase t ≡ blocked d → Edge lib sets s.rag t d
    thread-Edge t d h =
        let k = i.known t d (ap wanted h) in
        ap (λ l. member l d) (i.thread_out t k.thread ∙ ap wanted h) ∙ member_self d []

    -- A mutex whose holder is stopped itself has its edge.
    mutex-Edge :
        (d u : ℕ)
        → s.holder d ≡ some u
        → IsBlocked s u
        → Held lib sets is_mutex s d
        → Edge lib sets s.rag d u
    mutex-Edge d u h b (free n f) = absurd (cc)
    mutex-Edge d u h (e, b) (taken t n f p) =
        let at : t ≡ u = cc in let q = ap s.phase at in absurd (cc)
    mutex-Edge d u h b (owned t k n f p) =
        let at : t ≡ u = cc in ap (λ l. member l u) (n ∙ ap (λ x. x ∷ []) at) ∙ member_self u []

    Waits-Reaches : (t u : ℕ) → Waits s t u → IsBlocked s u → Reaches (Edge lib sets s.rag) t u
    Waits-Reaches t u w b =
        let k = i.known t w.mutex (ap wanted w.stopped) in
        along (thread-Edge t w.mutex w.stopped)
          (along (mutex-Edge w.mutex u w.held b (i.mutex_out w.mutex k.mutex)) arrived)

    Reaches-edges :
        {t u : ℕ} → Reaches (Waits s) t u → IsBlocked s u → Reaches (Edge lib sets s.rag) t u
    Reaches-edges arrived b = arrived
    Reaches-edges {t} (along {u = v} w p) b =
        Reaches-trans (Edge lib sets s.rag) (Waits-Reaches t v w (Reaches-IsBlocked s p b))
          (Reaches-edges p b)

  -- However the calls of the threads interleave, the locks included, no threads wait in a circle for each
  -- other's mutexes.
  pub Reach-no_deadlock :
      (s : System lib sets is_mutex) → Reach lib sets is_mutex s → (t : ℕ) → ¬ HasCycle (Waits s) t
  Reach-no_deadlock s r t c =
      let i = Reach-Inv lib sets is_mutex s r in
      let d = c.out.mutex in
      let stopped : IsBlocked s c.entry = (d, c.out.stopped) in
      let next_stopped = Reaches-IsBlocked s c.back stopped in
      let mutex = (i.known c.entry d (ap wanted c.out.stopped)).mutex in
      i.acyclic c.entry (record {
        entry = c.entry;
        next = d;
        lead = arrived;
        out = thread-Edge s i c.entry d c.out.stopped;
        back =
            along (mutex-Edge s i d c.next c.out.held next_stopped (i.mutex_out d mutex))
              (Reaches-edges s i c.back stopped);
      })

  -- In every state that is reached, the request of a thread for a mutex returns, and it is refused exactly
  -- where the wait would close a cycle in the graph of waits and locks.
  pub Reach-wait_request :
      (s : System lib sets is_mutex) (d t : ℕ)
      → Reach lib sets is_mutex s
      → is_mutex t ≡ false
      → member (vertices s.rag) d ≡ true
      → s.phase t ≡ running
      → (found : Bool) × (wait_request lib sets s.rag d t ≡ some (decide lib sets s.rag d t found))
        × ((found ≡ true) ↔ HasCycle (Edge lib sets (asked lib sets s.rag d t)) t)
  Reach-wait_request s d t r thread on idle =
      let i = Reach-Inv lib sets is_mutex s r in
      wait_request_lem lib sets s.rag d t on (i.thread_out t thread ∙ ap wanted idle)
        (Inv-IsLine lib sets is_mutex s i)
