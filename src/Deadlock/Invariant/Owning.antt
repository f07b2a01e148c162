-- ===== src/Deadlock/Invariant/Owning.antt =====
-- The steps of deadlock_demolition/libdrm.c that give a mutex its edge, and that take it away.
use cs.Prelude.{
  ℕ, ◌≡◌, Bool, true, false, ◌==◌, if◌then◌else◌, [], ◌∷◌, ◌++◌, arith, ap, sym, subst, ◌∙◌, inl,
  inr, Bool-cases,
}
use cs.Prelude.Paths.{HasCycle, HasCycle-next, HasCycle-more, HasCycle-fewer}
use cs.Deadlock.{member, without, GraphLibrary, SetLibrary, wait_update}
use cs.Deadlock.Search.{Edge, member_self, member_one}
use cs.Deadlock.Threads.{running, locked, System, updated}
use cs.Deadlock.Invariant.{
  wanted, same_key, other_key, update_here, update_other, Held, free, taken, owned, IsWait, Inv,
}

locked_inj : (d e : ℕ) → locked d ≡ locked e → d ≡ e
locked_inj d e h = cc

self : (k : ℕ) → (k == k) ≡ true
self k = ground arith

module _ (lib : GraphLibrary) (sets : SetLibrary) (is_mutex : ℕ → Bool) where
  open lib use {
    Graph, vertices, neighbors, add_edge, remove_edge, vertices-add_edge, neighbors-add_edge,
    vertices-remove_edge, neighbors-remove_edge,
  }

  module _ (s : System lib sets is_mutex) (d t : ℕ) (i : Inv lib sets is_mutex s)
      (has_lock : s.phase t ≡ locked d) where
    has : IsWait lib sets is_mutex s t d
    has = i.known t d (ap wanted has_lock)

    apart : (d == t) ≡ false
    apart = other_key is_mutex d t has.mutex has.thread

    asking : neighbors s.rag t ≡ d ∷ []
    asking = i.thread_out t has.thread ∙ ap wanted has_lock

    edge : member (neighbors s.rag t) d ≡ true
    edge = ap (λ l. member l d) asking ∙ member_self d []

    -- The mutex has no edge yet.
    bare : Held lib sets is_mutex s d → neighbors s.rag d ≡ []
    bare (free n f) = n
    bare (taken u n f p) = n
    bare (owned u k n f p) =
        let h = i.in_lock t d has_lock in let e : u ≡ t = cc in absurd (p (ap s.phase e ∙ has_lock))

    abbrev cut : Graph
    cut = remove_edge s.rag t d

    in_cut : (j : ℕ) → member (vertices cut) j ≡ member (vertices s.rag) j
    in_cut j = vertices-remove_edge s.rag t d j edge

    neighbors-cut : (j : ℕ) → neighbors cut j ≡ (if t == j then [] else neighbors s.rag j)
    neighbors-cut j =
        let gone : without (d ∷ []) d ≡ [] = ground arith in
        neighbors-remove_edge s.rag t d j edge
        ∙ ap (λ l. if t == j then l else neighbors s.rag j) (ap (λ l. without l d) asking ∙ gone)

    neighbors-cut_mutex : neighbors cut d ≡ []
    neighbors-cut_mutex =
        let off : (t == d) ≡ false = (let h = apart in ground arith) in
        neighbors-cut d
        ∙ ap (λ b. if b then [] else neighbors s.rag d) off
        ∙ bare (i.mutex_out d has.mutex)

    thread_in : member (vertices cut) t ≡ true
    thread_in = in_cut t ∙ has.thread_in

    mutex_in : member (vertices cut) d ≡ true
    mutex_in = in_cut d ∙ has.mutex_in

    neighbors-updated :
        (j : ℕ)
        → neighbors (wait_update lib sets s.rag d t) j
          ≡ (if d == j then t ∷ [] else neighbors cut j)
    neighbors-updated j =
        neighbors-add_edge cut d t j mutex_in thread_in
        ∙ ap (λ l. if d == j then (if member l t then l else l ++ (t ∷ [])) else neighbors cut j)
            neighbors-cut_mutex

    out_mutex : (j : ℕ) → (d == j) ≡ true → neighbors (wait_update lib sets s.rag d t) j ≡ t ∷ []
    out_mutex j h = neighbors-updated j ∙ ap (λ b. if b then t ∷ [] else neighbors cut j) h

    out_thread : (j : ℕ) → (t == j) ≡ true → neighbors (wait_update lib sets s.rag d t) j ≡ []
    out_thread j h =
        let off : (d == j) ≡ false = (let k = apart in ground arith) in
        neighbors-updated j
        ∙ ap (λ b. if b then t ∷ [] else neighbors cut j) off
        ∙ neighbors-cut j
        ∙ ap (λ b. if b then [] else neighbors s.rag j) h

    out_other :
        (j : ℕ)
        → (d == j) ≡ false
        → (t == j) ≡ false
        → neighbors (wait_update lib sets s.rag d t) j ≡ neighbors s.rag j
    out_other j off h =
        neighbors-updated j
        ∙ ap (λ b. if b then t ∷ [] else neighbors cut j) off
        ∙ neighbors-cut j
        ∙ ap (λ b. if b then [] else neighbors s.rag j) h

    in_updated :
        (j : ℕ)
        → member (vertices s.rag) j ≡ true
        → member (vertices (wait_update lib sets s.rag d t)) j ≡ true
    in_updated j h = vertices-add_edge cut d t j mutex_in thread_in ∙ in_cut j ∙ h

    acyclic-cut : (k : ℕ) → HasCycle (Edge lib sets cut) k → ⊥
    acyclic-cut k c = i.acyclic k (
        HasCycle-more (Edge lib sets s.rag) (Edge lib sets cut)
          (λ a b e. elim (Bool-cases (t == a)) [
            | inl h ↦
                let n = neighbors-cut a ∙ ap (λ x. if x then [] else neighbors s.rag a) h in
                let gone : member [] b ≡ true = subst (λ l. member l b ≡ true) n e in absurd (cc)
            | inr h ↦
                let n = neighbors-cut a ∙ ap (λ x. if x then [] else neighbors s.rag a) h in
                subst (λ l. member l b ≡ true) n e
          ])
          c)

    -- The new edge leads to a thread without an edge.
    dead_end : HasCycle (Edge lib sets (wait_update lib sets s.rag d t)) d → ⊥
    dead_end c =
        let g = wait_update lib sets s.rag d t in
        let (u, e, c') = HasCycle-next (Edge lib sets g) d c in
        let at : t ≡ u = member_one t u (subst (λ l. member l u ≡ true) (out_mutex d (self d)) e) in
        let (v, f, c'') =
          HasCycle-next (Edge lib sets g) t (subst (HasCycle (Edge lib sets g)) (sym at) c') in
        let gone : member [] v ≡ true = subst (λ l. member l v ≡ true) (out_thread t (self t)) f in
        cc

    acyclic-updated : (k : ℕ) → HasCycle (Edge lib sets (wait_update lib sets s.rag d t)) k → ⊥
    acyclic-updated =
        HasCycle-fewer (Edge lib sets cut) (Edge lib sets (wait_update lib sets s.rag d t)) d
          (λ a b e. elim (Bool-cases (d == a)) [
            | inl h ↦ inr (sym (same_key d a h))
            | inr h ↦ inl (
                subst (λ l. member l b ≡ true)
                  (neighbors-updated a ∙ ap (λ x. if x then t ∷ [] else neighbors cut a) h) e)
          ])
          acyclic-cut dead_end

    abbrev next_state : System lib sets is_mutex
    next_state = updated lib sets is_mutex s d t

    phase_other : (u : ℕ) → (t == u) ≡ false → next_state.phase u ≡ s.phase u
    phase_other u h = update_other s.phase t running u h

    phase_here : (u : ℕ) → (t == u) ≡ true → next_state.phase u ≡ running
    phase_here u h = update_here s.phase t running u h

    own-thread_out :
        (u : ℕ) → is_mutex u ≡ false → neighbors next_state.rag u ≡ wanted (next_state.phase u)
    own-thread_out u h = elim (Bool-cases (t == u)) [
      | inl same ↦ out_thread u same ∙ sym (ap wanted (phase_here u same))
      | inr other ↦
          out_other u (other_key is_mutex d u has.mutex h) other
          ∙ i.thread_out u h
          ∙ sym (ap wanted (phase_other u other))
    ]

    own_self : Held lib sets is_mutex next_state d
    own_self =
        owned t has.thread (out_mutex d (self d)) (i.in_lock t d has_lock)
          (λ q. let r = phase_here t (self t) in cc)

    own-other :
        (e : ℕ)
        → is_mutex e ≡ true
        → (d == e) ≡ false
        → Held lib sets is_mutex s e
        → Held lib sets is_mutex next_state e
    own-other e h off held =
        let far : (t == e) ≡ false =
          (let k = other_key is_mutex e t h has.thread in ground arith) in
        let out = out_other e off far in
        elim held [
          | free n f ↦ free (out ∙ n) f
          | taken u n f p ↦ elim (Bool-cases (t == u)) [
            | inl same ↦
                let there : d ≡ e =
                  locked_inj d e (sym (ap s.phase (sym (same_key t u same)) ∙ has_lock) ∙ p) in
                absurd (clash d e off there)
            | inr other ↦ taken u (out ∙ n) f (phase_other u other ∙ p)
          ]
          | owned u k n f p ↦ owned u k (out ∙ n) f (λ q. elim (Bool-cases (t == u)) [
            | inl same ↦ let r = phase_here u same in cc
            | inr other ↦ p (sym (phase_other u other) ∙ q)
          ])
        ]
      where
        clash : (a b : ℕ) → (a == b) ≡ false → a ≡ b → ⊥
        clash a b h e = ground arith

    own-known :
        (u e : ℕ) → wanted (next_state.phase u) ≡ e ∷ [] → IsWait lib sets is_mutex next_state u e
    own-known u e w = elim (Bool-cases (t == u)) [
      | inl same ↦ let r = ap wanted (phase_here u same) in absurd (cc)
      | inr other ↦
          let k = i.known u e (sym (ap wanted (phase_other u other)) ∙ w) in
          record {
            thread = k.thread;
            mutex = k.mutex;
            thread_in = in_updated u k.thread_in;
            mutex_in = in_updated e k.mutex_in;
          }
    ]

    pub own-Inv : Inv lib sets is_mutex (updated lib sets is_mutex s d t)
    own-Inv = record {
      thread_out = own-thread_out;
      mutex_out = λ e h. elim (Bool-cases (d == e)) [
        | inl at ↦ subst (Held lib sets is_mutex next_state) (same_key d e at) own_self
        | inr off ↦ own-other e h off (i.mutex_out e h)
      ];
      in_lock = λ u e p. elim (Bool-cases (t == u)) [
        | inl same ↦ let r = phase_here u same in absurd (cc)
        | inr other ↦ i.in_lock u e (sym (phase_other u other) ∙ p)
      ];
      known = own-known;
      acyclic = acyclic-updated;
    }
