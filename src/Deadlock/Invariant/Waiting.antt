-- ===== src/Deadlock/Invariant/Waiting.antt =====
-- The steps of drm_wait of deadlock_demolition/libdrm.c before the mutex is locked, and the lock.
use cs.Prelude.{
  ℕ, ◌≡◌, none, some, Bool, true, false, ◌==◌, if◌then◌else◌, [], ◌∷◌, arith, ap, sym, subst, ◌∙◌,
  inl, inr, Bool-cases,
}
use cs.Prelude.Paths.{HasCycle}
use cs.Deadlock.{member, GraphLibrary, SetLibrary, asked}
use cs.Deadlock.Search.{Edge}
use cs.Deadlock.Requests.{neighbors-asked, vertices-asked, acyclic-asked}
use cs.Deadlock.Threads.{Phase, running, blocked, locked, update, System, waiting, having}
use cs.Deadlock.Invariant.{
  wanted, same_key, other_key, update_here, update_other, Held, free, taken, owned, IsWait, Inv,
}

locked_inj : (d e : ℕ) → locked d ≡ locked e → d ≡ e
locked_inj d e h = cc

cons_inj : (d e : ℕ) → d ∷ [] ≡ e ∷ [] → d ≡ e
cons_inj d e h = cc

module _ (lib : GraphLibrary) (sets : SetLibrary) (is_mutex : ℕ → Bool) where
  open lib use {Graph, vertices, neighbors}

  module _ (s : System lib sets is_mutex) (d t : ℕ) (i : Inv lib sets is_mutex s)
      (mutex : is_mutex d ≡ true) (thread : is_mutex t ≡ false)
      (on : member (vertices s.rag) d ≡ true) (idle : s.phase t ≡ running) where
    alone : neighbors s.rag t ≡ []
    alone = i.thread_out t thread ∙ ap wanted idle

    out_other :
        (j : ℕ) → (t == j) ≡ false → neighbors (asked lib sets s.rag d t) j ≡ neighbors s.rag j
    out_other j h =
        neighbors-asked lib sets s.rag d t on alone j
        ∙ ap (λ b. if b then d ∷ [] else neighbors s.rag j) h

    in_asked :
        (j : ℕ)
        → member (vertices s.rag) j ≡ true
        → member (vertices (asked lib sets s.rag d t)) j ≡ true
    in_asked j h = let e = vertices-asked lib sets s.rag d t on alone j in ground arith

    -- A thread in `phase locked` is another one.
    not_idle : (u e : ℕ) → s.phase u ≡ locked e → (t == u) ≡ false
    not_idle u e h = elim (Bool-cases (t == u)) [
      | inl same ↦ let f = ap s.phase (same_key t u same) in cc
      | inr other ↦ other
    ]

    abbrev phase' : ℕ → Phase
    phase' = update s.phase t (blocked d)

    accept-thread_out :
        (u : ℕ) → is_mutex u ≡ false → neighbors (asked lib sets s.rag d t) u ≡ wanted (phase' u)
    accept-thread_out u h = elim (Bool-cases (t == u)) [
      | inl same ↦
          neighbors-asked lib sets s.rag d t on alone u
          ∙ ap (λ b. if b then d ∷ [] else neighbors s.rag u) same
          ∙ sym (ap wanted (update_here s.phase t (blocked d) u same))
      | inr other ↦
          out_other u other
          ∙ i.thread_out u h
          ∙ sym (ap wanted (update_other s.phase t (blocked d) u other))
    ]

    accept-mutex_out :
        (e : ℕ)
        → is_mutex e ≡ true
        → Held lib sets is_mutex (waiting lib sets is_mutex s d t (asked lib sets s.rag d t)) e
    accept-mutex_out e h =
        let apart : (t == e) ≡ false = (let k = other_key is_mutex e t h thread in ground arith) in
        elim (i.mutex_out e h) [
          | free n f ↦ free (out_other e apart ∙ n) f
          | taken u n f p ↦
              taken u (out_other e apart ∙ n) f
                (update_other s.phase t (blocked d) u (not_idle u e p) ∙ p)
          | owned u k n f p ↦ owned u k (out_other e apart ∙ n) f (λ q. elim (Bool-cases (t == u)) [
            | inl same ↦ let r = update_here s.phase t (blocked d) u same in cc
            | inr other ↦ p (sym (update_other s.phase t (blocked d) u other) ∙ q)
          ])
        ]

    accept-known :
        (u e : ℕ)
        → wanted (phase' u) ≡ e ∷ []
        → IsWait lib sets is_mutex (waiting lib sets is_mutex s d t (asked lib sets s.rag d t)) u e
    accept-known u e w = elim (Bool-cases (t == u)) [
      | inl same ↦
          let there : d ≡ e =
            cons_inj d e (sym (ap wanted (update_here s.phase t (blocked d) u same)) ∙ w) in
          let here = same_key t u same in
          record {
            thread = ap is_mutex (sym here) ∙ thread;
            mutex = ap is_mutex (sym there) ∙ mutex;
            thread_in = vertices-asked lib sets s.rag d t on alone u ∙ ground arith;
            mutex_in = in_asked e (ap (member (vertices s.rag)) (sym there) ∙ on);
          }
      | inr other ↦
          let k = i.known u e (sym (ap wanted (update_other s.phase t (blocked d) u other)) ∙ w) in
          record {
            thread = k.thread;
            mutex = k.mutex;
            thread_in = in_asked u k.thread_in;
            mutex_in = in_asked e k.mutex_in;
          }
    ]

    pub accept-Inv :
        (HasCycle (Edge lib sets (asked lib sets s.rag d t)) t → ⊥)
        → Inv lib sets is_mutex (waiting lib sets is_mutex s d t (asked lib sets s.rag d t))
    accept-Inv clear = record {
      thread_out = accept-thread_out;
      mutex_out = accept-mutex_out;
      in_lock = λ u e p. elim (Bool-cases (t == u)) [
        | inl same ↦ let r = update_here s.phase t (blocked d) u same in absurd (cc)
        | inr other ↦ i.in_lock u e (sym (update_other s.phase t (blocked d) u other) ∙ p)
      ];
      known = accept-known;
      acyclic = acyclic-asked lib sets s.rag d t on alone i.acyclic clear;
    }

  module _ (s : System lib sets is_mutex) (d t : ℕ) (i : Inv lib sets is_mutex s)
      (asks : s.phase t ≡ blocked d) (unlocked : s.holder d ≡ none) where
    has : IsWait lib sets is_mutex s t d
    has = i.known t d (ap wanted asks)

    not_asking : (u e : ℕ) → s.phase u ≡ locked e → (t == u) ≡ false
    not_asking u e h = elim (Bool-cases (t == u)) [
      | inl same ↦ let f = ap s.phase (same_key t u same) in cc
      | inr other ↦ other
    ]

    -- Only a mutex that no thread holds is locked, and its edge has still to come.
    lock-own :
        Held lib sets is_mutex s d → Held lib sets is_mutex (having lib sets is_mutex s d t) d
    lock-own (free n f) =
        taken t n (update_here s.holder d (some t) d (ground arith))
          (update_here s.phase t (locked d) t (ground arith))
    lock-own (taken u n f p) = absurd (cc)
    lock-own (owned u k n f p) = absurd (cc)

    lock-other :
        (e : ℕ)
        → (d == e) ≡ false
        → Held lib sets is_mutex s e
        → Held lib sets is_mutex (having lib sets is_mutex s d t) e
    lock-other e h (free n f) = free n (update_other s.holder d (some t) e h ∙ f)
    lock-other e h (taken u n f p) =
        taken u n (update_other s.holder d (some t) e h ∙ f)
          (update_other s.phase t (locked d) u (not_asking u e p) ∙ p)
    lock-other e h (owned u k n f p) = owned u k n (update_other s.holder d (some t) e h ∙ f) (λ q.
        elim (Bool-cases (t == u)) [
          | inl same ↦
              let there : d ≡ e =
                locked_inj d e (sym (update_here s.phase t (locked d) u same) ∙ q) in
              ground arith
          | inr other ↦ p (sym (update_other s.phase t (locked d) u other) ∙ q)
        ])

    lock-wanted : (u : ℕ) → wanted (update s.phase t (locked d) u) ≡ wanted (s.phase u)
    lock-wanted u = elim (Bool-cases (t == u)) [
      | inl same ↦
          ap wanted (update_here s.phase t (locked d) u same)
          ∙ sym (ap wanted (sym (ap s.phase (same_key t u same)) ∙ asks))
      | inr other ↦ ap wanted (update_other s.phase t (locked d) u other)
    ]

    lock-in_lock :
        (u e : ℕ) → update s.phase t (locked d) u ≡ locked e → update s.holder d (some t) e ≡ some u
    lock-in_lock u e p = elim (Bool-cases (t == u)) [
      | inl same ↦
          let there : d ≡ e = locked_inj d e (sym (update_here s.phase t (locked d) u same) ∙ p) in
          let at : (d == e) ≡ true = ground arith in
          update_here s.holder d (some t) e at ∙ ap some (same_key t u same)
      | inr other ↦
          let before = i.in_lock u e (sym (update_other s.phase t (locked d) u other) ∙ p) in
          elim (Bool-cases (d == e)) [
            | inl at ↦ let f = ap s.holder (same_key d e at) in absurd (cc)
            | inr off ↦ update_other s.holder d (some t) e off ∙ before
          ]
    ]

    pub lock-Inv : Inv lib sets is_mutex (having lib sets is_mutex s d t)
    lock-Inv = record {
      thread_out = λ u h. i.thread_out u h ∙ sym (lock-wanted u);
      mutex_out = λ e h. elim (Bool-cases (d == e)) [
        | inl at ↦
            subst (Held lib sets is_mutex (having lib sets is_mutex s d t)) (same_key d e at)
              (lock-own (i.mutex_out d has.mutex))
        | inr off ↦ lock-other e off (i.mutex_out e h)
      ];
      in_lock = lock-in_lock;
      known = λ u e w.
          let k = i.known u e (sym (lock-wanted u) ∙ w) in
          record {
            thread = k.thread;
            mutex = k.mutex;
            thread_in = k.thread_in;
            mutex_in = k.mutex_in;
          };
      acyclic = i.acyclic;
    }
