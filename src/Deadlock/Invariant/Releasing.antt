-- ===== src/Deadlock/Invariant/Releasing.antt =====
-- drm_post of deadlock_demolition/libdrm.c keeps the invariant.
use cs.Prelude.{
  ℕ, ◌≡◌, ◌≢◌, refl, none, some, Bool, true, false, not, ◌&&◌, ◌||◌, ◌==◌, if◌then◌else◌, [], ◌∷◌,
  arith, ap, sym, subst, ◌∙◌, ◌⊎◌, inl, inr, Bool-cases,
}
use cs.Prelude.Paths.{HasCycle-more}
use cs.Deadlock.{member, without, GraphLibrary, SetLibrary, adjacent, drm_post}
use cs.Deadlock.Search.{Edge, member_one}
use cs.Deadlock.Threads.{locked, update, System, released}
use cs.Deadlock.Invariant.{
  same_key, other_key, update_here, update_other, Held, free, taken, owned, Inv, Inv-same,
}

module _ (lib : GraphLibrary) (sets : SetLibrary) (is_mutex : ℕ → Bool) where
  open lib use {
    Graph, vertices, neighbors, remove_edge, vertices-remove_edge, neighbors-remove_edge,
  }

  -- What the tests of `drm_post` leave.
  pub drm_post-cases :
      (g : Graph) (d t : ℕ)
      → (drm_post lib sets g d t ≡ (false, g))
        ⊎ ((drm_post lib sets g d t ≡ (true, remove_edge g d t))
            × (member (neighbors g d) t ≡ true))
  unfolding drm_post
  drm_post-cases g d t =
      let known = member (vertices g) d && member (vertices g) t in
      elim (Bool-cases (not known || not (adjacent lib sets g d t))) [
        | inl e ↦ inl (rw (e, drm_post) refl)
        | inr e ↦ inr (rw (e, drm_post) refl, ground arith)
      ]

  module _ (s : System lib sets is_mutex) (d t : ℕ) (i : Inv lib sets is_mutex s)
      (mutex : is_mutex d ≡ true) (thread : is_mutex t ≡ false)
      (edge : member (neighbors s.rag d) t ≡ true) where
    abbrev cut : Graph
    cut = remove_edge s.rag d t

    abbrev after : System lib sets is_mutex
    after = record s { rag = cut; holder = update s.holder d none }

    -- The mutex has its edge to the thread, and no other.
    record IsOwner : Type 0 where
      out : neighbors s.rag d ≡ t ∷ []
      holds : s.holder d ≡ some t
      settled : s.phase t ≢ locked d

    owner_of : Held lib sets is_mutex s d → IsOwner
    owner_of (free n f) =
        let gone : member [] t ≡ true = subst (λ l. member l t ≡ true) n edge in absurd (cc)
    owner_of (taken u n f p) =
        let gone : member [] t ≡ true = subst (λ l. member l t ≡ true) n edge in absurd (cc)
    owner_of (owned u k n f p) =
        let e : u ≡ t = member_one u t (subst (λ l. member l t ≡ true) n edge) in
        record {
          out = n ∙ ap (λ x. x ∷ []) e;
          holds = f ∙ ap some e;
          settled = subst (λ x. s.phase x ≢ locked d) e p;
        }

    owner : IsOwner
    owner = owner_of (i.mutex_out d mutex)

    out_mutex : (j : ℕ) → (d == j) ≡ true → neighbors cut j ≡ []
    out_mutex j h =
        let gone : without (t ∷ []) t ≡ [] = ground arith in
        neighbors-remove_edge s.rag d t j edge
        ∙ ap (λ b. if b then without (neighbors s.rag d) t else neighbors s.rag j) h
        ∙ ap (λ l. without l t) owner.out
        ∙ gone

    out_other : (j : ℕ) → (d == j) ≡ false → neighbors cut j ≡ neighbors s.rag j
    out_other j h =
        neighbors-remove_edge s.rag d t j edge
        ∙ ap (λ b. if b then without (neighbors s.rag d) t else neighbors s.rag j) h

    Held-other :
        (e : ℕ) → (d == e) ≡ false → Held lib sets is_mutex s e → Held lib sets is_mutex after e
    Held-other e off (free n f) =
        free (out_other e off ∙ n) (update_other s.holder d none e off ∙ f)
    Held-other e off (taken u n f p) =
        taken u (out_other e off ∙ n) (update_other s.holder d none e off ∙ f) p
    Held-other e off (owned u k n f p) =
        owned u k (out_other e off ∙ n) (update_other s.holder d none e off ∙ f) p

    post-Inv : Inv lib sets is_mutex after
    post-Inv = record {
      thread_out = λ u h. out_other u (other_key is_mutex d u mutex h) ∙ i.thread_out u h;
      mutex_out = λ e h. elim (Bool-cases (d == e)) [
        | inl at ↦ free (out_mutex e at) (update_here s.holder d none e at)
        | inr off ↦ Held-other e off (i.mutex_out e h)
      ];
      in_lock = λ u e p. elim (Bool-cases (d == e)) [
        | inl at ↦
            let there : locked e ≡ locked d = ap locked (sym (same_key d e at)) in
            let holder_d : s.holder d ≡ some u = ap s.holder (same_key d e at) ∙ i.in_lock u e p in
            let who : u ≡ t = (let h = owner.holds in cc) in
            absurd (owner.settled (ap s.phase (sym who) ∙ p ∙ there))
        | inr off ↦ update_other s.holder d none e off ∙ i.in_lock u e p
      ];
      known = λ u e w.
          let k = i.known u e w in
          record {
            thread = k.thread;
            mutex = k.mutex;
            thread_in = vertices-remove_edge s.rag d t u edge ∙ k.thread_in;
            mutex_in = vertices-remove_edge s.rag d t e edge ∙ k.mutex_in;
          };
      acyclic = λ k c. i.acyclic k (
          HasCycle-more (Edge lib sets s.rag) (Edge lib sets cut)
            (λ a b e. elim (Bool-cases (d == a)) [
              | inl h ↦
                  let gone : member [] b ≡ true =
                    subst (λ l. member l b ≡ true) (out_mutex a h) e in
                  absurd (cc)
              | inr h ↦ subst (λ l. member l b ≡ true) (out_other a h) e
            ])
            c);
    }

  pub released-Inv :
      (s : System lib sets is_mutex) (d t : ℕ)
      → Inv lib sets is_mutex s
      → is_mutex d ≡ true
      → is_mutex t ≡ false
      → Inv lib sets is_mutex (released lib sets is_mutex s d (drm_post lib sets s.rag d t))
  released-Inv s d t i mutex thread = elim (drm_post-cases s.rag d t) [
    | inl e ↦
        subst (λ r. Inv lib sets is_mutex (released lib sets is_mutex s d r)) (sym e)
          (Inv-same lib sets is_mutex s s.rag (λ j. refl) (λ j h. h) i)
    | inr (e, edge) ↦
        subst (λ r. Inv lib sets is_mutex (released lib sets is_mutex s d r)) (sym e)
          (post-Inv s d t i mutex thread edge)
  ]
