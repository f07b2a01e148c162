-- ===== src/Prelude/Paths.antt =====
-- Paths and cycles of a directed graph, given by its edges.
use mathlib.Core.Path.{◌≡◌, subst}
use mathlib.Core.Logic.{◌⊎◌, inl, inr}

module _ {K : Type 0} (Edge : K → K → Type 0) where
  pub data Reaches : K → K → Type 0 where
    arrived : {t : K} → Reaches t t
    along : {s u t : K} → Edge s u → Reaches u t → Reaches s t

  -- From `s` a key is reached that an edge leads back to.
  pub record HasCycle (s : K) : Type 0 where
    pub entry : K
    pub next : K
    pub lead : Reaches s entry
    pub out : Edge entry next
    pub back : Reaches next entry

  pub Reaches-snoc : {s t u : K} → Reaches s t → Edge t u → Reaches s u
  Reaches-snoc arrived e = along e arrived
  Reaches-snoc (along f p) e = along f (Reaches-snoc p e)

  pub Reaches-trans : {s t u : K} → Reaches s t → Reaches t u → Reaches s u
  Reaches-trans arrived q = q
  Reaches-trans (along f p) q = along f (Reaches-trans p q)

  pub HasCycle-lead : {s t : K} → Reaches s t → HasCycle t → HasCycle s
  HasCycle-lead p c = record {
    entry = c.entry;
    next = c.next;
    lead = Reaches-trans p c.lead;
    out = c.out;
    back = c.back;
  }

  -- A cycle goes on behind one of the edges.
  pub HasCycle-next : (s : K) → HasCycle s → (u : K) × Edge s u × HasCycle u
  HasCycle-next s c = first c.lead c.next c.out c.back
    where
      first :
          {s t : K}
          → Reaches s t
          → (u : K) → Edge t u
          → Reaches u t
          → (v : K) × Edge s v × HasCycle v
      first {s} arrived u e back =
          (u, e, record { entry = s; next = u; lead = back; out = e; back = back })
      first {s} {t} (along {u = v} f p) u e back =
          (v, f, record { entry = t; next = u; lead = p; out = e; back = back })

-- More edges, all new ones of which start at `t`.
module _ {K : Type 0} (Edge More : K → K → Type 0) (t : K) where
  -- A path over them has the old edges only, or passes `t`.
  pub Reaches-fewer :
      ((s u : K) → More s u → Edge s u ⊎ (s ≡ t))
      → {s u : K} → Reaches More s u
      → Reaches Edge s u ⊎ (Reaches More s t × Reaches More t u)
  Reaches-fewer old arrived = inl arrived
  Reaches-fewer old {s} {u} (along {u = v} e p) = elim (old s v e) [
    | inl f ↦ elim (Reaches-fewer old p) [
      | inl q ↦ inl (along f q)
      | inr (q, r) ↦ inr (along e q, r)
    ]
    | inr here ↦
        inr (
          subst (λ x. Reaches More s x) here arrived,
          subst (λ x. Reaches More x u) here (along e p),
        )
  ]

  -- They close no cycle but one that `t` reaches.
  pub HasCycle-fewer :
      ((s u : K) → More s u → Edge s u ⊎ (s ≡ t))
      → ((s : K) → HasCycle Edge s → ⊥)
      → (HasCycle More t → ⊥)
      → (s : K) → HasCycle More s
      → ⊥
  HasCycle-fewer old none_old none_t s c = elim (old c.entry c.next c.out) [
    | inl f ↦ elim (Reaches-fewer old c.back) [
      | inl q ↦
          none_old c.entry
            (record { entry = c.entry; next = c.next; lead = arrived; out = f; back = q })
      | inr (q, r) ↦
          none_t (record { entry = c.entry; next = c.next; lead = r; out = c.out; back = c.back })
    ]
    | inr here ↦ none_t (
        subst (HasCycle More) here
          (record { entry = c.entry; next = c.next; lead = arrived; out = c.out; back = c.back }))
  ]

module _ {K : Type 0} (Edge Fewer : K → K → Type 0) (old : (s u : K) → Fewer s u → Edge s u) where
  Reaches-more : {s u : K} → Reaches Fewer s u → Reaches Edge s u
  Reaches-more arrived = arrived
  Reaches-more (along {s} {u} e p) = along (old s u e) (Reaches-more p)

  -- Taking edges away makes no cycle.
  pub HasCycle-more : {s : K} → HasCycle Fewer s → HasCycle Edge s
  HasCycle-more c = record {
    entry = c.entry;
    next = c.next;
    lead = Reaches-more c.lead;
    out = old c.entry c.next c.out;
    back = Reaches-more c.back;
  }
