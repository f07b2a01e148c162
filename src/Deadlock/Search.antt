-- ===== src/Deadlock/Search.antt =====
-- The search for a cycle of deadlock_demolition/libdrm.c, on a graph where no key has two neighbors.
use cs.Prelude.{
  ℕ, zero, suc, ◌+◌, ◌≤◌, ◌<◌, ◌≡◌, refl, Option, none, some, Bool, true, false, ◌==◌,
  if◌then◌else◌, List, [], ◌∷◌, length, arith, ap, sym, subst, ◌∙◌, ◌⊎◌, inl, inr, Bool-cases,
  ◌>>=◌, ◌↔◌,
}
use cs.Prelude.Paths.{Reaches, arrived, along, HasCycle, Reaches-snoc, HasCycle-lead, HasCycle-next}
use cs.Deadlock.{member, GraphLibrary, SetLibrary, search_all, set_of, contains_cycle}

pub member_self : (x : ℕ) (xs : List ℕ) → member (x ∷ xs) x ≡ true
member_self x xs = ground arith

pub member_one : (x y : ℕ) → member (x ∷ []) y ≡ true → x ≡ y
member_one x y h = ground arith

module _ (lib : GraphLibrary) (sets : SetLibrary) where
  open lib use {Graph, vertices, neighbors, neighbors-contains}
  open sets use {Set, set_contains, set_add, contains-create, contains-add}

  abbrev pub Edge : Graph → ℕ → ℕ → Type 0
  Edge g s t = member (neighbors g s) t ≡ true

  -- No key has two neighbors.
  abbrev pub IsLine : Graph → Type 0
  IsLine g = (s : ℕ) → (neighbors g s ≡ []) ⊎ ((t : ℕ) × (neighbors g s ≡ t ∷ []))

  -- how many of the keys are not in the set
  unseen : Set → List ℕ → ℕ
  unseen s [] = 0
  unseen s (v ∷ vs) = let rest = unseen s vs in if set_contains s v then rest else rest + 1

  unseen_le : (s : Set) (vs : List ℕ) → unseen s vs ≤ length vs
  unfolding unseen
  unseen_le s [] = omega arith
  unseen_le s (v ∷ vs) = let rest = unseen_le s vs in ground arith

  unseen_add_le : (s : Set) (k : ℕ) (vs : List ℕ) → unseen (set_add s k) vs ≤ unseen s vs
  unfolding unseen
  unseen_add_le s k [] = omega arith
  unseen_add_le s k (v ∷ vs) =
      let here = contains-add s k v in let rest = unseen_add_le s k vs in ground arith

  unseen_add :
      (s : Set) (k : ℕ) (vs : List ℕ)
      → set_contains s k ≡ false
      → member vs k ≡ true
      → unseen (set_add s k) vs < unseen s vs
  unfolding unseen
  unseen_add s k [] new on = cc
  unseen_add s k (v ∷ vs) new on = elim (Bool-cases (v == k)) [
    | inl same ↦
        let e : v ≡ k = ground arith in
        let now : set_contains (set_add s k) v ≡ true =
          (let h = contains-add s k v in ground arith) in
        let before : set_contains s v ≡ false = ap (set_contains s) e ∙ new in
        let rest = unseen_add_le s k vs in ground arith
    | inr other ↦
        let later : member vs k ≡ true = ground arith in
        let rest = unseen_add s k vs new later in let here = contains-add s k v in ground arith
  ]

  -- Each key in the set has an edge towards a path to `node`.
  abbrev LeadsTo : Graph → Set → ℕ → Type 0
  LeadsTo g seen node =
      (v : ℕ) → set_contains seen v ≡ true → (u : ℕ) × Edge g v u × Reaches (Edge g) u node

  LeadsTo-add :
      (g : Graph) (seen : Set) (node n : ℕ)
      → LeadsTo g seen node
      → Edge g node n
      → LeadsTo g (set_add seen node) n
  LeadsTo-add g seen node n leads e v on = elim (Bool-cases (node == v)) [
    | inl same ↦ let here : node ≡ v = ground arith in (n, subst (λ x. Edge g x n) here e, arrived)
    | inr other ↦
        let before : set_contains seen v ≡ true =
          (let h = contains-add seen node v in ground arith) in
        let (u, f, p) = leads v before in (u, f, Reaches-snoc (Edge g) p e)
  ]

  -- The search ends with the set forgotten, and with the truth about cycles.
  abbrev Finds : Graph → Option (Bool × Option Set) → ℕ → Type 0
  Finds g o node = (b : Bool) × (o ≡ some (b, none)) × ((b ≡ true) ↔ HasCycle (Edge g) node)

  Finds-nil :
      (fuel : ℕ) (g : Graph) (seen : Set) (node : ℕ)
      → neighbors g node ≡ []
      → Finds g
          (search_all lib sets (contains_cycle lib sets fuel g) (some seen) (neighbors g node))
          node
  unfolding search_all
  Finds-nil fuel g seen node e = (
    false,
    ap (search_all lib sets (contains_cycle lib sets fuel g) (some seen)) e,
    (
      λ h. absurd (cc),
      λ c.
          let (u, f, c') = HasCycle-next (Edge g) node c in
          let gone : member [] u ≡ true = subst (λ ns. member ns u ≡ true) e f in cc,
    ),
  )

  Finds-one :
      (fuel : ℕ) (g : Graph) (seen : Set) (node n : ℕ)
      → neighbors g node ≡ n ∷ []
      → Finds g (contains_cycle lib sets fuel g (some seen) n) n
      → Finds g
          (search_all lib sets (contains_cycle lib sets fuel g) (some seen) (neighbors g node))
          node
  unfolding search_all
  Finds-one fuel g seen node n e (b, got, truth) =
      let out : Edge g node n = ap (λ ns. member ns n) e ∙ member_self n [] in
      let rest = λ (v : Option Set). search_all lib sets (contains_cycle lib sets fuel g) v [] in
      (
        b,
        ap (search_all lib sets (contains_cycle lib sets fuel g) (some seen)) e
            ∙ ap
                (λ (o : Option (Bool × Option Set)). o >>= λ r.
                  let hit : Option (Bool × Option Set) = some (true, r.1) in
                  if r.0 then hit else rest r.1)
                got
            ∙ both b,
        (
          λ h. HasCycle-lead (Edge g) (along out arrived) (truth.0 h),
          λ c.
              let (u, f, c') = HasCycle-next (Edge g) node c in
              let there : n ≡ u = member_one n u (subst (λ ns. member ns u ≡ true) e f) in
              truth.1 (subst (HasCycle (Edge g)) (sym there) c'),
        ),
      )
    where
      hit : Bool → Option (Bool × Option Set)
      hit b = some (b, none)

      both : (b : Bool) → (if b then hit true else hit false) ≡ hit b
      both true = refl
      both false = refl

  search_seen :
      (fuel : ℕ) (g : Graph) (visited : Option Set) (node : ℕ)
      → set_contains (set_of lib sets visited) node ≡ true
      → contains_cycle lib sets (suc fuel) g visited node ≡ some (true, none)
  unfolding contains_cycle
  search_seen fuel g visited node h = rw (h, contains_cycle) refl

  search_new :
      (fuel : ℕ) (g : Graph) (visited : Option Set) (node : ℕ)
      → set_contains (set_of lib sets visited) node ≡ false
      → contains_cycle lib sets (suc fuel) g visited node
        ≡ search_all lib sets
            (contains_cycle lib sets fuel g)
            (some (set_add (set_of lib sets visited) node))
            (neighbors g node)
  unfolding contains_cycle
  search_new fuel g visited node h = rw (h, contains_cycle) refl

  contains_cycle-Finds :
      (fuel : ℕ) (g : Graph) (visited : Option Set) (node : ℕ)
      → IsLine g
      → member (vertices g) node ≡ true
      → LeadsTo g (set_of lib sets visited) node
      → unseen (set_of lib sets visited) (vertices g) < fuel
      → Finds g (contains_cycle lib sets fuel g visited node) node
  contains_cycle-Finds zero g visited node line on leads few = absurd (omega (arith, few))
  contains_cycle-Finds (suc fuel) g visited node line on leads few =
      let seen = set_of lib sets visited in
      elim (Bool-cases (set_contains seen node)) [
        | inl old ↦
            let (u, f, p) = leads node old in
            let c : HasCycle (Edge g) node = record {
              entry = node;
              next = u;
              lead = arrived;
              out = f;
              back = p;
            } in
            (true, search_seen fuel g visited node old, (λ h. c, λ d. refl))
        | inr new ↦
            subst (λ o. Finds g o node) (sym (search_new fuel g visited node new))
              (elim (line node) [
                | inl e ↦ Finds-nil fuel g (set_add seen node) node e
                | inr (n, e) ↦
                    let out : Edge g node n = ap (λ ns. member ns n) e ∙ member_self n [] in
                    Finds-one fuel g (set_add seen node) node n e (
                      contains_cycle-Finds fuel g (some (set_add seen node)) n line
                        (neighbors-contains g node n out) (LeadsTo-add g seen node n leads out)
                        (omega (arith, few, unseen_add seen node (vertices g) new on)))
              ])
      ]

  -- On a graph where no key has two neighbors, and with more rounds than it has keys, the search from a
  -- vertex returns, with `visited` NULL again, and finds a cycle exactly where one is reached.
  pub contains_cycle_lem :
      (g : Graph) (node fuel : ℕ)
      → IsLine g
      → member (vertices g) node ≡ true
      → length (vertices g) < fuel
      → (b : Bool) × (contains_cycle lib sets fuel g none node ≡ some (b, none))
        × ((b ≡ true) ↔ HasCycle (Edge g) node)
  contains_cycle_lem g node fuel line on enough =
      contains_cycle-Finds fuel g none node line on
        (λ v h. let never = contains-create v in absurd (cc))
        (omega (arith, unseen_le sets.set_create (vertices g)))
