-- ===== src/BlockingQueue/Rep.antt =====
-- The linked list of critical_concurrency/queue.c, and what each call does to it.
use cs.Prelude.{
  ◌+◌, ◌<◌, ◌≤◌, ◌≡◌, ◌≢◌, refl, Option, none, some, ◌==◌, Bool, true, false, ◌||◌, List, [], ◌∷◌,
  ◌++◌, length, length-append, arith, ◌∙◌, sym, subst, Bool-cases, inl, inr, ==_iff,
}
use mathlib.Core.Bool.{false≢true}
use cs.BlockingQueue.{Ptr, null, Node, Heap, Queue, write, node, push, push_waits}

-- the nodes of a list, each with its address
abbrev pub Cells : Type 0 → Type 0
Cells V = List (Ptr × V)

module _ {V : Type 0} where
  abbrev pub has : Ptr → Cells V → Bool
  has a [] = false
  has a ((p, v) ∷ xs) = (a == p) || has a xs

  abbrev pub first : Cells V → Ptr
  first [] = null
  first ((p, v) ∷ xs) = p

  abbrev pub last : Cells V → Ptr
  last [] = null
  last ((p, v) ∷ []) = p
  last ((p, v) ∷ c ∷ xs) = last (c ∷ xs)

  abbrev pub values : Cells V → List V
  values [] = []
  values ((p, v) ∷ xs) = v ∷ values xs

  -- Each node holds its value and the address of the next; the addresses are distinct.
  abbrev pub Linked : Heap V → Cells V → Type 0
  Linked h [] = Unit
  Linked h ((p, v) ∷ xs) =
      (p ≢ null) × (h p ≡ some (node v (first xs))) × (has p xs ≡ false) × Linked h xs

  -- The queue `q` stands for the cells `xs`, the oldest first.
  pub record IsQueue (q : Queue V) (xs : Cells V) : Type 0 where
    pub linked : Linked q.heap xs
    pub head : q.head ≡ first xs
    pub tail : q.tail ≡ last xs
    pub size : q.size ≡ length xs
    pub bounded : 0 < q.max_size → q.size ≤ q.max_size

  pub frame :
      (h : Heap V) (p : Ptr) (c : Option (Node V)) (xs : Cells V)
      → Linked h xs
      → has p xs ≡ false
      → Linked (write h p c) xs
  frame h p c [] l out = tt
  frame h p c ((a, v) ∷ xs) l out =
      (l.0, ground (arith, l.1), l.2, frame h p c xs l.3 (ground arith))

  not_has : (h : Heap V) (p : Ptr) (xs : Cells V) → Linked h xs → h p ≡ none → has p xs ≡ false
  not_has h p [] l e = refl
  not_has h p ((a, v) ∷ xs) l e = ground (arith, not_has h p xs l.3 e, l.1)

  has-snoc :
      (a p : Ptr) (v : V) (xs : Cells V) → has a (xs ++ ((p, v) ∷ [])) ≡ (has a xs || (a == p))
  has-snoc a p v [] = ground arith
  has-snoc a p v ((b, w) ∷ xs) = ground (arith, has-snoc a p v xs)

  last-snoc : (p : Ptr) (v : V) (xs : Cells V) → last (xs ++ ((p, v) ∷ [])) ≡ p
  last-snoc p v [] = refl
  last-snoc p v (c ∷ []) = refl
  last-snoc p v (c ∷ d ∷ xs) = last-snoc p v (d ∷ xs)

  has-last : (c : Ptr × V) (xs : Cells V) → has (last (c ∷ xs)) (c ∷ xs) ≡ true
  has-last c [] = ground arith
  has-last c (d ∷ xs) = ground (arith, has-last d xs)

  apart : (a b : Ptr) (xs : Cells V) → has a xs ≡ false → has b xs ≡ true → (a == b) ≡ false
  apart a b xs out inside = elim (Bool-cases (a == b)) [
    | inl same ↦
        absurd
          (false≢true (sym out ∙ subst (λ p. has p xs ≡ true) (sym ((==_iff a b).0 same)) inside))
    | inr other ↦ other
  ]

  -- the node that a nonempty list ends with
  last_value : (c : Ptr × V) (xs : Cells V) → V
  last_value c [] = c.1
  last_value c (d ∷ xs) = last_value d xs

  last_holds :
      (h : Heap V) (c : Ptr × V) (xs : Cells V)
      → Linked h (c ∷ xs)
      → h (last (c ∷ xs)) ≡ some (node (last_value c xs) null)
  unfolding last_value
  last_holds h c [] l = l.1
  last_holds h c (d ∷ xs) l = last_holds h d xs l.3

  -- A list stays linked when its last node is pointed at a new one.
  Linked-snoc :
      (h : Heap V) (fresh : Ptr) (v : V) (c : Ptr × V) (xs : Cells V)
      → Linked h (c ∷ xs)
      → h fresh ≡ some (node v null)
      → fresh ≢ null
      → has fresh (c ∷ xs) ≡ false
      → Linked
          (write h (last (c ∷ xs)) (some (node (last_value c xs) fresh)))
          ((c ∷ xs) ++ ((fresh, v) ∷ []))
  unfolding last_value
  Linked-snoc h fresh v c [] l new ne out =
      (l.0, ground arith, ground arith, (ne, ground arith, refl, tt))
  Linked-snoc h fresh v c (d ∷ xs) l new ne out = (
    l.0,
    rw (apart c.0 (last (d ∷ xs)) (d ∷ xs) l.2 (has-last d xs)) l.1,
    ground (arith, has-snoc c.0 fresh v (d ∷ xs)),
    Linked-snoc h fresh v d xs l.3 new ne (ground arith),
  )

  pub push_first :
      {q : Queue V} (fresh : Ptr) (v : V)
      → IsQueue q []
      → fresh ≢ null
      → push_waits q ≡ false
      → (r : Queue V) × (push q fresh v ≡ some r) × IsQueue r ((fresh, v) ∷ [])
  unfolding push
  push_first {q} fresh v is ne ready = (
    record q {
      heap = write q.heap fresh (some (node v null));
      head = fresh;
      tail = fresh;
      size = q.size + 1;
    },
    ground (arith, is.size),
    record {
      linked = (ne, ground arith, refl, tt);
      head = refl;
      tail = refl;
      size = omega (arith, is.size);
      bounded = λ pos. ground arith;
    },
  )

  pub push_more :
      {q : Queue V} (c : Ptr × V) (xs : Cells V) (fresh : Ptr) (v : V)
      → IsQueue q (c ∷ xs)
      → fresh ≢ null
      → q.heap fresh ≡ none
      → push_waits q ≡ false
      → (r : Queue V) × (push q fresh v ≡ some r) × IsQueue r ((c ∷ xs) ++ ((fresh, v) ∷ []))
  unfolding push
  push_more {q} c xs fresh v is ne unused ready =
      let h = write q.heap fresh (some (node v null)) in
      let out = not_has q.heap fresh (c ∷ xs) is.linked unused in
      let l = frame q.heap fresh (some (node v null)) (c ∷ xs) is.linked out in
      let test : (q.size == 0) ≡ false = ground (arith, is.size) in
      let ends : h q.tail ≡ some (node (last_value c xs) null) =
        subst (λ p. h p ≡ some (node (last_value c xs) null)) (sym is.tail) (last_holds h c xs l) in
      (
        record q {
          heap = write h q.tail (some (node (last_value c xs) fresh));
          tail = fresh;
          size = q.size + 1;
        },
        rw (ready, test, ends),
        record {
          linked =
              subst
                (λ p.
                  Linked (write h p (some (node (last_value c xs) fresh)))
                    ((c ∷ xs) ++ ((fresh, v) ∷ [])))
                (sym is.tail) (Linked-snoc h fresh v c xs l (ground arith) ne out);
          head = is.head;
          tail = sym (last-snoc fresh v (c ∷ xs));
          size = omega (arith, is.size, length-append (c ∷ xs) ((fresh, v) ∷ []));
          bounded = λ pos. ground (arith, is.bounded);
        },
      )
