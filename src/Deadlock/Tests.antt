-- ===== src/Deadlock/Tests.antt =====
-- A small graph and set for deadlock_demolition/libdrm.c, and a thread that asks for a mutex.
use cs.Prelude.{
  ℕ, ◌≡◌, refl, some, Bool, true, false, ◌||◌, ◌==◌, leb, if◌then◌else◌, List, [], ◌∷◌, ◌++◌, arith,
  ap, sym, ◌∙◌, ◌⊎◌, inl, inr, Bool-cases, ◌↔◌,
}
use cs.Prelude.Paths.{HasCycle}
use cs.Deadlock.{
  member, without, GraphLibrary, SetLibrary, drm_init, search_all, contains_cycle, asked, decide,
  wait_request,
}
use cs.Deadlock.Search.{Edge}
use cs.Deadlock.Threads.{System, start, Reach, first, next, accept, waiting}
use cs.Deadlock.Freedom.{Waits, Reach-no_deadlock, Reach-wait_request}

-- Edges lead from vertices to vertices.
record ListGraph : Type 0 where
  keys : List ℕ
  out : ℕ → List ℕ
  closed : (s t : ℕ) → member (out s) t ≡ true → member keys t ≡ true
  absent : (s : ℕ) → member keys s ≡ false → out s ≡ []

abbrev add_key : ListGraph → ℕ → ListGraph
add_key g k = record {
  keys = k ∷ g.keys;
  out = g.out;
  closed = λ s t e. later k g.keys t (g.closed s t e);
  absent = λ s e. g.absent s (earlier k g.keys s e);
}
  where
    later : (k : ℕ) (ks : List ℕ) (t : ℕ) → member ks t ≡ true → member (k ∷ ks) t ≡ true
    later k ks t e = ground arith

    earlier : (k : ℕ) (ks : List ℕ) (t : ℕ) → member (k ∷ ks) t ≡ false → member ks t ≡ false
    earlier k ks t e = ground arith

abbrev out_with : ListGraph → (s t : ℕ) → ℕ → List ℕ
out_with g s t k =
    let more = if member (g.out s) t then g.out s else g.out s ++ (t ∷ []) in
    if s == k then more else g.out k

member-snoc : (xs : List ℕ) (d t : ℕ) → member (xs ++ d ∷ []) t ≡ member xs t || (d == t)
member-snoc [] d t = ground arith
member-snoc (x ∷ xs) d t = ground (arith, member-snoc xs d t)

member-without : (xs : List ℕ) (d t : ℕ) → member (without xs d) t ≡ true → member xs t ≡ true
member-without [] d t h = h
member-without (x ∷ xs) d t h = ground (arith, member-without xs d t)

out_with-closed :
    (g : ListGraph) (s t : ℕ)
    → member g.keys t ≡ true
    → (k j : ℕ) → member (out_with g s t k) j ≡ true
    → member g.keys j ≡ true
out_with-closed g s t there k j e = elim (Bool-cases (t == j)) [
  | inl same ↦ let at : t ≡ j = ground arith in ap (member g.keys) (sym at) ∙ there
  | inr other ↦
      let last = member-snoc (g.out s) t j in
      let from_s = g.closed s j in let from_k = g.closed k j in ground arith
]

out_with-absent :
    (g : ListGraph) (s t : ℕ)
    → member g.keys s ≡ true
    → (k : ℕ) → member g.keys k ≡ false
    → out_with g s t k ≡ []
out_with-absent g s t there k gone = elim (Bool-cases (s == k)) [
  | inl same ↦ let at : s ≡ k = ground arith in let e = ap (member g.keys) at in absurd (cc)
  | inr other ↦
      ap (λ b. if b then (if member (g.out s) t then g.out s else g.out s ++ (t ∷ [])) else g.out k)
        other
      ∙ g.absent k gone
]

abbrev either_way : (b : Bool) → (b ≡ true) ⊎ (b ≡ false)
either_way true = inl refl
either_way false = inr refl

-- An edge is added between vertices only.
abbrev link_if :
    (g : ListGraph) (s t : ℕ)
    → (member g.keys s ≡ true) ⊎ (member g.keys s ≡ false)
    → (member g.keys t ≡ true) ⊎ (member g.keys t ≡ false)
    → ListGraph
link_if g s t (inl from) (inl to) = record {
  keys = g.keys;
  out = out_with g s t;
  closed = out_with-closed g s t to;
  absent = out_with-absent g s t from;
}
link_if g s t (inl from) (inr gone) = g
link_if g s t (inr gone) c = g

abbrev link : ListGraph → (s t : ℕ) → ListGraph
link g s t = link_if g s t (either_way (member g.keys s)) (either_way (member g.keys t))

keys-link_if :
    (g : ListGraph) (s t j : ℕ) (c : (member g.keys s ≡ true) ⊎ (member g.keys s ≡ false))
    (c' : (member g.keys t ≡ true) ⊎ (member g.keys t ≡ false))
    → member (link_if g s t c c').keys j ≡ member g.keys j
keys-link_if g s t j (inl from) (inl to) = refl
keys-link_if g s t j (inl from) (inr gone) = refl
keys-link_if g s t j (inr gone) c' = refl

out-link_if :
    (g : ListGraph) (s t j : ℕ) (c : (member g.keys s ≡ true) ⊎ (member g.keys s ≡ false))
    (c' : (member g.keys t ≡ true) ⊎ (member g.keys t ≡ false))
    → member g.keys s ≡ true
    → member g.keys t ≡ true
    → (link_if g s t c c').out j ≡ out_with g s t j
out-link_if g s t j (inl from) (inl to) h k = refl
out-link_if g s t j (inl from) (inr gone) h k = absurd (cc)
out-link_if g s t j (inr gone) c' h k = absurd (cc)

abbrev cut_out : ListGraph → (s t : ℕ) → ℕ → List ℕ
cut_out g s t k = if s == k then without (g.out s) t else g.out k

cut_out-closed :
    (g : ListGraph) (s t k j : ℕ) → member (cut_out g s t k) j ≡ true → member g.keys j ≡ true
cut_out-closed g s t k j e =
    let from_s = g.closed s j in
    let from_k = g.closed k j in let more = member-without (g.out s) t j in ground arith

cut_out-absent : (g : ListGraph) (s t k : ℕ) → member g.keys k ≡ false → cut_out g s t k ≡ []
cut_out-absent g s t k gone = elim (Bool-cases (s == k)) [
  | inl same ↦
      let at : s ≡ k = ground arith in
      ap (λ b. if b then without (g.out s) t else g.out k) same
      ∙ ap (λ l. without l t) (ap g.out at ∙ g.absent k gone)
  | inr other ↦ ap (λ b. if b then without (g.out s) t else g.out k) other ∙ g.absent k gone
]

abbrev cut : ListGraph → (s t : ℕ) → ListGraph
cut g s t = record {
  keys = g.keys;
  out = cut_out g s t;
  closed = cut_out-closed g s t;
  absent = cut_out-absent g s t;
}

abbrev list_graph : GraphLibrary
list_graph = record {
  Graph = ListGraph;
  create = record { keys = []; out = λ k. []; closed = λ s t e. e; absent = λ s e. refl };
  vertices = λ g. g.keys;
  neighbors = λ g k. g.out k;
  add_vertex = add_key;
  remove_vertex = λ g k. g;
  add_edge = link;
  remove_edge = cut;
  vertices-create = refl;
  neighbors-absent = λ g s e. g.absent s e;
  neighbors-contains = λ g s t e. g.closed s t e;
  vertices-add_vertex = λ g k j. refl;
  neighbors-add_vertex = λ g k j. refl;
  vertices-add_edge = λ g s t j from to.
      keys-link_if g s t j (either_way (member g.keys s)) (either_way (member g.keys t));
  neighbors-add_edge = λ g s t j from to.
      out-link_if g s t j (either_way (member g.keys s)) (either_way (member g.keys t)) from to;
  vertices-remove_edge = λ g s t j e. refl;
  neighbors-remove_edge = λ g s t j e. refl;
}

abbrev list_set : SetLibrary
list_set = record {
  Set = ℕ → Bool;
  set_create = λ k. false;
  set_contains = λ s k. s k;
  set_add = λ s k j. (k == j) || s j;
  contains-create = λ k. refl;
  contains-add = λ s k j. refl;
}

-- Addresses from 100 on are mutexes.
abbrev is_mutex : ℕ → Bool
is_mutex k = leb 100 k

abbrev one_mutex : System list_graph list_set is_mutex
one_mutex = start list_graph list_set is_mutex 100

one_mutex-Reach : Reach list_graph list_set is_mutex one_mutex
one_mutex-Reach = first 100 refl

one_mutex_in : member one_mutex.rag.keys 100 ≡ true
unfolding drm_init
one_mutex_in = refl

-- Thread 1 stops at mutex 100.
abbrev stopped : System list_graph list_set is_mutex
stopped =
    waiting list_graph list_set is_mutex one_mutex 100 1
      (asked list_graph list_set one_mutex.rag 100 1)

stopped-Reach : Reach list_graph list_set is_mutex stopped
unfolding drm_init wait_request contains_cycle search_all
stopped-Reach =
    next one_mutex-Reach (
      accept 100 1 (asked list_graph list_set one_mutex.rag 100 1) refl refl one_mutex_in refl refl)

Reach-no_deadlock_example : ¬ HasCycle (Waits list_graph list_set is_mutex stopped) 1
Reach-no_deadlock_example = Reach-no_deadlock list_graph list_set is_mutex stopped stopped-Reach 1

Reach-wait_request_example :
    (found : Bool) × (wait_request list_graph list_set one_mutex.rag 100 1
      ≡ some (decide list_graph list_set one_mutex.rag 100 1 found))
    × ((found ≡ true)
        ↔ HasCycle (Edge list_graph list_set (asked list_graph list_set one_mutex.rag 100 1)) 1)
Reach-wait_request_example =
    Reach-wait_request list_graph list_set is_mutex one_mutex 100 1 one_mutex-Reach refl
      one_mutex_in refl
