-- ===== src/Deadlock/Invariant.antt =====
-- What holds in every state that the calls of deadlock_demolition/libdrm.c lead to.
pub mod Waiting
pub mod Owning
pub mod Releasing
pub mod Reached
use cs.Prelude.{
  ℕ, ◌≡◌, ◌≢◌, refl, Option, none, some, Bool, true, false, ◌==◌, if◌then◌else◌, List, [], ◌∷◌,
  arith, ap, sym, ◌∙◌, inl, inr, Bool-cases,
}
use cs.Prelude.Paths.{HasCycle, HasCycle-more}
use cs.Deadlock.{member, GraphLibrary, SetLibrary}
use cs.Deadlock.Search.{Edge}
use cs.Deadlock.Threads.{Phase, running, blocked, locked, update, System}

-- the mutex that a thread waits for, as the neighbors of the thread
abbrev pub wanted : Phase → List ℕ
wanted running = []
wanted (blocked d) = d ∷ []
wanted (locked d) = d ∷ []

pub same_key : (a b : ℕ) → (a == b) ≡ true → a ≡ b
same_key a b h = ground arith

pub other_key :
    (is_mutex : ℕ → Bool) (a b : ℕ) → is_mutex a ≡ true → is_mutex b ≡ false → (a == b) ≡ false
other_key is_mutex a b h k = elim (Bool-cases (a == b)) [
  | inl same ↦ let e = ap is_mutex (same_key a b same) in cc
  | inr other ↦ other
]

pub update_here {ℓ} :
    {A : Type ℓ} (f : ℕ → A) (k : ℕ) (v : A) (j : ℕ) → (k == j) ≡ true → update f k v j ≡ v
update_here f k v j h = ap (λ b. if b then v else f j) h

pub update_other {ℓ} :
    {A : Type ℓ} (f : ℕ → A) (k : ℕ) (v : A) (j : ℕ) → (k == j) ≡ false → update f k v j ≡ f j
update_other f k v j h = ap (λ b. if b then v else f j) h

module _ (lib : GraphLibrary) (sets : SetLibrary) (is_mutex : ℕ → Bool) where
  open lib use {Graph, vertices, neighbors}

  -- How a mutex stands: free, locked by a thread whose edge is still missing, or locked with its edge.
  pub data Held (s : System lib sets is_mutex) (d : ℕ) : Type 0 where
    free : neighbors s.rag d ≡ [] → s.holder d ≡ none → Held s d
    taken : (t : ℕ) → neighbors s.rag d ≡ [] → s.holder d ≡ some t → s.phase t ≡ locked d → Held s d
    owned :
        (t : ℕ)
        → is_mutex t ≡ false
        → neighbors s.rag d ≡ t ∷ []
        → s.holder d ≡ some t
        → s.phase t ≢ locked d
        → Held s d

  -- The keys of a thread that waits, and of the mutex, are vertices.
  pub record IsWait (s : System lib sets is_mutex) (t d : ℕ) : Type 0 where
    pub thread : is_mutex t ≡ false
    pub mutex : is_mutex d ≡ true
    pub thread_in : member (vertices s.rag) t ≡ true
    pub mutex_in : member (vertices s.rag) d ≡ true

  pub record Inv (s : System lib sets is_mutex) : Type 0 where
    pub thread_out : (t : ℕ) → is_mutex t ≡ false → neighbors s.rag t ≡ wanted (s.phase t)
    pub mutex_out : (d : ℕ) → is_mutex d ≡ true → Held s d
    pub in_lock : (t d : ℕ) → s.phase t ≡ locked d → s.holder d ≡ some t
    pub known : (t d : ℕ) → wanted (s.phase t) ≡ d ∷ [] → IsWait s t d
    pub acyclic : (k : ℕ) → HasCycle (Edge lib sets s.rag) k → ⊥

  -- A graph with the same edges and no fewer vertices.
  pub Inv-same :
      (s : System lib sets is_mutex) (g : Graph)
      → ((j : ℕ) → neighbors g j ≡ neighbors s.rag j)
      → ((j : ℕ) → member (vertices s.rag) j ≡ true → member (vertices g) j ≡ true)
      → Inv s
      → Inv (record s { rag = g })
  Inv-same s g same more i = record {
    thread_out = λ t h. same t ∙ i.thread_out t h;
    mutex_out = λ d h. elim (i.mutex_out d h) [
      | free e f ↦ free (same d ∙ e) f
      | taken t e f p ↦ taken t (same d ∙ e) f p
      | owned t k e f p ↦ owned t k (same d ∙ e) f p
    ];
    in_lock = i.in_lock;
    known = λ t d w.
        let k = i.known t d w in
        record {
          thread = k.thread;
          mutex = k.mutex;
          thread_in = more t k.thread_in;
          mutex_in = more d k.mutex_in;
        };
    acyclic = λ k c. i.acyclic k (
        HasCycle-more (Edge lib sets s.rag) (Edge lib sets g)
          (λ s' u e. ap (λ l. member l u) (sym (same s')) ∙ e) c);
  }
