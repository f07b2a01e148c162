-- ===== src/Deadlock/Threads.antt =====
-- Threads that use the mutexes of deadlock_demolition/libdrm.c, each in its own calls.
use cs.Prelude.{ℕ, ◌≡◌, Option, none, some, Bool, true, false, ◌==◌, if◌then◌else◌}
use cs.Deadlock.{member, GraphLibrary, SetLibrary, drm_init, drm_post, wait_request, wait_update}

-- Where a thread is: outside of `drm_wait`, at the lock of the mutex, or behind it.
pub data Phase : Type 0 where
  running : Phase
  blocked locked : (drm : ℕ) → Phase

abbrev pub update {ℓ} : {A : Type ℓ} → (ℕ → A) → ℕ → A → ℕ → A
update f k v j = if k == j then v else f j

-- `is_mutex` tells the addresses of mutexes from those of thread ids.
module _ (lib : GraphLibrary) (sets : SetLibrary) (is_mutex : ℕ → Bool) where
  open lib use {Graph, vertices}

  -- The graph, which thread has locked each mutex, and the threads.
  pub record System : Type 0 where
    pub rag : Graph
    pub holder : ℕ → Option ℕ
    pub phase : ℕ → Phase

  -- behind the first `drm_init`
  abbrev pub start : (drm : ℕ) → System
  start drm = record { rag = drm_init lib sets none drm; holder = λ d. none; phase = λ t. running }

  abbrev pub waiting : System → (drm thread_id : ℕ) → Graph → System
  waiting s drm thread_id g = record s { rag = g; phase = update s.phase thread_id (blocked drm) }

  abbrev pub having : System → (drm thread_id : ℕ) → System
  having s drm thread_id = record s {
    holder = update s.holder drm (some thread_id);
    phase = update s.phase thread_id (locked drm);
  }

  abbrev pub updated : System → (drm thread_id : ℕ) → System
  updated s drm thread_id = record s {
    rag = wait_update lib sets s.rag drm thread_id;
    phase = update s.phase thread_id running;
  }

  abbrev pub released : System → (drm : ℕ) → Bool × Graph → System
  released s drm (ok, g) = record s {
    rag = g;
    holder = if ok then update s.holder drm none else s.holder;
  }

  -- A call, or a part of `drm_wait`, under the global mutex; and the lock of a mutex, which waits until it is free.
  pub data Step : System → System → Type 0 where
    init :
        {s : System} (d : ℕ)
        → is_mutex d ≡ true
        → Step s (record s { rag = drm_init lib sets (some s.rag) d })
    refuse :
        {s : System} (d t : ℕ) (g : Graph)
        → is_mutex d ≡ true
        → is_mutex t ≡ false
        → member (vertices s.rag) d ≡ true
        → s.phase t ≡ running
        → wait_request lib sets s.rag d t ≡ some (false, g)
        → Step s (record s { rag = g })
    accept :
        {s : System} (d t : ℕ) (g : Graph)
        → is_mutex d ≡ true
        → is_mutex t ≡ false
        → member (vertices s.rag) d ≡ true
        → s.phase t ≡ running
        → wait_request lib sets s.rag d t ≡ some (true, g)
        → Step s (waiting s d t g)
    lock :
        {s : System} (d t : ℕ) → s.phase t ≡ blocked d → s.holder d ≡ none → Step s (having s d t)
    own : {s : System} (d t : ℕ) → s.phase t ≡ locked d → Step s (updated s d t)
    post :
        {s : System} (d t : ℕ)
        → is_mutex d ≡ true
        → is_mutex t ≡ false
        → s.phase t ≡ running
        → Step s (released s d (drm_post lib sets s.rag d t))

  pub data Reach : System → Type 0 where
    first : (d : ℕ) → is_mutex d ≡ true → Reach (start d)
    next : {s s' : System} → Reach s → Step s s' → Reach s'
