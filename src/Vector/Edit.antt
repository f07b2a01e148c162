-- ===== src/Vector/Edit.antt =====
-- The editing operations of vector/vector.c on a valid vector, position by position.
use cs.Prelude.{
  ℕ, ◌+◌, ◌-◌, ◌^◌, ◌≤◌, ◌<◌, ◌≡◌, ◌≢◌, none, some, ◌∷◌, arith, ◌==◌, get_or, set, take,
  if◌then◌else◌, length-set, get_or-set, false,
}
use cs.Vector.{Vector, cell, get, push_back, pop_back, clear, destroy_cell}
use mathlib.Core.List.{reverse_aux}
use cs.Vector.Cells.{cells_from, cells_from_lem}
use cs.Vector.Valid.{IsValid, SameCallbacks, Grown, resize_grows, resize_shrinks}

module _ {E : Type 0} where
  -- `w` is `v` with the copy of `e` put in at position `p`: what stood from `p` on is one further
  -- up, and the one destructor call is on the default element that the growth made.
  pub record Inserted (v : Vector E) (p : ℕ) (e : E) (w : Vector E) : Type 0 where
    pub valid : IsValid w
    pub callbacks : SameCallbacks v w
    pub size : w.size ≡ v.size + 1
    pub before : (i : ℕ) → i < p → cell w i ≡ cell v i
    pub new : cell w p ≡ some (v.copy_constructor e)
    pub after : (i : ℕ) → p ≤ i → i < v.size → cell w (i + 1) ≡ cell v i
    pub destroyed : w.destroyed ≡ some v.default_constructor ∷ v.destroyed

  pub get_lem : (v : Vector E) (i : ℕ) → i < v.size → get v i ≡ some (cell v i)
  unfolding get
  get_lem v i h = ground arith

  pub get-last : (w : Vector E) (n : ℕ) → w.size ≡ n + 1 → get w (w.size - 1) ≡ some (cell w n)
  unfolding get
  get-last w n e = ground arith

  push_Inserted :
      (v w : Vector E) (e : E)
      → IsValid v
      → Grown v (v.size + 1) w
      → Inserted v v.size e (record (destroy_cell w (cell w v.size)) {
        array = set w.array (w.size - 1) (some (v.copy_constructor e));
      })
  push_Inserted v w e h g = record {
    valid = record {
      fits = g.valid.fits;
      storage =
          omega
            (arith, length-set w.array (w.size - 1) (some (v.copy_constructor e)), g.valid.storage);
      small = g.valid.small;
      written = λ i l. ground (arith, put i, g.valid.written i);
    };
    callbacks = record { copy = g.callbacks.copy; default = g.callbacks.default };
    size = g.size;
    before = λ i l. ground (arith, put i, g.kept i, g.size);
    new = ground (arith, put v.size, g.size);
    after = λ i l k. absurd (omega arith);
    destroyed = ground (arith, g.destroyed, g.added v.size);
  }
    where
      put :
          (i : ℕ)
          → get_or (set w.array (w.size - 1) (some (v.copy_constructor e))) i none
            ≡ (if (w.size - 1) == i then some (v.copy_constructor e) else cell w i)
      put i =
          get_or-set w.array (w.size - 1) i (some (v.copy_constructor e)) none
            (omega (arith, g.valid.fits, g.valid.storage, g.size))

  -- On a valid vector of fewer than 2 ^ 60 elements `vector_push_back` succeeds and leaves a valid
  -- vector that holds the old elements and behind them the copy of the new one; the destructor is
  -- called on the default element made in between and on nothing else.
  pub push_back_lem :
      (v : Vector E) (e : E)
      → IsValid v
      → v.size < 2 ^ 60
      → (w : Vector E) × (push_back v e ≡ some w) × Inserted v v.size e w
  unfolding push_back
  push_back_lem v e h small =
      let (w, r, g) = resize_grows v (v.size + 1) h (omega arith) (omega arith) in
      (
        record (destroy_cell w (cell w v.size)) {
          array = set w.array (w.size - 1) (some (v.copy_constructor e));
        },
        rw (r, get-last w v.size g.size),
        push_Inserted v w e h g,
      )

  -- On a valid vector with an element `vector_pop_back` drops the last one and calls the destructor
  -- on it alone.
  pub pop_back_lem :
      (v : Vector E)
      → IsValid v
      → v.size ≢ 0
      → let w = record v { size = v.size - 1; destroyed = cell v (v.size - 1) ∷ v.destroyed } in
        (pop_back v ≡ some w) × IsValid w
  unfolding pop_back cells_from
  pop_back_lem v h ne =
      let one : v.size - (v.size - 1) ≡ 1 = omega arith in
      let test : (v.size == 0) ≡ false = ground arith in
      let (r, k) = resize_shrinks v (v.size - 1) h (omega arith) in
      (rw (test, r) (rw one), rw one at k)

  -- `vector_clear` on a valid vector calls the destructor once on each element, in order, and leaves
  -- it valid and empty in the same storage.
  pub clear_lem :
      (v : Vector E)
      → IsValid v
      → let w = record v { size = 0; destroyed = reverse_aux (take v.size v.array) v.destroyed } in
        (clear v ≡ some w) × IsValid w
  unfolding clear
  clear_lem v h =
      let all : v.size - 0 ≡ v.size = omega arith in
      let log = cells_from_lem v.size 0 v v.destroyed (omega (arith, h.fits, h.storage)) in
      rw (← log) (rw all at (resize_shrinks v 0 h (omega arith)))
