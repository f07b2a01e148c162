-- ===== src/Vector/Valid.antt =====
-- The representation invariant of `struct vector`, and `vector_reserve` and `vector_resize` under it.
use cs.Prelude.{
  ℕ, ◌+◌, ◌-◌, ◌*◌, ◌/◌, ◌%◌, ◌^◌, ◌==◌, ◌≤◌, ◌<◌, ◌≡◌, refl, Option, none, some, ◌++◌, arith, ltb,
  leb, length, replicate, length-append, length-replicate, get_or-append_replicate, is_some,
  if◌then◌else◌, ◌&&◌, Bool-cases, true, false, leb→le, le→leb, inl, inr,
}
use cs.Vector.{Vector, cell, create, reserve, resize, fill_from}
use cs.Vector.Capacity.{get_new_capacity_lem, pow2_sixty}
use cs.Vector.Cells.{
  get_or-fill_from, length-fill_from, fill_from_frame, cells_from, destroy_from_lem,
}

-- `size` elements in a storage of `capacity` cells, each one of the `size` written.
pub record IsValid {E : Type 0} (v : Vector E) : Type 0 where
  pub fits : v.size ≤ v.capacity
  pub storage : length v.array ≡ v.capacity
  pub small : v.capacity ≤ 2 ^ 63
  pub written : (i : ℕ) → i < v.size → is_some (cell v i) ≡ true

-- `w` has the callbacks of `v`.
pub record SameCallbacks {E : Type 0} (v w : Vector E) : Type 0 where
  pub copy : w.copy_constructor ≡ v.copy_constructor
  pub default : w.default_constructor ≡ v.default_constructor

-- `w` is `v` in a storage of at least `n` cells.
pub record Reserved {E : Type 0} (v : Vector E) (n : ℕ) (w : Vector E) : Type 0 where
  pub valid : IsValid w
  pub callbacks : SameCallbacks v w
  pub room : n ≤ w.capacity
  pub grows : v.capacity ≤ w.capacity
  pub size : w.size ≡ v.size
  pub cells : (i : ℕ) → cell w i ≡ cell v i
  pub destroyed : w.destroyed ≡ v.destroyed

-- `w` is `v` with default elements behind its own, up to the size `n`.
pub record Grown {E : Type 0} (v : Vector E) (n : ℕ) (w : Vector E) : Type 0 where
  pub valid : IsValid w
  pub callbacks : SameCallbacks v w
  pub size : w.size ≡ n
  pub kept : (i : ℕ) → i < v.size → cell w i ≡ cell v i
  pub added : (i : ℕ) → v.size ≤ i → i < n → cell w i ≡ some v.default_constructor
  pub destroyed : w.destroyed ≡ v.destroyed

module _ {E : Type 0} where
  -- `vector_create` makes a valid empty vector, whatever callbacks it is given or left to default.
  pub create-IsValid :
      (c : E → E) (d : E) (copy : Option (E → E)) (default : Option E)
      → IsValid (create c d copy default) × ((create c d copy default).size ≡ 0)
  unfolding create
  create-IsValid c d copy default = (
    record { fits = omega arith; storage = refl; small = omega arith; written = λ i h. elim h [ ] },
    refl,
  )

  reserve_grows :
      (v : Vector E) (n c : ℕ)
      → IsValid v
      → v.capacity < n
      → n ≤ c
      → c ≤ 2 ^ 63
      → Reserved v n (record v { array = v.array ++ replicate (c - v.capacity) none; capacity = c })
  reserve_grows v n c h more enough small = record {
    valid = record {
      fits = omega arith;
      storage = omega (
        arith,
        length-append v.array (replicate (c - v.capacity) none),
        length-replicate {0} {A = Option E} (c - v.capacity) none,
      );
      small = small;
      written = λ i g.
          ground (arith, get_or-append_replicate v.array (c - v.capacity) i none, h.written i);
    };
    callbacks = record { copy = refl; default = refl };
    room = enough;
    grows = omega arith;
    size = refl;
    cells = λ i. get_or-append_replicate v.array (c - v.capacity) i none;
    destroyed = refl;
  }

  -- For a request of at most 2 ^ 60 cells `vector_reserve` returns a valid vector with room for them,
  -- the same elements, size and callbacks, and without a destructor call; it never shrinks.
  pub reserve_lem :
      (v : Vector E) (n : ℕ)
      → IsValid v
      → n ≤ 2 ^ 60
      → (w : Vector E) × (reserve v n ≡ some w) × Reserved v n w
  unfolding reserve
  reserve_lem v n h small = elim (Bool-cases (leb n v.capacity)) [
    | inl fits ↦ (
      v,
      rw fits,
      record {
        valid = h;
        callbacks = record { copy = refl; default = refl };
        room = leb→le n v.capacity fits;
        grows = omega arith;
        size = refl;
        cells = λ i. refl;
        destroyed = refl;
      },
    )
    | inr more ↦
        let (c, e, least) = get_new_capacity_lem n (omega (arith, small)) in
        let fits : c ≤ 2 ^ 60 =
          omega (arith, pow2_sixty, least.least 60 (omega (arith, pow2_sixty, small))) in
        let above : v.capacity < n = ground arith in
        let bytes : c * 8 % 2 ^ 64 ≡ c * 8 = omega (arith, fits) in
        let some_bytes : (c * 8 == 0) ≡ false = ground (arith, above, least.enough) in
        let cells : c * 8 / 8 ≡ c = omega arith in
        (
          record v { array = v.array ++ replicate (c - v.capacity) none; capacity = c },
          rw (more, e, bytes, some_bytes, cells),
          reserve_grows v n c h above least.enough (omega (arith, fits)),
        )
  ]

  -- Growing within the room: the default elements are written, nothing is destroyed.
  grow_cells :
      (v w : Vector E) (n : ℕ)
      → IsValid v
      → v.size < n
      → Reserved v n w
      → Grown v n (record (fill_from (n - v.size) v.size w) { size = n })
  grow_cells v w n h more r = rw (fill_from_frame (n - v.size) v.size w) record {
    valid = record {
      fits = r.room;
      storage = omega (arith, length-fill_from (n - v.size) v.size w, r.valid.storage);
      small = r.valid.small;
      written = λ i g. ground (arith, filled i, h.written i, r.cells i);
    };
    callbacks = record { copy = r.callbacks.copy; default = r.callbacks.default };
    size = refl;
    kept = λ i g. ground (arith, filled i, r.cells i);
    added = λ i g k. ground (arith, filled i, r.callbacks);
    destroyed = r.destroyed;
  }
    where
      filled :
          (i : ℕ)
          → cell (fill_from (n - v.size) v.size w) i ≡ (
              if leb v.size i && ltb i (v.size + (n - v.size))
              then some w.default_constructor
              else cell w i)
      filled i = get_or-fill_from (n - v.size) v.size i w (omega (arith, r.valid.storage, r.room))

  -- Growing a valid vector by `vector_resize` to a size of at most 2 ^ 60 keeps the elements, puts
  -- default elements behind them, calls no destructor, and leaves a valid vector.
  pub resize_grows :
      (v : Vector E) (n : ℕ)
      → IsValid v
      → v.size < n
      → n ≤ 2 ^ 60
      → (w : Vector E) × (resize v n ≡ some w) × Grown v n w
  unfolding resize
  resize_grows v n h more small =
      let (w, e, r) = reserve_lem v n h small in
      let test : leb n v.size ≡ false = ground arith in
      (
        record (fill_from (n - v.size) v.size w) { size = n },
        rw (test, e),
        grow_cells v w n h more r,
      )

  -- Shrinking a valid vector by `vector_resize` keeps the first `n` elements, calls the destructor
  -- once on each of the others, in their order, and leaves a valid vector.
  pub resize_shrinks :
      (v : Vector E) (n : ℕ)
      → IsValid v
      → n ≤ v.size
      → let w = record v { size = n; destroyed = cells_from (v.size - n) n v v.destroyed } in
        (resize v n ≡ some w) × IsValid w
  unfolding resize
  resize_shrinks v n h less = (
    rw (le→leb n v.size less, destroy_from_lem (v.size - n) n v),
    record {
      fits = omega arith;
      storage = h.storage;
      small = h.small;
      written = λ i g. h.written i (omega arith);
    },
  )
