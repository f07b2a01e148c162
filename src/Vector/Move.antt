-- ===== src/Vector/Move.antt =====
-- `vector_insert` and `vector_erase` of vector/vector.c, whose loops move the elements behind.
use cs.Prelude.{
  ℕ, ◌+◌, ◌-◌, ◌^◌, ◌≤◌, ◌<◌, ◌≡◌, ◌≢◌, Option, none, some, ◌∷◌, arith, ltb, leb, ◌==◌, length,
  get_or, set, if◌then◌else◌, ◌&&◌, length-set, get_or-set, lt→ltb, le→leb, ◌∙◌, ap,
}
use cs.Vector.{
  Vector, cell, resize, insert, erase, shift_up, shift_down, destroy_cell, destroy_from,
}
use cs.Vector.Cells.{get_or-shift_up, length-shift_up, get_or-shift_down, length-shift_down}
use cs.Vector.Valid.{IsValid, Grown, resize_grows}
use cs.Vector.Edit.{Inserted, get-last}

module _ {E : Type 0} where
  insert_Inserted :
      (v w : Vector E) (p : ℕ) (e : E)
      → IsValid v
      → p ≤ v.size
      → Grown v (v.size + 1) w
      → Inserted v p e (record (destroy_cell w (cell w v.size)) {
        array =
            set (shift_up (w.size - 1 - p) (w.size - 1) w.array) p (some (v.copy_constructor e));
      })
  insert_Inserted v w p e h le g = record {
    valid = record {
      fits = g.valid.fits;
      storage =
          length-set (shift_up (w.size - 1 - p) (w.size - 1) w.array) p
            (some (v.copy_constructor e))
          ∙ length-shift_up (w.size - 1 - p) (w.size - 1) w.array
          ∙ g.valid.storage;
      small = g.valid.small;
      written =
          λ i l. ground (arith, put i, moved i, g.valid.written i, g.valid.written (i - 1), g.size);
    };
    callbacks = record { copy = g.callbacks.copy; default = g.callbacks.default };
    size = g.size;
    before = λ i l. ground (arith, put i, moved i, g.kept i, g.size);
    new = ground (arith, put p);
    after = λ i l k. ground (arith, put (i + 1), moved (i + 1), g.kept i, g.size);
    destroyed = ground (arith, g.destroyed, g.added v.size);
  }
    where
      in_storage : v.size < length w.array
      in_storage = omega (arith, g.valid.fits, g.valid.storage, g.size)

      moved :
          (i : ℕ)
          → get_or (shift_up (w.size - 1 - p) (w.size - 1) w.array) i none ≡ (
              if ltb (w.size - 1 - (w.size - 1 - p)) i && leb i (w.size - 1)
              then cell w (i - 1)
              else cell w i)
      moved i =
          get_or-shift_up (w.size - 1 - p) (w.size - 1) i w.array (omega arith)
            (omega (arith, in_storage, g.size))

      put :
          (i : ℕ)
          → get_or
              (set (shift_up (w.size - 1 - p) (w.size - 1) w.array) p (some (v.copy_constructor e)))
              i
              none
            ≡ (if p == i
                then some (v.copy_constructor e)
                else get_or (shift_up (w.size - 1 - p) (w.size - 1) w.array) i none)
      put i =
          get_or-set (shift_up (w.size - 1 - p) (w.size - 1) w.array) p i
            (some (v.copy_constructor e)) none
            (omega (arith, in_storage, length-shift_up (w.size - 1 - p) (w.size - 1) w.array))

  -- On a valid vector of fewer than 2 ^ 60 elements `vector_insert` at a position of at most the size
  -- succeeds: the elements before it stay, the copy of the new one stands there, those from it on
  -- stand one further up, and the destructor is called on the default element made in between alone.
  pub insert_lem :
      (v : Vector E) (p : ℕ) (e : E)
      → IsValid v
      → v.size < 2 ^ 60
      → p ≤ v.size
      → (w : Vector E) × (insert v p e ≡ some w) × Inserted v p e w
  unfolding insert
  insert_lem v p e h small le =
      let (w, r, g) = resize_grows v (v.size + 1) h (omega arith) (omega arith) in
      (
        record (destroy_cell w (cell w v.size)) {
          array =
              set (shift_up (w.size - 1 - p) (w.size - 1) w.array) p (some (v.copy_constructor e));
        },
        rw (le→leb p v.size le, r, get-last w v.size g.size),
        insert_Inserted v w p e h le g,
      )

  -- `w` is `v` without the element at position `p`: what stood behind it is one position down. The
  -- second destructor call is on the cell behind the last element, which is none of the elements.
  pub record Erased (v : Vector E) (p : ℕ) (w : Vector E) : Type 0 where
    pub valid : IsValid w
    pub size : w.size + 1 ≡ v.size
    pub before : (i : ℕ) → i < p → cell w i ≡ cell v i
    pub after : (i : ℕ) → p ≤ i → i + 1 < v.size → cell w i ≡ cell v (i + 1)
    pub destroyed : w.destroyed ≡ cell v v.size ∷ cell v p ∷ v.destroyed

  abbrev shifted : Vector E → ℕ → Vector E
  shifted v p = record (destroy_cell v (cell v p)) { array = shift_down (v.size - p) p v.array }

  erase_Erased :
      (v : Vector E) (p : ℕ)
      → IsValid v
      → p < v.size
      → v.size < v.capacity
      → Erased v p (record (shifted v p) {
        size = v.size - 1;
        destroyed = cell (shifted v p) (v.size - 1) ∷ cell v p ∷ v.destroyed;
      })
  erase_Erased v p h lt room = record {
    valid = record {
      fits = omega arith;
      storage = length-shift_down (v.size - p) p v.array ∙ h.storage;
      small = h.small;
      written = λ i l. ground (arith, moved i, h.written i, h.written (i + 1));
    };
    size = omega arith;
    before = λ i l. ground (arith, moved i);
    after = λ i l k. ground (arith, moved i);
    destroyed =
        ap (λ (c : Option E). c ∷ cell v p ∷ v.destroyed) (ground (arith, moved (v.size - 1)));
  }
    where
      moved :
          (i : ℕ)
          → get_or (shift_down (v.size - p) p v.array) i none
            ≡ (if leb p i && ltb i (p + (v.size - p)) then cell v (i + 1) else cell v i)
      moved i = get_or-shift_down (v.size - p) p i v.array (omega (arith, h.storage))

  resize_one :
      (w : Vector E)
      → w.size ≢ 0
      → resize w (w.size - 1)
        ≡ some (record w { size = w.size - 1; destroyed = cell w (w.size - 1) ∷ w.destroyed })
  unfolding resize destroy_from
  resize_one w ne =
      let one : w.size - (w.size - 1) ≡ 1 = omega arith in
      rw (le→leb (w.size - 1) w.size (omega arith), one)

  erase_room :
      (v : Vector E) (p : ℕ)
      → IsValid v
      → p < v.size
      → v.size < v.capacity
      → erase v p
        ≡ some (record (shifted v p) {
          size = v.size - 1;
          destroyed = cell (shifted v p) (v.size - 1) ∷ cell v p ∷ v.destroyed;
        })
  unfolding erase
  erase_room v p h lt room =
      rw (lt→ltb p v.size lt, lt→ltb v.size (length v.array) (omega (arith, h.storage)))
        (resize_one (shifted v p) (omega arith))

  -- On a valid vector whose storage is not full `vector_erase` of an existing position removes that
  -- element and keeps the others in order. It calls the destructor on the element, and a second time
  -- on the cell behind the last element.
  pub erase_lem :
      (v : Vector E) (p : ℕ)
      → IsValid v
      → p < v.size
      → v.size < v.capacity
      → (w : Vector E) × (erase v p ≡ some w) × Erased v p w
  erase_lem v p h lt room = (_, erase_room v p h lt room, erase_Erased v p h lt room)

  -- On a valid vector whose storage is full `vector_erase` reads past the storage.
  pub erase_full :
      (v : Vector E) (p : ℕ) → IsValid v → p < v.size → v.size ≡ v.capacity → erase v p ≡ none
  unfolding erase
  erase_full v p h lt full = ground (arith, h.storage)
