-- ===== src/Vector/Cells.antt =====
-- What the loops of vector/vector.c do to the cells, position by position.
use cs.Prelude.{
  ℕ, zero, suc, ◌+◌, ◌-◌, ◌≤◌, ◌<◌, ◌≡◌, refl, Option, none, some, List, ◌∷◌, arith, ltb, leb, ◌&&◌,
  if◌then◌else◌, length, get_or, set, take, drop, drop-cons, sym, ap, length-set, get_or-set, ◌∙◌,
}
use mathlib.Core.List.{reverse_aux}
use cs.Vector.{Vector, cell, destroy_cell, destroy_from, fill_from, shift_up, shift_down}

module _ {E : Type 0} where
  -- The loop over `array[i] = default_constructor()` writes exactly the positions `[i, i + n)`.
  pub get_or-fill_from :
      (n i j : ℕ) (v : Vector E)
      → i + n ≤ length v.array
      → cell (fill_from n i v) j
        ≡ (if leb i j && ltb j (i + n) then some v.default_constructor else cell v j)
  unfolding fill_from
  get_or-fill_from zero i j v h = ground arith
  get_or-fill_from (suc n) i j v h = ground (
    arith,
    get_or-fill_from n (i + 1) j (record v { array = set v.array i (some v.default_constructor) }),
    length-set v.array i (some v.default_constructor),
    get_or-set v.array i j (some v.default_constructor) none,
  )

  pub length-fill_from : (n i : ℕ) (v : Vector E) → length (fill_from n i v).array ≡ length v.array
  unfolding fill_from
  length-fill_from zero i v = refl
  length-fill_from (suc n) i v =
      length-fill_from n (i + 1) (record v { array = set v.array i (some v.default_constructor) })
      ∙ length-set v.array i (some v.default_constructor)

  -- `fill_from` changes the array alone.
  pub fill_from_frame :
      (n i : ℕ) (v : Vector E) → fill_from n i v ≡ record v { array = (fill_from n i v).array }
  unfolding fill_from
  fill_from_frame zero i v = refl
  fill_from_frame (suc n) i v = ground (
    arith,
    fill_from_frame n (i + 1) (record v { array = set v.array i (some v.default_constructor) }),
  )

  -- `array[i ..]` of `n` cells, the last one first: what `n` destructor calls from `i` add
  unfoldable pub cells_from : ℕ → ℕ → Vector E → List (Option E) → List (Option E)
  cells_from zero i v log = log
  cells_from (suc n) i v log = cells_from n (i + 1) v (cell v i ∷ log)

  cells_from-frame :
      (n i : ℕ) (v : Vector E) (d log : List (Option E))
      → cells_from n i (record v { destroyed = d }) log ≡ cells_from n i v log
  unfolding cells_from
  cells_from-frame zero i v d log = refl
  cells_from-frame (suc n) i v d log = cells_from-frame n (i + 1) v d (cell v i ∷ log)

  pub destroy_from_lem :
      (n i : ℕ) (v : Vector E)
      → destroy_from n i v ≡ record v { destroyed = cells_from n i v v.destroyed }
  unfolding destroy_from cells_from
  destroy_from_lem zero i v = refl
  destroy_from_lem (suc n) i v = ground (
    arith,
    destroy_from_lem n (i + 1) (destroy_cell v (cell v i)),
    cells_from-frame n (i + 1) v (cell v i ∷ v.destroyed) (cell v i ∷ v.destroyed),
  )

  pub length-shift_up : (n i : ℕ) (a : List (Option E)) → length (shift_up n i a) ≡ length a
  unfolding shift_up
  length-shift_up zero i a = refl
  length-shift_up (suc n) i a =
      length-shift_up n (i - 1) (set a i (get_or a (i - 1) none))
      ∙ length-set a i (get_or a (i - 1) none)

  -- Shifting up moves the `n` cells below `i` one position up, and touches no other cell.
  pub get_or-shift_up :
      (n i j : ℕ) (a : List (Option E))
      → n ≤ i
      → i < length a
      → get_or (shift_up n i a) j none
        ≡ (if ltb (i - n) j && leb j i then get_or a (j - 1) none else get_or a j none)
  unfolding shift_up
  get_or-shift_up zero i j a h g = ground arith
  get_or-shift_up (suc n) i j a h g = ground (
    arith,
    get_or-shift_up n (i - 1) j (set a i (get_or a (i - 1) none)),
    length-set a i (get_or a (i - 1) none),
    get_or-set a i j (get_or a (i - 1) none) none,
    get_or-set a i (j - 1) (get_or a (i - 1) none) none,
  )

  pub length-shift_down : (n i : ℕ) (a : List (Option E)) → length (shift_down n i a) ≡ length a
  unfolding shift_down
  length-shift_down zero i a = refl
  length-shift_down (suc n) i a =
      length-shift_down n (i + 1) (set a i (get_or a (i + 1) none))
      ∙ length-set a i (get_or a (i + 1) none)

  -- Shifting down moves `n` cells from above `i` one position down, and touches no other cell.
  pub get_or-shift_down :
      (n i j : ℕ) (a : List (Option E))
      → i + n ≤ length a
      → get_or (shift_down n i a) j none
        ≡ (if leb i j && ltb j (i + n) then get_or a (j + 1) none else get_or a j none)
  unfolding shift_down
  get_or-shift_down zero i j a h = ground arith
  get_or-shift_down (suc n) i j a h = ground (
    arith,
    get_or-shift_down n (i + 1) j (set a i (get_or a (i + 1) none)),
    length-set a i (get_or a (i + 1) none),
    get_or-set a i j (get_or a (i + 1) none) none,
    get_or-set a i (j + 1) (get_or a (i + 1) none) none,
  )

  -- The log of a run of destructor calls is that stretch of the array, the last cell first.
  pub cells_from_lem :
      (n i : ℕ) (v : Vector E) (log : List (Option E))
      → i + n ≤ length v.array
      → cells_from n i v log ≡ reverse_aux (take n (drop i v.array)) log
  unfolding cells_from
  cells_from_lem zero i v log h = refl
  cells_from_lem (suc n) i v log h =
      cells_from_lem n (i + 1) v (cell v i ∷ log) (omega arith)
      ∙ ap (λ (xs : List (Option E)). reverse_aux (take (suc n) xs) log)
          (sym (drop-cons v.array i none (omega arith)))
