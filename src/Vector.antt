-- ===== src/Vector.antt =====
-- vector/vector.c: the dynamic array of pointers, with its callbacks, its growth and its shifts.
-- The functions are sealed; the modules below prove what a client may know of them.
pub mod Capacity
pub mod Cells
pub mod Valid
pub mod Edit
pub mod Move
mod Tests
use cs.Prelude.{
  ℕ, zero, suc, ◌+◌, ◌-◌, ◌*◌, ◌/◌, ◌%◌, ◌^◌, Option, none, some, List, [], ◌∷◌, ◌++◌, ltb, leb,
  ◌==◌, if◌then◌else◌, length, get_or, set, replicate, ◌>>=◌, ◌>>◌, assert, not,
}

-- `size_t`
abbrev pub size_mod : ℕ
size_mod = 2 ^ 64

-- The rounds given to the doubling loop: from 1, sixty-three doublings reach 2 ^ 63, and one more
-- wraps to 0, from where the loop never ends (`none`).
abbrev pub doublings : ℕ
doublings = 64

-- The loop of `get_new_capacity`, from `c`.
pub double_until : ℕ → ℕ → ℕ → Option ℕ
double_until zero c target = none
double_until (suc k) c target =
    let rest = double_until k (c * 2 % size_mod) target in if ltb c target then rest else some c

pub get_new_capacity : ℕ → Option ℕ
get_new_capacity target = double_until doublings 1 target

-- `none` is a cell that was allocated and never written. A destructor is its effect: `destroyed`
-- lists the pointers that it was called on, the latest first. `malloc`, and `realloc` to
-- a size that is not 0, succeed.
pub record Vector (E : Type 0) : Type 0 where
  pub copy_constructor : E → E
  pub default_constructor : E
  pub array : List (Option E)
  pub size : ℕ
  pub capacity : ℕ
  pub destroyed : List (Option E)

-- A callback that the caller leaves `NULL` is replaced by the shallow one of callbacks.c.
abbrev pub or_shallow : {A : Type 0} → Option A → A → A
or_shallow none shallow = shallow
or_shallow (some f) shallow = f

module _ {E : Type 0} where
  unfoldable pub create : (E → E) → E → Option (E → E) → Option E → Vector E
  create shallow_copy shallow_default copy default = record {
    copy_constructor = or_shallow copy shallow_copy;
    default_constructor = or_shallow default shallow_default;
    array = replicate 8 none;
    size = 0;
    capacity = 8;
    destroyed = [];
  }

  -- `array[i]`; a read past the storage reads no element
  abbrev pub cell : Vector E → ℕ → Option E
  cell v i = get_or v.array i none

  -- `this->destructor(p)`
  abbrev pub destroy_cell : Vector E → Option E → Vector E
  destroy_cell v p = record v { destroyed = p ∷ v.destroyed }

  -- `vector_get`, with its assertion
  pub get : Vector E → ℕ → Option (Option E)
  get v position = assert (ltb position v.size) >> some (cell v position)

  -- The number of bytes for `realloc` wraps: for a capacity from 2 ^ 61 on, a power of two, it is 0, and
  -- the assertion on what `realloc` returns for it fails.
  pub reserve : Vector E → ℕ → Option (Vector E)
  reserve v n = if leb n v.capacity then some v else do
    new_capacity ← get_new_capacity n
    let bytes = new_capacity * 8 % size_mod
    assert (not (bytes == 0))
    some (record v {
      array = v.array ++ replicate (bytes / 8 - v.capacity) none;
      capacity = new_capacity;
    })

  -- the first loop of `vector_resize`: `count` rounds from `i`
  pub destroy_from : ℕ → ℕ → Vector E → Vector E
  destroy_from zero i v = v
  destroy_from (suc count) i v = destroy_from count (i + 1) (destroy_cell v (cell v i))

  -- the second one
  pub fill_from : ℕ → ℕ → Vector E → Vector E
  fill_from zero i v = v
  fill_from (suc count) i v =
      fill_from count (i + 1) (record v { array = set v.array i (some v.default_constructor) })

  abbrev set_size : ℕ → Vector E → Vector E
  set_size n v = record v { size = n }

  pub resize : Vector E → ℕ → Option (Vector E)
  resize v n =
      if leb n v.size
      then some (set_size n (destroy_from (v.size - n) n v))
      else do v' ← reserve v n; some (set_size n (fill_from (n - v.size) v.size v'))

  pub set_at : Vector E → ℕ → E → Option (Vector E)
  set_at v position element = do
    old ← get v position
    some (record (destroy_cell v old) {
      array = set v.array position (some (v.copy_constructor element));
    })

  pub push_back : Vector E → E → Option (Vector E)
  push_back v element = do
    v' ← resize v (v.size + 1)
    last ← get v' (v'.size - 1)
    some (record (destroy_cell v' last) {
      array = set v'.array (v'.size - 1) (some (v.copy_constructor element));
    })

  pub pop_back : Vector E → Option (Vector E)
  pop_back v = assert (not (v.size == 0)) >> resize v (v.size - 1)

  -- `for (i = size - 1; i > position; i--) array[i] = array[i - 1]`, `count` rounds from `i`
  pub shift_up : ℕ → ℕ → List (Option E) → List (Option E)
  shift_up zero i array = array
  shift_up (suc count) i array = shift_up count (i - 1) (set array i (get_or array (i - 1) none))

  pub insert : Vector E → ℕ → E → Option (Vector E)
  insert v position element = do
    assert (leb position v.size)
    v' ← resize v (v.size + 1)
    last ← get v' (v'.size - 1)
    let shifted = shift_up (v'.size - 1 - position) (v'.size - 1) v'.array
    some (record (destroy_cell v' last) {
      array = set shifted position (some (v.copy_constructor element));
    })

  -- `for (i = position; i < size; i++) array[i] = array[i + 1]`, `count` rounds from `i`. The last
  -- round reads `array[size]`: `erase` is a fault where the storage ends there.
  pub shift_down : ℕ → ℕ → List (Option E) → List (Option E)
  shift_down zero i array = array
  shift_down (suc count) i array =
      shift_down count (i + 1) (set array i (get_or array (i + 1) none))

  pub erase : Vector E → ℕ → Option (Vector E)
  erase v position = do
    assert (ltb position v.size)
    assert (ltb v.size (length v.array))
    let v' = destroy_cell v (cell v position)
    resize (record v' { array = shift_down (v.size - position) position v.array }) (v.size - 1)

  pub clear : Vector E → Option (Vector E)
  clear v = resize v 0
