-- ===== src/Vector/Tests.antt =====
-- vector/vector.c on a vector of two elements.
use cs.Prelude.{ℕ, zero, suc, ◌<◌, ◌≡◌, refl, none, some, [], ◌∷◌, true, is_some, arith}
use cs.Vector.{Vector, cell, get_new_capacity, insert, erase}
use cs.Vector.Valid.{IsValid}
use cs.Vector.Capacity.{IsLeastPower, get_new_capacity_lem}
use cs.Vector.Edit.{Inserted}
use cs.Vector.Move.{Erased, insert_lem, erase_lem}

abbrev pair : Vector ℕ
pair = record {
  copy_constructor = λ x. x;
  default_constructor = 0;
  array = some 5 ∷ some 6 ∷ none ∷ none ∷ [];
  size = 2;
  capacity = 4;
  destroyed = [];
}

pair_written : (i : ℕ) → i < 2 → is_some (cell pair i) ≡ true
pair_written zero h = refl
pair_written (suc zero) h = refl
pair_written (suc (suc i)) h = ground arith

pair-IsValid : IsValid pair
pair-IsValid = record {
  fits = omega arith;
  storage = refl;
  small = omega arith;
  written = pair_written;
}

insert_lem_example : (w : Vector ℕ) × (insert pair 1 9 ≡ some w) × Inserted pair 1 9 w
insert_lem_example = insert_lem pair 1 9 pair-IsValid (omega arith) (omega arith)

erase_lem_example : (w : Vector ℕ) × (erase pair 0 ≡ some w) × Erased pair 0 w
erase_lem_example = erase_lem pair 0 pair-IsValid (omega arith) (omega arith)

get_new_capacity_lem_example : (c : ℕ) × (get_new_capacity 9 ≡ some c) × IsLeastPower 9 c
get_new_capacity_lem_example = get_new_capacity_lem 9 (omega arith)
