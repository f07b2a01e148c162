-- ===== src/CamelCaser.antt =====
-- extreme_edge_cases/camelCaser.c: the sentences of a text, one for each punctuation mark, in camel case.
-- The input is not NULL. A string is the codes of its characters; the two buffers grow as they fill, and are
-- lists. The lengths are of type `int`: `none` is one that it does not hold, or a fault.
pub mod Fold
mod Tests
use cs.Prelude.{
  ℕ, ◌-◌, ◌*◌, ◌^◌, ◌&&◌, ltb, length, Option, none, some, List, [], ◌∷◌, ◌++◌, Bool, true, false,
  if◌then◌else◌, ◌||◌,
}
use cs.Prelude.Chars.{is_punct, is_space, is_alpha, to_lower, to_upper}

-- The flags and the word of the inner loop.
pub record Word : Type 0 where
  pub upper : Bool
  pub alpha : Bool
  pub text : List ℕ

abbrev pub fresh : Word
fresh = record { upper = false; alpha = false; text = [] }

-- One character that is no punctuation mark. For a space the code sets `upper` and then runs over the
-- spaces that follow; each of these would set it in the same way.
pub step : Word → ℕ → Word
step w c =
    if is_space c
    then record w { upper = w.alpha || w.upper }
    else if is_alpha c
    then (if w.upper
        then record { upper = false; alpha = true; text = w.text ++ (to_upper c ∷ []) }
        else record { upper = w.upper; alpha = true; text = w.text ++ (to_lower c ∷ []) })
    else record { upper = w.upper; alpha = true; text = w.text ++ (c ∷ []) }

-- The two loops: the words that are done, and the one begun. A word is stored when its punctuation mark
-- is reached, and at the end of the input if a character of it has been read (`begun`).
pub scan : Bool → Word → List ℕ → List (List ℕ)
scan begun w [] = if begun then w.text ∷ [] else []
scan begun w (c ∷ cs) =
    let words = scan false fresh cs in
    let more = scan true (step w c) cs in if is_punct c then w.text ∷ words else more

-- Without the last element, as `camel[camel_spot - 2] = NULL` leaves the array for its readers.
pub drop_last : List (List ℕ) → List (List ℕ)
drop_last [] = []
drop_last (w ∷ []) = []
drop_last (w ∷ u ∷ us) = w ∷ drop_last (u ∷ us)

pub ends_in_punct : List ℕ → Bool
ends_in_punct [] = false
ends_in_punct (c ∷ []) = is_punct c
ends_in_punct (c ∷ d ∷ cs) = ends_in_punct (d ∷ cs)

-- The capacities of the buffers are 10, 20, and so on: doubled once more this one overflows an `int`.
abbrev pub last_capacity : ℕ
last_capacity = 10 * 2 ^ 27

abbrev all_short : List (List ℕ) → Bool
all_short [] = true
all_short (w ∷ ws) = ltb (length w) last_capacity && all_short ws

-- No buffer fills up its last capacity: neither a word, nor the words that are stored.
pub fits_buffers : List (List ℕ) → Bool
fits_buffers words = ltb (length words) last_capacity && all_short words

-- For an empty input the code reads `input_str[-1]`: a fault.
pub camel_caser : List ℕ → Option (List (List ℕ))
unfolding scan step fits_buffers
camel_caser [] = none
camel_caser (c ∷ cs) =
    let words = scan false fresh (c ∷ cs) in
    if ltb (length (c ∷ cs)) (2 ^ 31) && fits_buffers words
    then some (if ends_in_punct (c ∷ cs) then words else drop_last words)
    else none
