-- ===== src/Sstring.antt =====
-- vector/sstring.c: strings as vectors of characters, over the vector of Vector.antt. A character
-- pointer is the character that it points to; a C string is its bytes before the terminator.
pub mod Text
pub mod Split
mod Tests
use cs.Prelude.{
  ℕ, zero, suc, ◌+◌, ◌-◌, ◌%◌, ◌^◌, Option, none, some, List, [], ◌∷◌, ◌++◌, ◌==◌, if◌then◌else◌,
  get_or, drop, ◌>>=◌,
}
use cs.Vector
use cs.Vector.{Vector}

-- The C string at the start of a stretch of memory: the bytes before the first 0.
pub c_string : List ℕ → List ℕ
c_string [] = []
c_string (c ∷ cs) = if c == 0 then [] else c ∷ c_string cs

-- `*(char*) vector_get(v, i)`, a fault at a cell that was never written
pub char_at : Vector ℕ → ℕ → Option ℕ
char_at v i = do c ← Vector.get v i; c

-- the loop of `cstr_to_sstring` over the characters that are left
pub push_chars : Vector ℕ → List ℕ → Option (Vector ℕ)
push_chars v [] = some v
push_chars v (c ∷ cs) = do w ← Vector.push_back v c; push_chars w cs

-- `n` rounds of the loops that push the characters `i`, `i + 1`, … of another string
pub push_range : ℕ → ℕ → Vector ℕ → Vector ℕ → Option (Vector ℕ)
push_range zero i v source = some v
push_range (suc n) i v source = do
  c ← char_at source i
  w ← Vector.push_back v c
  push_range n (i + 1) w source

-- `this` and `addition` are two strings: the loop re-reads the size of `addition`, so that a string
-- appended to itself would never end. The result is the `int` returned and the new `this`.
pub append : Vector ℕ → Vector ℕ → Option (ℕ × Vector ℕ)
append v addition = do w ← push_range addition.size 0 v addition; some (w.size, w)

-- The characters that the loop of `sstring_to_cstr` writes.
pub chars_from : ℕ → ℕ → Vector ℕ → Option (List ℕ)
chars_from zero i v = some []
chars_from (suc n) i v = do c ← char_at v i; cs ← chars_from n (i + 1) v; some (c ∷ cs)

-- `memory` is what stands at the address that `malloc` returns. The loop writes the characters over
-- its start; `cstr[strlen(cstr)] = '\0'` then writes a 0 over the first 0, and changes nothing.
pub to_cstr : Vector ℕ → List ℕ → Option (List ℕ)
to_cstr v memory = do cs ← chars_from v.size 0 v; some (c_string (cs ++ drop v.size memory))

-- `sstring_substitute` looks at nothing and returns -1, as a 32-bit pattern.
pub substitute : Vector ℕ → ℕ → List ℕ → List ℕ → ℕ
substitute v offset target substitution = let count : ℕ = 0 in if count == 0 then 2 ^ 32 - 1 else 0

-- The loop of `sstring_split` from character `i`: the current word in `word`, the words before it in
-- `split`, a vector of C strings, `memory i` what `malloc` returns at character `i`.
pub split_from :
    (count i : ℕ)
    → Vector ℕ
    → (delimiter : ℕ) → (ℕ → List ℕ)
    → (word : Vector ℕ) → Vector (List ℕ)
    → Option (Vector (List ℕ))
split_from zero i v delimiter memory word split = do
  s ← to_cstr word (memory i)
  Vector.push_back split s
split_from (suc n) i v delimiter memory word split = do
  c ← char_at v i
  let at_delimiter = do
    s ← to_cstr word (memory i)
    split' ← Vector.push_back split s
    cleared ← Vector.clear word
    split_from n (i + 1) v delimiter memory cleared split'
  let inside = do w ← Vector.push_back word c; split_from n (i + 1) v delimiter memory w split
  if c == delimiter then at_delimiter else inside

-- The callbacks of the header callbacks.h, for `char` and for the shallow default.
module _ (shallow_copy : ℕ → ℕ) (shallow_default : ℕ) (char_copy : ℕ → ℕ) (char_default : ℕ) where
  pub create : Vector ℕ
  create = Vector.create shallow_copy shallow_default (some char_copy) (some char_default)

  pub of_cstr : List ℕ → Option (Vector ℕ)
  of_cstr input = push_chars create input

  -- `sstring_slice` for `0 ≤ start ≤ end`: a fresh string, one loop, and its C string.
  pub slice : Vector ℕ → ℕ → ℕ → List ℕ → Option (List ℕ)
  slice v start end memory = do w ← push_range (end - start) start create v; to_cstr w memory

  -- `string_copy` and `string_default` are the callbacks of a vector of strings, which copy a string.
  pub split :
      (string_copy : List ℕ → List ℕ) (string_default : List ℕ)
      → Vector ℕ
      → (delimiter : ℕ) → (ℕ → List ℕ)
      → Option (Vector (List ℕ))
  split string_copy string_default v delimiter memory =
      let strings =
        Vector.create string_copy string_default (some string_copy) (some string_default) in
      split_from v.size 0 v delimiter memory create strings
