-- ===== src/Sstring/Tests.antt =====
-- vector/sstring.c on the text "a,b", in memory that was used before.
use cs.Prelude.{
  ℕ, zero, suc, ◌<◌, ◌≡◌, refl, none, some, List, [], ◌∷◌, is_some, true, arith, get_or,
}
use cs.Vector.{Vector, cell}
use cs.Sstring.{split}
use cs.Sstring.Text.{Contents, Holds, Avoids}
use cs.Sstring.Split.{AreStrings, AllAvoid, join, split_lem}

abbrev text : List ℕ
text = 97 ∷ 44 ∷ 98 ∷ []

abbrev text_vector : Vector ℕ
text_vector = record {
  copy_constructor = λ c. c;
  default_constructor = 0;
  array = some 97 ∷ some 44 ∷ some 98 ∷ none ∷ [];
  size = 3;
  capacity = 4;
  destroyed = [];
}

text_written : (i : ℕ) → i < 3 → is_some (cell text_vector i) ≡ true
text_written zero h = refl
text_written (suc zero) h = refl
text_written (suc (suc zero)) h = refl
text_written (suc (suc (suc i))) h = ground arith

text_chars : (i : ℕ) → i < 3 → cell text_vector i ≡ some (get_or text i 0)
text_chars zero h = refl
text_chars (suc zero) h = refl
text_chars (suc (suc zero)) h = refl
text_chars (suc (suc (suc i))) h = ground arith

text-Holds : Holds text_vector text
text-Holds = record {
  valid = record {
    fits = omega arith;
    storage = refl;
    small = omega arith;
    written = text_written;
  };
  copies = λ c. refl;
  size = refl;
  chars = text_chars;
}

text-Avoids : Avoids 0 text
text-Avoids = (omega arith, (omega arith, (omega arith, tt)))

-- what stood in the memory before: the bytes 120 and 121, and a 0
abbrev used_memory : ℕ → List ℕ
used_memory k = 120 ∷ 121 ∷ 0 ∷ []

split_lem_example :
    (out : Vector (List ℕ)) × (parts ws : List (List ℕ)) × (split
        (λ c. c)
        0
        (λ c. c)
        0
        (λ s. s)
        []
        text_vector
        44
        used_memory
      ≡ some out)
    × Contents [] out parts
    × AreStrings used_memory ws parts
    × (join 44 ws ≡ text)
    × AllAvoid 44 ws
split_lem_example =
    split_lem (λ c. c) 0 (λ c. c) 0 (λ s. s) [] (λ c. refl) (λ s. refl) 44 used_memory text-Holds
      text-Avoids (omega arith)
