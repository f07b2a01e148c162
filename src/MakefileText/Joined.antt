-- ===== src/MakefileText/Joined.antt =====
-- A list of dependencies as it is written on a line, for split_line_on_spaces of parallel_make/parser.c.
use cs.Prelude.{
  ℕ, zero, suc, ◌≤◌, ◌<◌, ◌≡◌, refl, some, Bool, true, ◌==◌, ◌&&◌, not, List, [], ◌∷◌, ◌++◌, length,
  arith, ap, length-append, ◌>>=◌,
}
use cs.Prelude.Chars.{is_space}
use cs.MakefileText.{skip_spaces, until_space, strtok, tokens_from, split_line_on_spaces}

-- no blank and no #
abbrev pub is_plain : List ℕ → Bool
is_plain [] = true
is_plain (c ∷ cs) = not (is_space c) && not (c == 35) && is_plain cs

-- a word of a line
abbrev pub IsWord : List ℕ → Type 0
IsWord w = (0 < length w) × (is_plain w ≡ true)

abbrev pub AreWords : List (List ℕ) → Type 0
AreWords [] = Unit
AreWords (w ∷ ws) = IsWord w × AreWords ws

-- the words, each behind a space
abbrev pub spaced_out : List (List ℕ) → List ℕ
spaced_out [] = []
spaced_out (w ∷ ws) = 32 ∷ w ++ spaced_out ws

-- the same without the first space
abbrev joined : List (List ℕ) → List ℕ
joined [] = []
joined (w ∷ ws) = w ++ spaced_out ws

until_space-word :
    (w : List ℕ) (ws : List (List ℕ))
    → is_plain w ≡ true
    → until_space (w ++ spaced_out ws) ≡ (w, joined ws)
unfolding until_space is_space
until_space-word [] [] pure = refl
until_space-word [] (v ∷ vs) pure = refl
until_space-word (c ∷ cs) ws pure = ground (arith, until_space-word cs ws)

skip_spaces-joined : (ws : List (List ℕ)) → AreWords ws → skip_spaces (joined ws) ≡ joined ws
unfolding skip_spaces is_space
skip_spaces-joined [] words = refl
skip_spaces-joined ([] ∷ ws) words = absurd (omega (arith, words.0.0))
skip_spaces-joined ((c ∷ cs) ∷ ws) words =
    let pure : is_plain (c ∷ cs) ≡ true = words.0.1 in ground arith

strtok-joined :
    (w : List ℕ) (ws : List (List ℕ)) (line : List ℕ)
    → IsWord w
    → skip_spaces line ≡ w ++ spaced_out ws
    → strtok line ≡ some (w, joined ws)
unfolding strtok
strtok-joined [] ws line word e = absurd (omega (arith, word.0))
strtok-joined (c ∷ cs) ws line word e =
    rw (e, strtok) (ap some (until_space-word (c ∷ cs) ws word.1))

tokens_from-joined :
    (fuel : ℕ) (ws : List (List ℕ)) (line : List ℕ)
    → AreWords ws
    → skip_spaces line ≡ joined ws
    → length ws < fuel
    → tokens_from fuel line ≡ some ws
unfolding tokens_from strtok
tokens_from-joined zero ws line words e enough = absurd (omega arith)
tokens_from-joined (suc fuel) [] line words e enough = rw (e, tokens_from) refl
tokens_from-joined (suc fuel) (w ∷ ws) line words e enough =
    let rest =
      tokens_from-joined fuel ws (joined ws) words.1 (skip_spaces-joined ws words.1)
        (omega arith) in
    rw (strtok-joined w ws line words.0 e, tokens_from)
      (ap (λ o. o >>= λ tokens. some (w ∷ tokens)) rest)

length-spaced_out : (ws : List (List ℕ)) → length ws ≤ length (spaced_out ws)
length-spaced_out [] = omega arith
length-spaced_out (w ∷ ws) = omega (arith, length-append w (spaced_out ws), length-spaced_out ws)

skip_spaces-spaced_out :
    (ws : List (List ℕ)) → AreWords ws → skip_spaces (spaced_out ws) ≡ joined ws
unfolding skip_spaces
skip_spaces-spaced_out [] words = refl
skip_spaces-spaced_out (w ∷ ws) words = skip_spaces-joined (w ∷ ws) words

pub split_line_on_spaces-spaced_out :
    (ws : List (List ℕ)) → AreWords ws → split_line_on_spaces (spaced_out ws) ≡ some ws
unfolding split_line_on_spaces
split_line_on_spaces-spaced_out ws words =
    tokens_from-joined (suc (length (spaced_out ws))) ws (spaced_out ws) words
      (skip_spaces-spaced_out ws words) (omega (arith, length-spaced_out ws))
