-- ===== src/MakefileText.antt =====
-- parallel_make/parser.c: the helpers that take a line of a Makefile apart.
-- A string is the list of its characters before the terminator. Writing a null byte at a place keeps the
-- characters before it; a pointer into a string is the index of the place.
pub mod Comments
pub mod Words
pub mod Joined
mod Tests
use cs.Prelude.{
  ℕ, zero, suc, ◌+◌, Option, none, some, Bool, true, false, ◌==◌, ◌&&◌, ◌||◌, not, if◌then◌else◌,
  ◌>>=◌, List, [], ◌∷◌, length, take, get_or,
}
use cs.Prelude.Chars.{is_space, is_alnum}

unfoldable pub is_makefile_target : List ℕ → Bool
unfolding is_alnum
is_makefile_target line =
    is_alnum (get_or line 0 0) || (get_or line 0 0 == 46) || (get_or line 0 0 == 47)

unfoldable pub skip_whitespace : List ℕ → List ℕ
unfolding is_space
skip_whitespace [] = []
skip_whitespace (c ∷ cs) = let rest = skip_whitespace cs in if is_space c then rest else c ∷ cs

unfoldable pub find_whitespace : List ℕ → ℕ
unfolding is_space
find_whitespace [] = 0
find_whitespace (c ∷ cs) = let rest = find_whitespace cs in if is_space c then 0 else suc rest

unfoldable pub terminate_whitespace : List ℕ → List ℕ
unfolding find_whitespace
terminate_whitespace str = take (find_whitespace str) str

-- the loop, with `back` one before the count
unfoldable pub strip_from : ℕ → List ℕ → List ℕ
unfolding is_space
strip_from zero str = str
strip_from (suc back) str =
    let rest = strip_from back (take back str) in if is_space (get_or str back 0) then rest else str

unfoldable pub strip_back_whitespace : List ℕ → List ℕ
unfolding strip_from
strip_back_whitespace str = strip_from (length str) str

-- The loop of `in_quotes` for the `count` characters before the pointer; `escaped` says that the
-- character is the one which `++p` passes over.
unfoldable pub quotes_from : (count : ℕ) → List ℕ → (escaped inQuotes : Bool) → Bool
quotes_from zero str escaped inQuotes = inQuotes
quotes_from (suc count) [] escaped inQuotes = inQuotes
quotes_from (suc count) (c ∷ cs) true inQuotes = quotes_from count cs false inQuotes
quotes_from (suc count) (c ∷ cs) false inQuotes =
    quotes_from count cs (c == 92) (if c == 34 then not inQuotes else inQuotes)

unfoldable pub in_quotes : List ℕ → ℕ → Bool
unfolding quotes_from
in_quotes str ptr = quotes_from ptr str false false

-- The loop of `strip_back_comments`: `rest` is what stands from the index `comment_str` on.
unfoldable pub comments_from : (rest : List ℕ) (comment_str : ℕ) → List ℕ → List ℕ
unfolding in_quotes
comments_from [] comment_str str = str
comments_from (c ∷ rest) comment_str str =
    let further = comments_from rest (comment_str + 1) str in
    if c == 35
    then (if in_quotes str comment_str then further else take comment_str str)
    else further

unfoldable pub strip_back_comments : List ℕ → List ℕ
unfolding comments_from
strip_back_comments str = comments_from str 0 str

-- `strtok(line, " ")` from a place of the line: the token and what is left behind it.
skip_spaces : List ℕ → List ℕ
skip_spaces [] = []
skip_spaces (c ∷ cs) = let rest = skip_spaces cs in if c == 32 then rest else c ∷ cs

until_space : List ℕ → List ℕ × List ℕ
until_space [] = ([], [])
until_space (c ∷ cs) =
    let (token, rest) = until_space cs in if c == 32 then ([], cs) else (c ∷ token, rest)

unfoldable pub strtok : List ℕ → Option (List ℕ × List ℕ)
unfolding skip_spaces until_space
strtok line = elim (skip_spaces line) [ [] ↦ none | c ∷ cs ↦ some (until_space (c ∷ cs)) ]

-- The loop of `split_line_on_spaces`, of at most `fuel` rounds.
unfoldable pub tokens_from : ℕ → List ℕ → Option (List (List ℕ))
unfolding strtok
tokens_from zero line = none
tokens_from (suc fuel) line = elim (strtok line) [
  | none ↦ some []
  | some (token, rest) ↦ (do tokens ← tokens_from fuel rest; some (token ∷ tokens))
]

unfoldable pub split_line_on_spaces : List ℕ → Option (List (List ℕ))
unfolding tokens_from
split_line_on_spaces line = tokens_from (suc (length line)) line
