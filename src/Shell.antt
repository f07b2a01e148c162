-- ===== src/Shell.antt =====
-- shell/shell.c: taking a command line apart at its operator, and running its two commands.
-- A word is its characters before the terminator. Whether a command succeeds, as the program that runs it
-- or `change_directory` says, is a parameter.
pub mod Operators
pub mod History
mod Tests
use cs.Prelude.{
  ℕ, zero, suc, ◌+◌, ◌-◌, Option, none, some, Bool, true, false, ◌==◌, ltb, if◌then◌else◌, List, [],
  ◌∷◌, ◌++◌, length, take, drop, set, get_or, ◌>>=◌,
}
use cs.Prelude.Chars.{str_eq}
use cs.Vector
use cs.Vector.{Vector}
use cs.Sstring

abbrev pub Word : Type 0
Word = List ℕ

-- the globals that `get_args` sets
pub record Parsed : Type 0 where
  pub args : List Word
  pub args1 : List Word
  pub args2 : List Word
  pub op : ℕ

-- `yeet`: the characters before the first newline
unfoldable pub yeet : Word → Word
yeet [] = []
yeet (c ∷ cs) = let rest = yeet cs in if c == 10 then [] else c ∷ rest

-- the string without its last character
unfoldable pub skeet : Word → Word
skeet target = take (length target - 1) target

abbrev pub and_word : Word
and_word = 38 ∷ 38 ∷ []

abbrev pub or_word : Word
or_word = 124 ∷ 124 ∷ []

-- the last character; the code reads the one before an empty string, a fault
unfoldable pub last_char : Word → Option ℕ
last_char [] = none
last_char (c ∷ []) = some c
last_char (c ∷ d ∷ cs) = last_char (d ∷ cs)

-- the two loops over `j` behind an operator that is a word of its own
abbrev pub around : ℕ → ℕ → Parsed → Parsed
around op i p = record {
  args = p.args;
  args1 = p.args1 ++ take i p.args;
  args2 = p.args2 ++ drop (i + 1) p.args;
  op = op;
}

-- The same at a word that ends in a semicolon: the word itself comes into the second list.
abbrev pub at_semicolon : ℕ → Word → Parsed → Parsed
at_semicolon i w p = record {
  args = set p.args i (skeet w);
  args1 = p.args1 ++ take i p.args;
  args2 = p.args2 ++ drop i (set p.args i (skeet w));
  op = 3;
}

-- one round of the loop of `get_args`
unfoldable pub round : ℕ → Parsed → Option Parsed
unfolding yeet skeet last_char
round i p =
    let w = yeet (get_or p.args i []) in
    let p' = record p { args = set p.args i w } in
    let semicolon = (do c ← last_char w; some (if c == 59 then at_semicolon i w p' else p')) in
    if str_eq w and_word
    then some (around 1 i p')
    else if str_eq w or_word
    then some (around 2 i p')
    else semicolon

-- `count` rounds from `i`
unfoldable pub rounds : (count i : ℕ) → Parsed → Option Parsed
unfolding round
rounds zero i p = some p
rounds (suc count) i p = do p' ← round i p; rounds count (i + 1) p'

abbrev pub unparsed : List Word → Parsed
unparsed args = record { args = args; args1 = []; args2 = []; op = 0 }

-- The loop of `get_args`, over the words of the line.
unfoldable pub classify : List Word → Option Parsed
unfolding rounds
classify args = rounds (length args) 0 (unparsed args)

-- what `vector_get` gives for `count` positions from `i`
words_of : (count i : ℕ) → Vector Word → Option (List Word)
words_of zero i v = some []
words_of (suc count) i v = do
  w ← Vector.get v i
  word ← w
  rest ← words_of count (i + 1) v
  some (word ∷ rest)

-- `get_args`, with the callbacks of the string and the memory that it takes.
pub get_args :
    (shallow_copy : ℕ → ℕ) (shallow_default : ℕ) (char_copy : ℕ → ℕ) (char_default : ℕ)
    (word_copy : Word → Word) (word_default : Word)
    → (ℕ → List ℕ)
    → Word
    → Option Parsed
unfolding yeet classify words_of
get_args shallow_copy shallow_default char_copy char_default word_copy word_default memory line = do
  s ← Sstring.of_cstr shallow_copy shallow_default char_copy char_default (yeet line)
  args ←
      Sstring.split shallow_copy shallow_default char_copy char_default word_copy word_default s 32
        memory
  words ← words_of args.size 0 args
  classify words

-- The commands that were run, in order, and whether the shell was aborted by an assertion.
pub record Ran : Type 0 where
  pub commands : List (List Word)
  pub aborted : Bool

abbrev pub finished : Ran
finished = record { commands = []; aborted = false }

-- `spoon`, and what `loop` does with its result: the first word of a command is read by `vector_get`, whose
-- assertion fails for a command without words.
pub spoon : (List Word → Bool) → List Word → (Bool → Ran) → Ran
spoon succeeds [] next = record { commands = []; aborted = true }
spoon succeeds (w ∷ ws) next =
    let rest = next (succeeds (w ∷ ws)) in
    record { commands = (w ∷ ws) ∷ rest.commands; aborted = rest.aborted }

-- What `loop` runs for a parsed line.
unfoldable pub run : (List Word → Bool) → Parsed → Ran
unfolding spoon
run succeeds p =
    let second = spoon succeeds p.args2 (λ ok. finished) in
    if p.op == 1
    then spoon succeeds p.args1 (λ ok. if ok then second else finished)
    else if p.op == 2
    then spoon succeeds p.args1 (λ ok. if ok then finished else second)
    else if p.op == 3
    then spoon succeeds p.args1 (λ ok. second)
    else spoon succeeds p.args (λ ok. finished)

-- The history is the list of the lines run so far. What `nth_cmd` and `prefix` return is the line that
-- they hand to `get_args`, and the history with that line behind the others.
pub nth_cmd : ℕ → List Word → Option (Word × List Word)
nth_cmd num history =
    if ltb num (length history)
    then some (get_or history num [], history ++ (get_or history num [] ∷ []))
    else none

-- `strncpy` of as many characters as the query has, and `strcmp`
unfoldable pub starts_with : Word → Word → Bool
starts_with query past = str_eq query (take (length query) past)

-- the loop of `prefix`, which goes down from the latest of `count` lines
unfoldable pub latest : (count : ℕ) → Word → List Word → Option Word
unfolding starts_with
latest zero query history = none
latest (suc i) query history =
    let before = latest i query history in
    if starts_with query (get_or history i []) then some (get_or history i []) else before

-- `prefix`, for the first word of the line and the line itself, which begins with `!`
unfoldable pub prefix : (first line : Word) → List Word → Option (Word × List Word)
unfolding latest
prefix first line history =
    let again =
      (if length history == 0
        then none
        else some (
          get_or history (length history - 1) [],
          history ++ (get_or history (length history - 1) [] ∷ []),
        )) in
    let found = (do
      past ← latest (length history) (drop 1 line) history
      some (past, history ++ (past ∷ []))) in
    if length first == 1 then again else found
