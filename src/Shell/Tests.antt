-- ===== src/Shell/Tests.antt =====
-- shell/shell.c on the lines `a && b` and `c a; b`.
use cs.Prelude.{
  ℕ, zero, suc, ◌<◌, ◌≡◌, refl, some, Bool, true, false, List, [], ◌∷◌, arith, ◌⊎◌, none, ◌++◌,
  get_or,
}
use cs.Prelude.Chars.{str_eq}
use cs.Shell.{Word, prefix, Parsed, and_word, classify, run, skeet, yeet, last_char}
use cs.Shell.History.{IsLatest, NoneStarts, prefix_lem}
use cs.Shell.Operators.{IsPlain, PlainBut, semicolon_lem}

-- every command succeeds
abbrev succeeds : List Word → Bool
succeeds command = true

letter-IsPlain : (c : ℕ) → 60 < c → IsPlain (c ∷ [])
unfolding last_char yeet str_eq
letter-IsPlain c h = record {
  last = c;
  ends = refl;
  no_semicolon = ground arith;
  no_and = ground arith;
  no_or = ground arith;
  no_newline = ground arith;
}

abbrev both : List Word
both = (97 ∷ []) ∷ and_word ∷ (98 ∷ []) ∷ []

both-PlainBut : PlainBut 1 both
both-PlainBut zero h ne = letter-IsPlain 97 (omega arith)
both-PlainBut (suc zero) h ne = absurd (omega arith)
both-PlainBut (suc (suc zero)) h ne = letter-IsPlain 98 (omega arith)
both-PlainBut (suc (suc (suc j))) h ne = absurd (omega arith)

-- the line `c a; b`, as one list of words
abbrev three : List Word
three = (99 ∷ []) ∷ (97 ∷ 59 ∷ []) ∷ (98 ∷ []) ∷ []

three-PlainBut : PlainBut 1 three
three-PlainBut zero h ne = letter-IsPlain 99 (omega arith)
three-PlainBut (suc zero) h ne = absurd (omega arith)
three-PlainBut (suc (suc zero)) h ne = letter-IsPlain 98 (omega arith)
three-PlainBut (suc (suc (suc j))) h ne = absurd (omega arith)

semicolon_lem_example :
    (p : Parsed) × (classify three ≡ some p)
    × (◌≡◌ {A = ℕ} 1 0 → run succeeds p ≡ record { commands = []; aborted = true })
    × (0 < 1
        → run succeeds p ≡ record {
          commands = ((99 ∷ []) ∷ []) ∷ ((97 ∷ []) ∷ (98 ∷ []) ∷ []) ∷ [];
          aborted = false;
        })
unfolding yeet last_char str_eq skeet
semicolon_lem_example =
    semicolon_lem succeeds 1 three (97 ∷ 59 ∷ []) (omega arith) refl refl refl refl refl
      three-PlainBut

-- the line `!a` after the lines `ab`, `ac` and `b`
abbrev lines : List Word
lines = (97 ∷ 98 ∷ []) ∷ (97 ∷ 99 ∷ []) ∷ (98 ∷ []) ∷ []

prefix_lem_example :
    ((i : ℕ) × (prefix (33 ∷ 97 ∷ []) (33 ∷ 97 ∷ []) lines
        ≡ some (get_or lines i [], lines ++ (get_or lines i [] ∷ [])))
      × IsLatest 3 (97 ∷ []) lines i)
    ⊎ ((prefix (33 ∷ 97 ∷ []) (33 ∷ 97 ∷ []) lines ≡ none) × NoneStarts 3 (97 ∷ []) lines)
prefix_lem_example = prefix_lem (33 ∷ 97 ∷ []) (33 ∷ 97 ∷ []) lines (omega arith)
