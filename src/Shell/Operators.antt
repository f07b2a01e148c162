-- ===== src/Shell/Operators.antt =====
-- The operators of shell/shell.c: which words come into which of the two commands, and what is run.
use cs.Prelude.{
  ℕ, zero, suc, ◌+◌, ◌-◌, ◌≤◌, ◌<◌, ◌≡◌, ◌≢◌, refl, some, Bool, true, false, ◌==◌, if◌then◌else◌,
  List, [], ◌∷◌, length, take, drop, set, get_or, arith, ap, ◌∙◌, sym, subst, get_or-set,
}
use cs.Prelude.Chars.{str_eq}
use cs.Shell.{
  Word, Parsed, yeet, skeet, last_char, and_word, or_word, around, at_semicolon, round, rounds,
  unparsed, classify, Ran, finished, spoon, run,
}

-- A word that is no operator: no newline, not empty, not ending in a semicolon.
pub record IsPlain (w : Word) : Type 0 where
  pub last : ℕ
  pub ends : last_char w ≡ some last
  pub no_semicolon : (last == 59) ≡ false
  pub no_and : str_eq w and_word ≡ false
  pub no_or : str_eq w or_word ≡ false
  pub no_newline : yeet w ≡ w

set-get_or : (xs : List Word) (i : ℕ) → set xs i (get_or xs i []) ≡ xs
set-get_or [] zero = refl
set-get_or [] (suc i) = refl
set-get_or (x ∷ xs) zero = refl
set-get_or (x ∷ xs) (suc i) = ap (λ ys. x ∷ ys) (set-get_or xs i)

-- Setting a position changes the first of the elements from it on.
drop_at-set :
    (xs : List Word) (k : ℕ) (v : Word) → k < length xs → drop k (set xs k v) ≡ v ∷ drop (k + 1) xs
drop_at-set [] k v h = absurd (omega arith)
drop_at-set (x ∷ xs) zero v h = refl
drop_at-set (x ∷ xs) (suc k) v h =
    let further : suc (k + 1) ≡ suc k + 1 = omega arith in
    drop_at-set xs k v (omega arith) ∙ ap (λ n. v ∷ drop n (x ∷ xs)) further

round_plain :
    (i : ℕ) (p : Parsed) (w : Word) → get_or p.args i [] ≡ w → IsPlain w → round i p ≡ some p
unfolding round
round_plain i p w at h =
    let same : set p.args i w ≡ p.args = ap (set p.args i) (sym at) ∙ set-get_or p.args i in
    rw (at, h.no_newline, h.no_and, h.no_or, h.ends, h.no_semicolon)
      (ap (λ args. some (record p { args = args })) same)

rounds_plain :
    (count i : ℕ) (p : Parsed)
    → ((j : ℕ) → i ≤ j → j < i + count → IsPlain (get_or p.args j []))
    → rounds count i p ≡ some p
unfolding rounds
rounds_plain zero i p h = refl
rounds_plain (suc count) i p h =
    rw (round_plain i p (get_or p.args i []) refl (h i (omega arith) (omega arith)))
      (rounds_plain count (i + 1) p (λ j low high. h j (omega arith) (omega arith)))

rounds_prefix :
    (n m i : ℕ) (p : Parsed)
    → ((j : ℕ) → i ≤ j → j < i + n → IsPlain (get_or p.args j []))
    → rounds (n + m) i p ≡ rounds m (i + n) p
unfolding rounds
rounds_prefix zero m i p h =
    let all : 0 + m ≡ m = omega arith in
    let here : i ≡ i + 0 = omega arith in ap (λ k. rounds k i p) all ∙ ap (λ j. rounds m j p) here
rounds_prefix (suc n) m i p h =
    let all : suc n + m ≡ suc (n + m) = omega arith in
    let there : i + 1 + n ≡ i + suc n = omega arith in
    ap (λ k. rounds k i p) all
    ∙ rw (round_plain i p (get_or p.args i []) refl (h i (omega arith) (omega arith))) (
        rounds_prefix n m (i + 1) p (λ j low high. h j (omega arith) (omega arith))
        ∙ ap (λ j. rounds m j p) there)

-- Every word but the one at `k` is plain.
abbrev pub PlainBut : ℕ → List Word → Type 0
PlainBut k args = (j : ℕ) → j < length args → j ≢ k → IsPlain (get_or args j [])

one_operator :
    (k : ℕ) (args : List Word) (q : Parsed)
    → k < length args
    → PlainBut k args
    → round k (unparsed args) ≡ some q
    → ((j : ℕ) → k < j → get_or q.args j [] ≡ get_or args j [])
    → classify args ≡ some q
unfolding classify rounds
one_operator k args q inside plain at same =
    let m = length args - (k + 1) in
    let parts : length args ≡ k + suc m = omega arith in
    let here : 0 + k ≡ k = omega arith in
    ap (λ n. rounds n 0 (unparsed args)) parts
    ∙ rounds_prefix k (suc m) 0 (unparsed args) (λ j low high. plain j (omega arith) (omega arith))
    ∙ ap (λ j. rounds (suc m) j (unparsed args)) here
    ∙ rw at (
        rounds_plain m (k + 1) q (λ j low high.
          subst IsPlain (sym (same j (omega arith))) (plain j (omega arith) (omega arith))))

-- For a line whose only operator is the word `&&` at `k`: the words before it are the first command and
-- the words behind it the second, which is run exactly if the first succeeds.
pub and_lem :
    (succeeds : List Word → Bool) (k : ℕ) (args : List Word)
    → k < length args
    → get_or args k [] ≡ and_word
    → PlainBut k args
    → (p : Parsed) × (classify args ≡ some p)
      × (p.args1 ≡ take k args)
      × (p.args2 ≡ drop (k + 1) args)
      × (run succeeds p
          ≡ spoon succeeds
              (take k args)
              (λ ok. if ok then spoon succeeds (drop (k + 1) args) (λ ok. finished) else finished))
unfolding round run yeet str_eq
and_lem succeeds k args inside at plain =
    let q : Parsed = around 1 k (unparsed args) in
    let same : set args k and_word ≡ args = ap (set args k) (sym at) ∙ set-get_or args k in
    (
      q,
      one_operator k args q inside plain (rw at (ap (λ xs. some (around 1 k (unparsed xs))) same))
          (λ j l. refl),
      refl,
      refl,
      refl,
    )

-- The same for `||`, with the second command run exactly if the first fails.
pub or_lem :
    (succeeds : List Word → Bool) (k : ℕ) (args : List Word)
    → k < length args
    → get_or args k [] ≡ or_word
    → PlainBut k args
    → (p : Parsed) × (classify args ≡ some p)
      × (p.args1 ≡ take k args)
      × (p.args2 ≡ drop (k + 1) args)
      × (run succeeds p
          ≡ spoon succeeds
              (take k args)
              (λ ok. if ok then finished else spoon succeeds (drop (k + 1) args) (λ ok. finished)))
unfolding round run yeet str_eq
or_lem succeeds k args inside at plain =
    let q : Parsed = around 2 k (unparsed args) in
    let same : set args k or_word ≡ args = ap (set args k) (sym at) ∙ set-get_or args k in
    (
      q,
      one_operator k args q inside plain (rw at (ap (λ xs. some (around 2 k (unparsed xs))) same))
          (λ j l. refl),
      refl,
      refl,
      refl,
    )

-- the two commands in turn
in_turn : (List Word → Bool) → (first second : List Word) → Ran
in_turn succeeds first second = spoon succeeds first (λ ok. spoon succeeds second (λ ok'. finished))

in_turn_lem :
    (succeeds : List Word → Bool) (k : ℕ) (args : List Word) (v : Word) (vs : List Word)
    → k < length args
    → (k ≡ 0 → in_turn succeeds (take k args) (v ∷ vs) ≡ record { commands = []; aborted = true })
      × (0 < k
          → in_turn succeeds (take k args) (v ∷ vs)
            ≡ record { commands = take k args ∷ (v ∷ vs) ∷ []; aborted = false })
unfolding in_turn spoon
in_turn_lem succeeds k [] v vs inside = absurd (omega arith)
in_turn_lem succeeds zero (w ∷ ws) v vs inside = (λ e. refl, λ h. absurd (omega (arith, h)))
in_turn_lem succeeds (suc k) (w ∷ ws) v vs inside = (λ e. absurd (omega (arith, e)), λ h. refl)

pub semicolon_lem :
    (succeeds : List Word → Bool) (k : ℕ) (args : List Word) (w : Word)
    → k < length args
    → get_or args k [] ≡ w
    → yeet w ≡ w
    → last_char w ≡ some 59
    → str_eq w and_word ≡ false
    → str_eq w or_word ≡ false
    → PlainBut k args
    → (p : Parsed) × (classify args ≡ some p)
      × (k ≡ 0 → run succeeds p ≡ record { commands = []; aborted = true })
      × (0 < k
          → run succeeds p ≡ record {
            commands = take k args ∷ (skeet w ∷ drop (k + 1) args) ∷ [];
            aborted = false;
          })
unfolding round run in_turn
semicolon_lem succeeds k args w inside at line ends no_and no_or plain =
    let q : Parsed = at_semicolon k w (unparsed args) in
    let same : set args k w ≡ args = ap (set args k) (sym at) ∙ set-get_or args k in
    let rest = drop_at-set args k (skeet w) inside in
    let (none_before, some_before) =
      in_turn_lem succeeds k args (skeet w) (drop (k + 1) args) inside in
    let runs : run succeeds q ≡ in_turn succeeds (take k args) (skeet w ∷ drop (k + 1) args) =
      ap (in_turn succeeds (take k args)) rest in
    (
      q,
      one_operator k args q inside plain
          (rw (at, line, no_and, no_or, ends)
            (ap (λ xs. some (at_semicolon k w (unparsed xs))) same))
          (λ j l. ground (arith, get_or-set args k j (skeet w) [] inside)),
      λ e. runs ∙ none_before e,
      λ h. runs ∙ some_before h,
    )
