-- ===== src/MakefileText/Words.antt =====
-- The dependencies on a line of a Makefile, for split_line_on_spaces of parallel_make/parser.c.
use cs.Prelude.{
  ℕ, zero, suc, ◌≤◌, ◌<◌, ◌≡◌, refl, some, false, ◌==◌, if◌then◌else◌, List, [], ◌∷◌, ◌++◌, length,
  ◌⊎◌, inl, inr, arith, ap, sym, subst, Bool-cases,
}
use cs.MakefileText.{skip_spaces, until_space, strtok, tokens_from, split_line_on_spaces}

-- the characters that are no spaces
pub letters : List ℕ → List ℕ
letters [] = []
letters (c ∷ cs) = let rest = letters cs in if c == 32 then rest else c ∷ rest

-- How a line is made of tokens: a token has no space, and ends at a space or at the end of the line.
pub data Spaced : List ℕ → List (List ℕ) → Type 0 where
  blank : Spaced [] []
  space : {line : List ℕ} {tokens : List (List ℕ)} → Spaced line tokens → Spaced (32 ∷ line) tokens
  last_token : (c : ℕ) (cs : List ℕ) → letters (c ∷ cs) ≡ c ∷ cs → Spaced (c ∷ cs) ((c ∷ cs) ∷ [])
  next_token :
      (c : ℕ) (cs : List ℕ) {line : List ℕ} {tokens : List (List ℕ)}
      → letters (c ∷ cs) ≡ c ∷ cs
      → Spaced line tokens
      → Spaced (c ∷ cs ++ 32 ∷ line) ((c ∷ cs) ∷ tokens)

skip_spaces_lem :
    (line : List ℕ) {tokens : List (List ℕ)} → Spaced (skip_spaces line) tokens → Spaced line tokens
unfolding skip_spaces
skip_spaces_lem [] s = s
skip_spaces_lem (c ∷ cs) {tokens} s = elim (Bool-cases (c == 32)) [
  | inl e ↦
      let blank_c : 32 ≡ c = ground arith in
      subst (λ d. Spaced (d ∷ cs) tokens) blank_c
        (space (
          skip_spaces_lem cs
            (subst (λ b. Spaced (if b then skip_spaces cs else c ∷ cs) tokens) e s)))
  | inr e ↦ subst (λ b. Spaced (if b then skip_spaces cs else c ∷ cs) tokens) e s
]

skip_spaces_le : (line : List ℕ) → length (skip_spaces line) ≤ length line
unfolding skip_spaces
skip_spaces_le [] = ground arith
skip_spaces_le (c ∷ cs) = ground (arith, skip_spaces_le cs)

-- What `skip_spaces` stops at.
skip_spaces_stop :
    (line : List ℕ) (c : ℕ) (cs : List ℕ) → skip_spaces line ≡ c ∷ cs → (c == 32) ≡ false
unfolding skip_spaces
skip_spaces_stop [] c cs h = ground arith
skip_spaces_stop (d ∷ ds) c cs h = ground (arith, skip_spaces_stop ds c cs)

-- The token in front of a line: it ends the line, or a space is behind it.
record Cut (line : List ℕ) : Type 0 where
  token : List ℕ
  rest : List ℕ
  cut : until_space line ≡ (token, rest)
  pure : letters token ≡ token
  ends : ((line ≡ token) × (rest ≡ [])) ⊎ (line ≡ token ++ 32 ∷ rest)
  shorter : length rest ≤ length line

until_space_lem : (line : List ℕ) → Cut line
unfolding until_space letters
until_space_lem [] = record {
  token = [];
  rest = [];
  cut = refl;
  pure = refl;
  ends = inl (refl, refl);
  shorter = omega arith;
}
until_space_lem (c ∷ cs) =
    let r = until_space_lem cs in
    elim (Bool-cases (c == 32)) [
      | inl e ↦ record {
        token = [];
        rest = cs;
        cut = rw e refl;
        pure = refl;
        ends = inr (ap (λ d. d ∷ cs) (ground arith));
        shorter = omega arith;
      }
      | inr e ↦ record {
        token = c ∷ r.token;
        rest = r.rest;
        cut = rw (e, r.cut, until_space) refl;
        pure = rw (e, r.pure, letters) refl;
        ends = elim r.ends [
          | inl (whole, nothing) ↦ inl (ap (λ xs. c ∷ xs) whole, nothing)
          | inr split ↦ inr (ap (λ xs. c ∷ xs) split)
        ];
        shorter = omega (arith, r.shorter);
      }
    ]

Spaced-nil : {tokens : List (List ℕ)} → Spaced [] tokens → [] ≡ tokens
Spaced-nil blank = refl

-- one more token in front, from the way it ends
in_front :
    (c : ℕ) (cs token rest : List ℕ) (tokens : List (List ℕ))
    → letters (c ∷ token) ≡ c ∷ token
    → ((cs ≡ token) × (rest ≡ [])) ⊎ (cs ≡ token ++ 32 ∷ rest)
    → Spaced rest tokens
    → Spaced (c ∷ cs) ((c ∷ token) ∷ tokens)
in_front c cs token rest tokens pure (inl (whole, nothing)) s =
    let no_more : [] ≡ tokens = Spaced-nil (subst (λ r. Spaced r tokens) nothing s) in
    subst (λ xs. Spaced (c ∷ xs) ((c ∷ token) ∷ tokens)) (sym whole)
      (subst (λ ts. Spaced (c ∷ token) ((c ∷ token) ∷ ts)) no_more (last_token c token pure))
in_front c cs token rest tokens pure (inr split) s =
    subst (λ xs. Spaced (c ∷ xs) ((c ∷ token) ∷ tokens)) (sym split) (next_token c token pure s)

tokens_from_lem :
    (fuel : ℕ) (line : List ℕ)
    → length line < fuel
    → (tokens : List (List ℕ)) × (tokens_from fuel line ≡ some tokens) × Spaced line tokens
unfolding tokens_from strtok until_space letters
tokens_from_lem zero line h = absurd (omega arith)
tokens_from_lem (suc fuel) line h =
    go (skip_spaces line) refl (λ l small. tokens_from_lem fuel l small)
  where
    go :
        (left : List ℕ)
        → skip_spaces line ≡ left
        → ((l : List ℕ)
            → length l < fuel
            → (tokens : List (List ℕ)) × (tokens_from fuel l ≡ some tokens) × Spaced l tokens)
        → (tokens : List (List ℕ)) × (tokens_from (suc fuel) line ≡ some tokens)
          × Spaced line tokens
    go [] e others = (
      [],
      rw (e, tokens_from) refl,
      skip_spaces_lem line (subst (λ l. Spaced l []) (sym e) blank),
    )
    go (c ∷ cs) e others =
        let r = until_space_lem cs in
        let inside : (c == 32) ≡ false = skip_spaces_stop line c cs e in
        let bound : length (c ∷ cs) ≤ length line =
          subst (λ l. length l ≤ length line) e (skip_spaces_le line) in
        let (tokens, found, s) = others r.rest (omega (arith, r.shorter)) in
        let pure : letters (c ∷ r.token) ≡ c ∷ r.token = rw (inside, r.pure, letters) refl in
        (
          (c ∷ r.token) ∷ tokens,
          rw (e, inside, r.cut, found, tokens_from) refl,
          skip_spaces_lem line (
              subst (λ l. Spaced l ((c ∷ r.token) ∷ tokens)) (sym e)
                (in_front c cs r.token r.rest tokens pure r.ends s)),
        )

-- `split_line_on_spaces` ends on every line, and its tokens are those that the line is made of.
pub split_line_on_spaces-Spaced :
    (line : List ℕ)
    → (tokens : List (List ℕ)) × (split_line_on_spaces line ≡ some tokens) × Spaced line tokens
unfolding split_line_on_spaces
split_line_on_spaces-Spaced line = tokens_from_lem (suc (length line)) line (omega arith)
