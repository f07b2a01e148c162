-- ===== src/MakefileText/Comments.antt =====
-- Comments and blanks at the end of a line of a Makefile, for parallel_make/parser.c.
use cs.Prelude.{
  ℕ, zero, suc, ◌+◌, ◌≡◌, refl, Bool, true, false, ◌==◌, ◌&&◌, not, if◌then◌else◌, List, [], ◌∷◌,
  ◌++◌, length, take, drop, get_or, arith, ap, ◌∙◌, sym, subst, Bool-cases, inl, inr,
  take-append-drop, drop-cons, drop-all, length-take, append-nil, append_assoc,
}
use cs.MakefileText.{
  quotes_from, in_quotes, comments_from, strip_back_comments, strip_from, strip_back_whitespace,
}
use cs.Prelude.Chars.{is_space}

abbrev next_escaped : (escaped : Bool) → ℕ → Bool
next_escaped escaped c = not escaped && (c == 92)

abbrev next_quoted : (escaped quoted : Bool) → ℕ → Bool
next_quoted escaped quoted c = if not escaped && (c == 34) then not quoted else quoted

-- One pass over the line, which keeps whether it is behind a backslash and whether it is in quotes.
pub uncommented : List ℕ → (escaped quoted : Bool) → List ℕ
uncommented [] escaped quoted = []
uncommented (c ∷ cs) escaped quoted =
    let rest = uncommented cs (next_escaped escaped c) (next_quoted escaped quoted c) in
    if c == 35 && not quoted then [] else c ∷ rest

quotes_from_next :
    (count c : ℕ) (cs : List ℕ) (escaped quoted : Bool)
    → quotes_from (suc count) (c ∷ cs) escaped quoted
      ≡ quotes_from count cs (next_escaped escaped c) (next_quoted escaped quoted c)
unfolding quotes_from
quotes_from_next count c cs true quoted = refl
quotes_from_next count c cs false quoted = refl

take_next :
    (i c : ℕ) (str rest : List ℕ)
    → drop i str ≡ c ∷ rest
    → take (suc i) str ≡ take i str ++ (c ∷ [])
take_next zero c [] rest h = ground arith
take_next zero c (x ∷ xs) rest h = ground arith
take_next (suc i) c [] rest h = ground arith
take_next (suc i) c (x ∷ xs) rest h = ap (λ ys. x ∷ ys) (take_next i c xs rest h)

drop_next : (i c : ℕ) (str rest : List ℕ) → drop i str ≡ c ∷ rest → drop (suc i) str ≡ rest
drop_next zero c [] rest h = ground arith
drop_next zero c (x ∷ xs) rest h = ground arith
drop_next (suc i) c [] rest h = ground arith
drop_next (suc i) c (x ∷ xs) rest h = drop_next i c xs rest h

comments_from_lem :
    (rest : List ℕ) (i : ℕ) (str : List ℕ) (escaped quoted : Bool)
    → drop i str ≡ rest
    → ((n : ℕ) → quotes_from (i + n) str false false ≡ quotes_from n rest escaped quoted)
    → comments_from rest i str ≡ take i str ++ uncommented rest escaped quoted
unfolding comments_from uncommented in_quotes
comments_from_lem [] i str escaped quoted at flags =
    sym (ap (λ xs. take i str ++ xs) (sym at) ∙ take-append-drop i str)
comments_from_lem (c ∷ rest) i str escaped quoted at flags =
    let inside : in_quotes str i ≡ quoted =
      ap (λ k. quotes_from k str false false) (omega arith) ∙ flags 0 in
    let kept = uncommented rest (next_escaped escaped c) (next_quoted escaped quoted c) in
    let further : comments_from rest (i + 1) str ≡ take i str ++ (c ∷ kept) =
      ap (λ k. comments_from rest k str) (omega arith)
      ∙ comments_from_lem rest (suc i) str (next_escaped escaped c) (next_quoted escaped quoted c)
          (drop_next i c str rest at)
          (λ n.
            ap (λ k. quotes_from k str false false) (omega arith)
            ∙ flags (suc n)
            ∙ quotes_from_next n c rest escaped quoted)
      ∙ ap (λ xs. xs ++ kept) (take_next i c str rest at)
      ∙ append_assoc (take i str) (c ∷ []) kept in
    elim (Bool-cases (c == 35)) [
      | inr e ↦ rw e further
      | inl e ↦ elim (Bool-cases quoted) [
        | inl q ↦
            let kept_in : Bool → List ℕ =
              (λ x. c ∷ uncommented rest (next_escaped escaped c) (next_quoted escaped x c)) in
            rw (e, inside, q)
              (subst (λ x. comments_from rest (i + 1) str ≡ take i str ++ kept_in x) q further)
        | inr q ↦ rw (e, inside, q) (sym (append-nil (take i str)))
      ]
    ]

-- `strip_back_comments`, which counts the quotes from the start of the line at each `#`, keeps what one
-- pass over the line keeps: the characters before the first `#` outside quotes, escaped or not.
pub strip_back_comments-uncommented :
    (str : List ℕ) → strip_back_comments str ≡ uncommented str false false
unfolding strip_back_comments
strip_back_comments-uncommented str =
    comments_from_lem str 0 str false false refl
      (λ n. ap (λ k. quotes_from k str false false) (omega arith))

abbrev are_spaces : List ℕ → Bool
are_spaces [] = true
are_spaces (c ∷ cs) = is_space c && are_spaces cs

are_spaces-append :
    (xs ys : List ℕ) → are_spaces xs ≡ true → are_spaces ys ≡ true → are_spaces (xs ++ ys) ≡ true
are_spaces-append [] ys h k = k
are_spaces-append (x ∷ xs) ys h k = ground (arith, are_spaces-append xs ys)

-- `kept` is `str` without the blanks at its end.
pub record Stripped (str kept : List ℕ) : Type 0 where
  pub blanks : List ℕ
  pub parts : kept ++ blanks ≡ str
  pub are_blank : are_spaces blanks ≡ true
  pub stops : (k : ℕ) → length kept ≡ suc k → is_space (get_or kept k 0) ≡ false

strip_from_lem : (n : ℕ) (str : List ℕ) → length str ≡ n → Stripped str (strip_from n str)
unfolding strip_from
strip_from_lem zero str h = record {
  blanks = [];
  parts = append-nil str;
  are_blank = refl;
  stops = λ k e. ground (arith, h, e);
}
strip_from_lem (suc back) str h = elim (Bool-cases (is_space (get_or str back 0))) [
  | inl e ↦
      let r = strip_from_lem back (take back str) (omega (arith, length-take back str)) in
      let end : drop back str ≡ get_or str back 0 ∷ [] =
        drop-cons str back 0 (omega arith)
        ∙ ap (λ xs. get_or str back 0 ∷ xs) (drop-all (back + 1) str (omega arith)) in
      subst (λ b. Stripped str (if b then strip_from back (take back str) else str)) (sym e)
        (record {
          blanks = r.blanks ++ drop back str;
          parts =
              sym (append_assoc (strip_from back (take back str)) r.blanks (drop back str))
              ∙ ap (λ xs. xs ++ drop back str) r.parts
              ∙ take-append-drop back str;
          are_blank = are_spaces-append r.blanks (drop back str) r.are_blank (rw (end, e) refl);
          stops = r.stops;
        })
  | inr e ↦
      subst (λ b. Stripped str (if b then strip_from back (take back str) else str)) (sym e)
        (record {
          blanks = [];
          parts = append-nil str;
          are_blank = refl;
          stops = λ k at.
              (let same : k ≡ back = omega arith in ap (λ i. is_space (get_or str i 0)) same ∙ e);
        })
]

-- `strip_back_whitespace` cuts off blanks only, and what it leaves is empty or ends with another character.
pub strip_back_whitespace-Stripped : (str : List ℕ) → Stripped str (strip_back_whitespace str)
unfolding strip_back_whitespace
strip_back_whitespace-Stripped str = strip_from_lem (length str) str refl
