-- ===== src/CamelCaser/Fold.antt =====
-- What camelCaser.c keeps of the text: its sentences, up to case and without the spaces.
use cs.Prelude.{
  ℕ, ◌+◌, ◌*◌, ◌^◌, ◌<◌, ◌≤◌, ltb, length, length-append, ◌≡◌, refl, some, List, [], ◌∷◌, ◌++◌,
  Bool, true, false, if◌then◌else◌, arith, Bool-cases, inl, inr, map, ap, ◌∙◌,
}
use cs.Prelude.Chars.{is_punct, is_space, to_lower, to_upper, to_lower-to_upper, to_lower-to_lower}
use cs.CamelCaser.{
  last_capacity, all_short, fits_buffers, Word, fresh, step, scan, drop_last, ends_in_punct,
  camel_caser,
}

-- The characters up to each punctuation mark, without the spaces and in lower case; what stands
-- behind the last mark is no sentence.
pub sentences : List ℕ → List ℕ → List (List ℕ)
sentences begun [] = []
sentences begun (c ∷ cs) =
    let next = sentences [] cs in
    let more = sentences (if is_space c then begun else begun ++ (to_lower c ∷ [])) cs in
    if is_punct c then begun ∷ next else more

map-snoc : (f : ℕ → ℕ) (xs : List ℕ) (x : ℕ) → map f (xs ++ (x ∷ [])) ≡ map f xs ++ (f x ∷ [])
map-snoc f [] x = refl
map-snoc f (y ∷ ys) x = ap (λ zs. f y ∷ zs) (map-snoc f ys x)

step_text :
    (w : Word) (c : ℕ)
    → map to_lower (step w c).text
      ≡ (if is_space c then map to_lower w.text else map to_lower w.text ++ (to_lower c ∷ []))
unfolding step
step_text w c = ground (
  arith,
  map-snoc to_lower w.text (to_upper c),
  map-snoc to_lower w.text (to_lower c),
  map-snoc to_lower w.text c,
  to_lower-to_upper c,
  to_lower-to_lower c,
)

scan_ends :
    (begun : Bool) (w : Word) (c : ℕ) (cs : List ℕ)
    → ends_in_punct (c ∷ cs) ≡ true
    → map (map to_lower) (scan begun w (c ∷ cs)) ≡ sentences (map to_lower w.text) (c ∷ cs)
unfolding scan sentences ends_in_punct
scan_ends begun w c [] h = ground arith
scan_ends begun w c (d ∷ cs) h = elim (Bool-cases (is_punct c)) [
  | inl mark ↦ rw mark (ap (λ ws. map to_lower w.text ∷ ws) (scan_ends false fresh d cs h))
  | inr other ↦
      rw other (scan_ends true (step w c) d cs h ∙ ap (λ t. sentences t (d ∷ cs)) (step_text w c))
]

scan_cons :
    (w : Word) (cs : List ℕ) → (u : List ℕ) × (us : List (List ℕ)) × (scan true w cs ≡ u ∷ us)
unfolding scan
scan_cons w [] = (w.text, [], refl)
scan_cons w (c ∷ cs) = elim (Bool-cases (is_punct c)) [
  | inl mark ↦ (w.text, scan false fresh cs, rw mark)
  | inr other ↦ let (u, us, e) = scan_cons (step w c) cs in (u, us, rw other e)
]

drop_last-cons :
    (w : List ℕ) (ws : List (List ℕ)) {u : List ℕ} {us : List (List ℕ)}
    → ws ≡ u ∷ us
    → drop_last (w ∷ ws) ≡ w ∷ drop_last ws
unfolding drop_last
drop_last-cons w ws e = rw e

scan_nonempty :
    (begun : Bool) (c : ℕ) (cs : List ℕ)
    → (u : List ℕ) × (us : List (List ℕ)) × (scan begun fresh (c ∷ cs) ≡ u ∷ us)
unfolding scan
scan_nonempty begun c cs = elim (Bool-cases (is_punct c)) [
  | inl mark ↦ (fresh.text, scan false fresh cs, rw mark)
  | inr other ↦ let (u, us, e) = scan_cons (step fresh c) cs in (u, us, rw other e)
]

scan_open :
    (begun : Bool) (w : Word) (c : ℕ) (cs : List ℕ)
    → ends_in_punct (c ∷ cs) ≡ false
    → map (map to_lower) (drop_last (scan begun w (c ∷ cs)))
      ≡ sentences (map to_lower w.text) (c ∷ cs)
unfolding scan sentences ends_in_punct
scan_open begun w c [] h = rw h (unfold drop_last in refl)
scan_open begun w c (d ∷ cs) h = elim (Bool-cases (is_punct c)) [
  | inl mark ↦
      let (u, us, e) = scan_nonempty false d cs in
      rw mark (
        ap (map (map to_lower)) (drop_last-cons w.text (scan false fresh (d ∷ cs)) e)
        ∙ ap (λ ws. map to_lower w.text ∷ ws) (scan_open false fresh d cs h))
  | inr other ↦
      rw other (scan_open true (step w c) d cs h ∙ ap (λ t. sentences t (d ∷ cs)) (step_text w c))
]

step_longer : (w : Word) (c : ℕ) → length (step w c).text ≤ length w.text + 1
unfolding step
step_longer w c = ground (
  arith,
  length-append w.text (to_upper c ∷ []),
  length-append w.text (to_lower c ∷ []),
  length-append w.text (c ∷ []),
)

length-scan :
    (begun : Bool) (w : Word) (cs : List ℕ)
    → length (scan begun w cs) ≤ length cs + (if begun then 1 else 0)
unfolding scan
length-scan true w [] = omega arith
length-scan false w [] = omega arith
length-scan begun w (c ∷ cs) = elim (Bool-cases (is_punct c)) [
  | inl mark ↦ rw mark (ground (arith, length-scan false fresh cs))
  | inr other ↦ rw other (ground (arith, length-scan true (step w c) cs))
]

all_short-scan :
    (begun : Bool) (w : Word) (cs : List ℕ)
    → length w.text + length cs < last_capacity
    → all_short (scan begun w cs) ≡ true
unfolding scan
all_short-scan true w [] h = ground arith
all_short-scan false w [] h = refl
all_short-scan begun w (c ∷ cs) h = elim (Bool-cases (is_punct c)) [
  | inl mark ↦ rw mark (ground (arith, all_short-scan false fresh cs (omega (arith, h))))
  | inr other ↦ rw other (all_short-scan true (step w c) cs (omega (arith, h, step_longer w c)))
]

fits_buffers-scan :
    (cs : List ℕ) → length cs < last_capacity → fits_buffers (scan false fresh cs) ≡ true
unfolding fits_buffers
fits_buffers-scan cs h =
    ground (arith, length-scan false fresh cs, all_short-scan false fresh cs (omega (arith, h)))

fitting :
    (c : ℕ) (cs : List ℕ)
    → length (c ∷ cs) < last_capacity
    → camel_caser (c ∷ cs)
      ≡ some (
          if ends_in_punct (c ∷ cs)
          then scan false fresh (c ∷ cs)
          else drop_last (scan false fresh (c ∷ cs)))
unfolding camel_caser
fitting c cs h =
    let int : ltb (length (c ∷ cs)) (2 ^ 31) ≡ true = ground arith in
    rw (int, fits_buffers-scan (c ∷ cs) h, camel_caser) refl

-- For every text that is not empty, of less than 10 * 2 ^ 27 characters, `camel_caser` returns one string
-- for each punctuation mark: up to case, the characters between the marks without the spaces; what stands
-- behind the last mark is dropped.
pub camel_caser-sentences :
    (c : ℕ) (cs : List ℕ)
    → length (c ∷ cs) < 10 * 2 ^ 27
    → (out : List (List ℕ)) × (camel_caser (c ∷ cs) ≡ some out)
      × (map (map to_lower) out ≡ sentences [] (c ∷ cs))
camel_caser-sentences c cs small = elim (Bool-cases (ends_in_punct (c ∷ cs))) [
  | inl ends ↦ (
    scan false fresh (c ∷ cs),
    fitting c cs small
        ∙ ap
            (λ b.
              some (if b then scan false fresh (c ∷ cs) else drop_last (scan false fresh (c ∷ cs))))
            ends,
    scan_ends false fresh c cs ends,
  )
  | inr open_end ↦ (
    drop_last (scan false fresh (c ∷ cs)),
    fitting c cs small
        ∙ ap
            (λ b.
              some (if b then scan false fresh (c ∷ cs) else drop_last (scan false fresh (c ∷ cs))))
            open_end,
    scan_open false fresh c cs open_end,
  )
]
