-- ===== src/Sstring/Split.antt =====
-- `sstring_split` of vector/sstring.c against joining by the delimiter.
use cs.Prelude.{
  ℕ, zero, suc, ◌+◌, ◌^◌, ◌≤◌, ◌<◌, ◌≡◌, ◌≢◌, refl, true, false, some, List, [], ◌∷◌, ◌++◌, arith,
  ◌==◌, length, get_or, drop, if◌then◌else◌, ◌∙◌, ap, sym, subst, append_assoc, append-nil,
  drop-cons, inl, inr, Bool-cases, ==_iff, length-append,
}
use cs.Vector
use cs.Vector.{Vector, cell}
use cs.Vector.Edit.{clear_lem}
use cs.Sstring.{c_string, create, split_from, split, char_at}
use cs.Sstring.Text.{
  Contents, create-Contents, Holds, Contents-push_back, char_at-Holds, to_cstr_lem, Avoids,
  create-Holds,
}

-- The words of a text: `w` is the word begun.
pub words : ℕ → List ℕ → List ℕ → List (List ℕ)
words d w [] = w ∷ []
words d w (c ∷ cs) = if c == d then w ∷ words d [] cs else words d (w ++ (c ∷ [])) cs

-- The words with the delimiter between them.
unfoldable pub join : ℕ → List (List ℕ) → List ℕ
join d [] = []
join d (w ∷ []) = w
join d (w ∷ u ∷ us) = w ++ (d ∷ join d (u ∷ us))

abbrev pub AllAvoid : ℕ → List (List ℕ) → Type 0
AllAvoid d [] = Unit
AllAvoid d (w ∷ ws) = Avoids d w × AllAvoid d ws

words-cons : (d : ℕ) (w cs : List ℕ) → (u : List ℕ) × (us : List (List ℕ)) × (words d w cs ≡ u ∷ us)
unfolding words
words-cons d w [] = (w, [], refl)
words-cons d w (c ∷ cs) = elim (Bool-cases (c == d)) [
  | inl at ↦ (w, words d [] cs, rw at)
  | inr inside ↦ let (u, us, e) = words-cons d (w ++ (c ∷ [])) cs in (u, us, rw inside e)
]

join-cons :
    (d : ℕ) (w : List ℕ) (ws : List (List ℕ)) {u : List ℕ} {us : List (List ℕ)}
    → ws ≡ u ∷ us
    → join d (w ∷ ws) ≡ w ++ (d ∷ join d ws)
unfolding join
join-cons d w ws e = rw e

join-words : (d : ℕ) (w cs : List ℕ) → join d (words d w cs) ≡ w ++ cs
unfolding words
join-words d w [] = unfold join in sym (append-nil w)
join-words d w (c ∷ cs) = elim (Bool-cases (c == d)) [
  | inl at ↦
      let (u, us, e) = words-cons d [] cs in
      rw at (
        join-cons d w (words d [] cs) e
        ∙ ap (λ k. w ++ (d ∷ k)) (join-words d [] cs)
        ∙ ap (λ k. w ++ (k ∷ cs)) (sym ((==_iff c d).0 at)))
  | inr inside ↦ rw inside (join-words d (w ++ (c ∷ [])) cs ∙ append_assoc w (c ∷ []) cs)
]

Avoids-snoc : (d : ℕ) (w : List ℕ) (c : ℕ) → Avoids d w → c ≢ d → Avoids d (w ++ (c ∷ []))
Avoids-snoc d [] c h ne = (ne, tt)
Avoids-snoc d (x ∷ w) c h ne = (h.0, Avoids-snoc d w c h.1 ne)

AllAvoid-words : (d : ℕ) (w cs : List ℕ) → Avoids d w → AllAvoid d (words d w cs)
unfolding words
AllAvoid-words d w [] h = (h, tt)
AllAvoid-words d w (c ∷ cs) h = elim (Bool-cases (c == d)) [
  | inl at ↦ rw at (h, AllAvoid-words d [] cs tt)
  | inr inside ↦
      rw inside (AllAvoid-words d (w ++ (c ∷ [])) cs (Avoids-snoc d w c h (λ e. ground arith)))
]

-- The C string of a word: nothing ends it, so that what the memory holds behind it belongs to it, up to
-- the first 0 there.
abbrev pub string_of : (memory : List ℕ) → (word : List ℕ) → List ℕ
string_of memory word = word ++ c_string (drop (length word) memory)

-- `strings` are the C strings of `words`, each in some memory that `malloc` returned.
abbrev pub AreStrings : (ℕ → List ℕ) → (words strings : List (List ℕ)) → Type 0
AreStrings memory [] [] = Unit
AreStrings memory [] (s ∷ ss) = ⊥
AreStrings memory (w ∷ ws) [] = ⊥
AreStrings memory (w ∷ ws) (s ∷ ss) =
    ((k : ℕ) × (s ≡ string_of (memory k) w)) × AreStrings memory ws ss

-- the strings that the loop makes from character `i` on, with the word `w` begun
strings : (d : ℕ) → (ℕ → List ℕ) → (i : ℕ) → (w cs : List ℕ) → List (List ℕ)
strings d memory i w [] = string_of (memory i) w ∷ []
strings d memory i w (c ∷ cs) =
    let next = strings d memory (i + 1) [] cs in
    let more = strings d memory (i + 1) (w ++ (c ∷ [])) cs in
    if c == d then string_of (memory i) w ∷ next else more

words-AreStrings :
    (d : ℕ) (memory : ℕ → List ℕ) (i : ℕ) (w cs : List ℕ)
    → AreStrings memory (words d w cs) (strings d memory i w cs)
unfolding words strings
words-AreStrings d memory i w [] = ((i, refl), tt)
words-AreStrings d memory i w (c ∷ cs) = elim (Bool-cases (c == d)) [
  | inl at ↦ rw at ((i, refl), words-AreStrings d memory (i + 1) [] cs)
  | inr inside ↦ rw inside (words-AreStrings d memory (i + 1) (w ++ (c ∷ [])) cs)
]

clear-Holds :
    {v : Vector ℕ} {xs : List ℕ}
    → Holds v xs
    → (w : Vector ℕ) × (Vector.clear v ≡ some w) × Holds w []
clear-Holds {v} h =
    let (r, valid) = clear_lem v h.valid in
    (_, r, record { valid = valid; copies = h.copies; size = refl; chars = λ i l. elim l [ ] })

Avoids-get_or : (xs : List ℕ) (i : ℕ) → Avoids 0 xs → i < length xs → get_or xs i 0 ≢ 0
Avoids-get_or [] i h l = elim l [ ]
Avoids-get_or (x ∷ xs) zero h l = h.0
Avoids-get_or (x ∷ xs) (suc i) h l = Avoids-get_or xs i h.1 (omega arith)

split_last :
    (v word : Vector ℕ) {ws : List ℕ} (split split' : Vector (List ℕ)) (i d : ℕ)
    (memory : ℕ → List ℕ)
    → Holds word ws
    → Avoids 0 ws
    → Vector.push_back split (string_of (memory i) ws) ≡ some split'
    → split_from 0 i v d memory word split ≡ some split'
unfolding split_from
split_last v word split split' i d memory h clean e = rw (to_cstr_lem (memory i) h clean) e

split_at :
    (v word cleared : Vector ℕ) {ws : List ℕ} (split split' : Vector (List ℕ)) (n i c d : ℕ)
    (memory : ℕ → List ℕ)
    → Holds word ws
    → Avoids 0 ws
    → char_at v i ≡ some c
    → (c == d) ≡ true
    → Vector.push_back split (string_of (memory i) ws) ≡ some split'
    → Vector.clear word ≡ some cleared
    → split_from (suc n) i v d memory word split ≡ split_from n (i + 1) v d memory cleared split'
unfolding split_from
split_at v word cleared split split' n i c d memory h clean here at e r =
    rw (here, at, to_cstr_lem (memory i) h clean, e, r, split_from) refl

split_inside :
    (v word longer : Vector ℕ) (split : Vector (List ℕ)) (n i c d : ℕ) (memory : ℕ → List ℕ)
    → char_at v i ≡ some c
    → (c == d) ≡ false
    → Vector.push_back word c ≡ some longer
    → split_from (suc n) i v d memory word split ≡ split_from n (i + 1) v d memory longer split
unfolding split_from
split_inside v word longer split n i c d memory here inside e =
    rw (here, inside, e, split_from) refl

drop_end : (ys : List ℕ) (j : ℕ) → length ys ≤ j → drop j ys ≡ []
drop_end [] zero l = refl
drop_end [] (suc j) l = refl
drop_end (y ∷ ys) zero l = absurd (omega arith)
drop_end (y ∷ ys) (suc j) l = drop_end ys j (omega arith)

-- What the loop returns from character `i` on.
abbrev Splits :
    (n i : ℕ)
    → Vector ℕ
    → (d : ℕ) → (ℕ → List ℕ)
    → Vector ℕ
    → Vector (List ℕ)
    → List (List ℕ)
    → Type 0
Splits n i v d memory word split parts =
    (out : Vector (List ℕ)) × (split_from n i v d memory word split ≡ some out)
    × Contents [] out parts

split_from_lem :
    (n i : ℕ) {v word : Vector ℕ} {xs ws : List ℕ} (d : ℕ) (memory : ℕ → List ℕ)
    {split : Vector (List ℕ)} (done : List (List ℕ))
    → Holds v xs
    → Avoids 0 xs
    → Holds word ws
    → Avoids 0 ws
    → Contents [] split done
    → i + n ≡ length xs
    → length ws + n ≤ 2 ^ 60
    → length done + n < 2 ^ 60
    → Splits n i v d memory word split (done ++ strings d memory i ws (drop i xs))
unfolding strings
split_from_lem zero i {v} {word} {xs} {ws} d memory {split} done h clean hw cleanw hs fits small
      few =
    let (out, e, k) = Contents-push_back (string_of (memory i) ws) hs (omega (arith, few)) in
    (
      out,
      split_last v word split out i d memory hw cleanw e,
      subst (λ rest. Contents [] out (done ++ strings d memory i ws rest))
          (sym (drop_end xs i (omega (arith, fits)))) k,
    )
split_from_lem (suc n) i {v} {word} {xs} {ws} d memory {split} done h clean hw cleanw hs fits small
      few =
    let c = get_or xs i 0 in
    let here = char_at-Holds i h (omega (arith, fits)) in
    let rest = drop-cons xs i 0 (omega (arith, fits)) in
    let s = string_of (memory i) ws in
    let goal = Splits (suc n) i v d memory word split in
    elim (Bool-cases (c == d)) [
      | inl at ↦
          let (cleared, rc, kc) = clear-Holds hw in
          let (split', e, ks) = Contents-push_back s hs (omega (arith, few)) in
          let (out, r, k) =
            split_from_lem n (i + 1) d memory (done ++ (s ∷ [])) h clean kc tt ks
              (omega (arith, fits)) (omega (arith, small))
              (omega (arith, few, length-append done (s ∷ []))) in
          subst (λ l. goal (done ++ strings d memory i ws l)) (sym rest)
            (
              out,
              split_at v word cleared split split' n i c d memory hw cleanw here at e rc ∙ r,
              rw at (
                  rw (append_assoc done (s ∷ []) (strings d memory (i + 1) [] (drop (i + 1) xs))) at
                    k),
            )
      | inr inside ↦
          let (longer, rp, kp) = Contents-push_back c hw (omega (arith, small)) in
          let (out, r, k) =
            split_from_lem n (i + 1) d memory done h clean kp
              (Avoids-snoc 0 ws c cleanw (Avoids-get_or xs i clean (omega (arith, fits)))) hs
              (omega (arith, fits)) (omega (arith, small, length-append ws (c ∷ [])))
              (omega (arith, few)) in
          subst (λ l. goal (done ++ strings d memory i ws l)) (sym rest)
            (out, split_inside v word longer split n i c d memory here inside rp ∙ r, rw inside k)
    ]

-- Splitting a text without zero characters and of fewer than 2 ^ 60 characters, with callbacks that copy,
-- fills a vector with one string for each word: the words contain no delimiter, and joined by it they are
-- the text. A string is the word and what the memory that malloc returned holds behind it up to a 0.
pub split_lem :
    (shallow_copy : ℕ → ℕ) (shallow_default : ℕ) (char_copy : ℕ → ℕ) (char_default : ℕ)
    (string_copy : List ℕ → List ℕ) (string_default : List ℕ)
    → ((c : ℕ) → char_copy c ≡ c)
    → ((s : List ℕ) → string_copy s ≡ s)
    → {v : Vector ℕ} {xs : List ℕ} (d : ℕ) (memory : ℕ → List ℕ) → Holds v xs
    → Avoids 0 xs
    → length xs < 2 ^ 60
    → (out : Vector (List ℕ)) × (parts ws : List (List ℕ)) × (split shallow_copy shallow_default
          char_copy char_default string_copy string_default v d memory
        ≡ some out)
      × Contents [] out parts
      × AreStrings memory ws parts
      × (join d ws ≡ xs)
      × AllAvoid d ws
unfolding split
split_lem sc sd cc cd tc td copies copies_strings {v} {xs} d memory h clean small =
    let empty_ = create-Contents {d = []} tc td copies_strings in
    let (out, e, k) =
      split_from_lem (length xs) 0 d memory [] h clean (create-Holds sc sd cc cd copies) tt empty_
        (omega arith) (omega (arith, small)) (omega (arith, small)) in
    (
      out,
      strings d memory 0 [] xs,
      words d [] xs,
      subst
          (λ n.
            split_from n 0 v d memory (create sc sd cc cd) (Vector.create tc td (some tc) (some td))
            ≡ some out)
          (sym h.size) e,
      k,
      words-AreStrings d memory 0 [] xs,
      join-words d [] xs,
      AllAvoid-words d [] xs tt,
    )
