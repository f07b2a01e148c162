-- ===== src/Sstring/Text.antt =====
-- The text that a string vector of vector/sstring.c holds, and the operations on it.
use cs.Prelude.{
  ℕ, zero, suc, ◌+◌, ◌-◌, ◌^◌, ◌≤◌, ◌<◌, ◌≡◌, ◌≢◌, refl, some, List, [], ◌∷◌, ◌++◌, arith, ◌==◌,
  length, get_or, take, drop, if◌then◌else◌, ◌∙◌, ap, sym, subst, append_assoc, append-nil,
  drop-cons, length-append, inl, inr, Bool-cases, false, ==_iff,
}
use cs.Vector
use cs.Vector.{Vector, cell}
use cs.Vector.Valid.{IsValid, create-IsValid}
use cs.Vector.Edit.{Inserted, get_lem, push_back_lem}
use cs.Sstring.{
  c_string, char_at, create, push_chars, of_cstr, push_range, append, chars_from, to_cstr, slice,
}

-- The valid vector `v`, whose copy constructor copies the element, holds the elements `xs`.
pub record Contents {E : Type 0} (d : E) (v : Vector E) (xs : List E) : Type 0 where
  pub valid : IsValid v
  pub copies : (c : E) → v.copy_constructor c ≡ c
  pub size : v.size ≡ length xs
  pub chars : (i : ℕ) → i < length xs → cell v i ≡ some (get_or xs i d)

-- a vector of characters and its text
abbrev pub Holds : Vector ℕ → List ℕ → Type 0
Holds v xs = Contents 0 v xs

get_or-snoc :
    {E : Type 0} (d : E) (xs : List E) (c : E) (i : ℕ)
    → get_or (xs ++ (c ∷ [])) i d ≡ (if i == length xs then c else get_or xs i d)
get_or-snoc d [] c zero = refl
get_or-snoc d [] c (suc i) = ground arith
get_or-snoc d (x ∷ xs) c zero = ground arith
get_or-snoc d (x ∷ xs) c (suc i) = ground (arith, get_or-snoc d xs c i)

-- a fresh vector, with callbacks that copy
pub create-Contents :
    {E : Type 0} {d : E} (copy : E → E) (default : E)
    → ((c : E) → copy c ≡ c)
    → Contents d (Vector.create copy default (some copy) (some default)) []
unfolding Vector.create
create-Contents copy default copies = record {
  valid = (create-IsValid copy default (some copy) (some default)).0;
  copies = copies;
  size = refl;
  chars = λ i h. elim h [ ];
}

pub char_at-Holds :
    {v : Vector ℕ} {xs : List ℕ} (i : ℕ)
    → Holds v xs
    → i < length xs
    → char_at v i ≡ some (get_or xs i 0)
unfolding char_at
char_at-Holds {v} i h l = rw (get_lem v i (omega (arith, h.size))) (h.chars i l)

pub Contents-push_back :
    {E : Type 0} {d : E} {v : Vector E} {xs : List E} (c : E)
    → Contents d v xs
    → length xs < 2 ^ 60
    → (w : Vector E) × (Vector.push_back v c ≡ some w) × Contents d w (xs ++ (c ∷ []))
Contents-push_back {E} {d} {v} {xs} c h small =
    let (w, r, new) = push_back_lem v c h.valid (omega (arith, h.size)) in (w, r, pushed w new)
  where
    pushed : (w : Vector E) → Inserted v v.size c w → Contents d w (xs ++ (c ∷ []))
    pushed w new = record {
      valid = new.valid;
      copies = λ k. ap (λ f. f k) new.callbacks.copy ∙ h.copies k;
      size = omega (arith, new.size, h.size, length-append xs (c ∷ []));
      chars = λ i l. elim (Bool-cases (i == length xs)) [
        | inl at ↦
            let e : i ≡ v.size = (==_iff i (length xs)).0 at ∙ sym h.size in
            rw (get_or-snoc d xs c i, at) (rw e (new.new ∙ ap some (h.copies c)))
        | inr inside ↦
            rw (get_or-snoc d xs c i, inside)
              (new.before i (below i l inside) ∙ h.chars i (below_length i l inside))
      ];
    }
      where
        below_length :
            (i : ℕ) → i < length (xs ++ (c ∷ [])) → (i == length xs) ≡ false → i < length xs
        below_length i l ne = ground (arith, length-append xs (c ∷ []))

        below : (i : ℕ) → i < length (xs ++ (c ∷ [])) → (i == length xs) ≡ false → i < v.size
        below i l ne = omega (arith, below_length i l ne, h.size)

pub push_chars-Holds :
    (cs : List ℕ) {v : Vector ℕ} {xs : List ℕ}
    → Holds v xs
    → length xs + length cs ≤ 2 ^ 60
    → (w : Vector ℕ) × (push_chars v cs ≡ some w) × Holds w (xs ++ cs)
unfolding push_chars
push_chars-Holds [] {v} {xs} h small = (v, refl, rw append-nil h)
push_chars-Holds (c ∷ cs) {v} {xs} h small =
    let (w, r, k) = Contents-push_back c h (omega arith) in
    let (u, r', k') = push_chars-Holds cs k (omega (arith, length-append xs (c ∷ []))) in
    (u, rw r r', rw (append_assoc xs (c ∷ []) cs) at k')

take-drop-cons :
    (xs : List ℕ) (n i : ℕ)
    → i < length xs
    → take (suc n) (drop i xs) ≡ get_or xs i 0 ∷ take n (drop (i + 1) xs)
take-drop-cons xs n i h = rw (drop-cons xs i 0 h)

pub push_range-Holds :
    (n i : ℕ) {v s : Vector ℕ} {xs ys : List ℕ}
    → Holds v xs
    → Holds s ys
    → i + n ≤ length ys
    → length xs + n ≤ 2 ^ 60
    → (w : Vector ℕ) × (push_range n i v s ≡ some w) × Holds w (xs ++ take n (drop i ys))
unfolding push_range
push_range-Holds zero i {v} {s} {xs} {ys} h g fits small = (v, refl, rw append-nil h)
push_range-Holds (suc n) i {v} {s} {xs} {ys} h g fits small =
    let c = get_or ys i 0 in
    let (w, r, k) = Contents-push_back c h (omega arith) in
    let (u, r', k') =
      push_range-Holds n (i + 1) k g (omega arith) (omega (arith, length-append xs (c ∷ []))) in
    (
      u,
      rw (char_at-Holds i g (omega arith), r) r',
      rw (take-drop-cons ys n i (omega arith)) (rw (append_assoc xs (c ∷ [])) at k'),
    )

pub chars_from_lem :
    {v : Vector ℕ} {xs : List ℕ} (n i : ℕ)
    → Holds v xs
    → i + n ≤ length xs
    → chars_from n i v ≡ some (take n (drop i xs))
unfolding chars_from
chars_from_lem zero i h fits = refl
chars_from_lem {xs} (suc n) i h fits = rw (
  char_at-Holds i h (omega arith),
  chars_from_lem n (i + 1) h (omega arith),
  take-drop-cons xs n i (omega arith),
)

-- No character of the list is `k`.
abbrev pub Avoids : ℕ → List ℕ → Type 0
Avoids k [] = Unit
Avoids k (c ∷ cs) = (c ≢ k) × Avoids k cs

c_string-append : (cs rest : List ℕ) → Avoids 0 cs → c_string (cs ++ rest) ≡ cs ++ c_string rest
unfolding c_string
c_string-append [] rest h = refl
c_string-append (c ∷ cs) rest h = ground (arith, c_string-append cs rest)

pub take_all : (xs : List ℕ) → take (length xs) xs ≡ xs
take_all [] = refl
take_all (x ∷ xs) = ap (λ ys. x ∷ ys) (take_all xs)

pub chars_all : {v : Vector ℕ} {xs : List ℕ} → Holds v xs → chars_from v.size 0 v ≡ some xs
chars_all {v} {xs} h =
    subst (λ n. chars_from n 0 v ≡ some xs) (sym h.size)
      (chars_from_lem (length xs) 0 h (omega arith) ∙ ap some (take_all xs))

pub push_range_all :
    {v s : Vector ℕ} {xs ys : List ℕ}
    → Holds v xs
    → Holds s ys
    → length xs + length ys ≤ 2 ^ 60
    → (w : Vector ℕ) × (push_range s.size 0 v s ≡ some w) × Holds w (xs ++ ys)
push_range_all {v} {s} {xs} {ys} h g small =
    let (w, r, k) = push_range-Holds (length ys) 0 h g (omega arith) small in
    (
      w,
      subst (λ n. push_range n 0 v s ≡ some w) (sym g.size) r,
      subst (λ zs. Holds w (xs ++ zs)) (take_all ys) k,
    )

-- The C string that `sstring_to_cstr` returns for a text without zero characters is the text and,
-- behind it, whatever bytes the fresh memory has from there to its first 0: it writes no terminator.
pub to_cstr_lem :
    {v : Vector ℕ} {xs : List ℕ} (memory : List ℕ)
    → Holds v xs
    → Avoids 0 xs
    → to_cstr v memory ≡ some (xs ++ c_string (drop (length xs) memory))
unfolding to_cstr
to_cstr_lem {v} {xs} memory h clean = rw (chars_all h) (
    ap (λ n. some (c_string (xs ++ drop n memory))) h.size
    ∙ ap some (c_string-append xs (drop (length xs) memory) clean))

-- Appending one string to another returns the total length and leaves the concatenated text.
pub append-Holds :
    {v a : Vector ℕ} {xs ys : List ℕ}
    → Holds v xs
    → Holds a ys
    → length xs + length ys ≤ 2 ^ 60
    → (w : Vector ℕ) × (append v a ≡ some (length xs + length ys, w)) × Holds w (xs ++ ys)
unfolding append
append-Holds {v} {a} {xs} {ys} h g small =
    let (w, r, k) = push_range_all h g small in
    (w, rw r (ap (λ n. some (n, w)) (k.size ∙ length-append xs ys)), k)

-- The callbacks of the header, with what its documentation says of the one for characters.
module _ (shallow_copy : ℕ → ℕ) (shallow_default : ℕ) (char_copy : ℕ → ℕ) (char_default : ℕ)
    (copies : (c : ℕ) → char_copy c ≡ c) where
  pub create-Holds : Holds (create shallow_copy shallow_default char_copy char_default) []
  unfolding create Vector.create
  create-Holds = record {
    valid = (create-IsValid shallow_copy shallow_default (some char_copy) (some char_default)).0;
    copies = copies;
    size = refl;
    chars = λ i h. elim h [ ];
  }

  -- `cstr_to_sstring` makes the string of the characters of its argument.
  pub of_cstr-Holds :
      (input : List ℕ)
      → length input ≤ 2 ^ 60
      → (w : Vector ℕ) × (of_cstr shallow_copy shallow_default char_copy char_default input
          ≡ some w)
        × Holds w input
  unfolding of_cstr
  of_cstr-Holds input small = push_chars-Holds input create-Holds (omega arith)

  -- The C string of a slice is the characters from `start` to `end`, and behind them the bytes of the
  -- fresh memory up to its first 0.
  pub slice_lem :
      {v : Vector ℕ} {xs : List ℕ} (start end : ℕ) (memory : List ℕ)
      → Holds v xs
      → start ≤ end
      → end ≤ length xs
      → length xs ≤ 2 ^ 60
      → Avoids 0 (take (end - start) (drop start xs))
      → slice shallow_copy shallow_default char_copy char_default v start end memory
        ≡ some (
            take (end - start) (drop start xs)
            ++ c_string (drop (length (take (end - start) (drop start xs))) memory))
  unfolding slice
  slice_lem {v} {xs} start end memory h order inside small clean =
      let (w, r, k) =
        push_range-Holds (end - start) start create-Holds h (omega arith) (omega arith) in
      rw r (to_cstr_lem memory k clean)
