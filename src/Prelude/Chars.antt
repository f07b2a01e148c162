-- ===== src/Prelude/Chars.antt =====
-- The C library's character classes and strings, in the C locale, over character codes.
use Prim.Native.Nat.{ℕ, ◌+◌, ◌-◌}
use mathlib.Core.Path.{◌≡◌, refl}
use mathlib.Core.Bool.{Bool, true, false, ◌&&◌, ◌||◌, not}
use mathlib.Core.List.{List, [], ◌∷◌}
use native.Mathlib.Omega.{arith}
use cs.Prelude.Compare.{leb, ◌==◌, if◌then◌else◌}

unfoldable pub is_upper : ℕ → Bool
is_upper c = leb 65 c && leb c 90

unfoldable pub is_lower : ℕ → Bool
is_lower c = leb 97 c && leb c 122

unfoldable pub is_alpha : ℕ → Bool
unfolding is_upper is_lower
is_alpha c = is_upper c || is_lower c

unfoldable pub is_digit : ℕ → Bool
is_digit c = leb 48 c && leb c 57

unfoldable pub is_alnum : ℕ → Bool
unfolding is_alpha is_digit
is_alnum c = is_alpha c || is_digit c

unfoldable pub is_space : ℕ → Bool
is_space c = (leb 9 c && leb c 13) || (c == 32)

unfoldable pub is_punct : ℕ → Bool
unfolding is_alnum
is_punct c = leb 33 c && leb c 126 && not (is_alnum c)

unfoldable pub to_lower : ℕ → ℕ
unfolding is_upper
to_lower c = if is_upper c then c + 32 else c

unfoldable pub to_upper : ℕ → ℕ
unfolding is_lower
to_upper c = if is_lower c then c - 32 else c

pub to_lower-to_upper : (c : ℕ) → to_lower (to_upper c) ≡ to_lower c
unfolding to_lower to_upper
to_lower-to_upper c = ground arith

pub to_lower-to_lower : (c : ℕ) → to_lower (to_lower c) ≡ to_lower c
unfolding to_lower
to_lower-to_lower c = ground arith

-- `strcmp(s, t) == 0`, over the characters before the terminator
unfoldable pub str_eq : List ℕ → List ℕ → Bool
str_eq [] [] = true
str_eq [] (d ∷ ds) = false
str_eq (c ∷ cs) [] = false
str_eq (c ∷ cs) (d ∷ ds) = (c == d) && str_eq cs ds

pub str_eq_sound : (s t : List ℕ) → str_eq s t ≡ true → s ≡ t
unfolding str_eq
str_eq_sound [] [] h = refl
str_eq_sound [] (d ∷ ds) h = ground arith
str_eq_sound (c ∷ cs) [] h = ground arith
str_eq_sound (c ∷ cs) (d ∷ ds) h = ground (arith, str_eq_sound cs ds)

pub str_eq_refl : (s : List ℕ) → str_eq s s ≡ true
unfolding str_eq
str_eq_refl [] = refl
str_eq_refl (c ∷ cs) = ground (arith, str_eq_refl cs)

pub str_eq_sym : (s t : List ℕ) → str_eq s t ≡ str_eq t s
unfolding str_eq
str_eq_sym [] [] = refl
str_eq_sym [] (d ∷ ds) = refl
str_eq_sym (c ∷ cs) [] = refl
str_eq_sym (c ∷ cs) (d ∷ ds) = ground (arith, str_eq_sym cs ds)
