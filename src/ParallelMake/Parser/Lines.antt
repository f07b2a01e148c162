-- ===== src/ParallelMake/Parser/Lines.antt =====
-- What the parser of parallel_make/parser.c takes the lines of a written Makefile for.
use cs.Prelude.{
  ℕ, zero, suc, ◌+◌, ◌-◌, ◌<◌, ◌≡◌, refl, some, Bool, true, false, ◌==◌, ◌&&◌, not, if◌then◌else◌,
  List, [], ◌∷◌, ◌++◌, length, get_or, take, drop, arith, ap, subst, ◌∙◌, length-append, take-all,
}
use cs.Prelude.Chars.{is_space}
use cs.MakefileText.{
  is_makefile_target, skip_whitespace, find_whitespace, terminate_whitespace, strip_from,
  strip_back_whitespace, strip_back_comments, comments_from,
}
use cs.MakefileText.Joined.{is_plain, IsWord, AreWords, spaced_out, split_line_on_spaces-spaced_out}
use cs.ParallelMake.{Text}
use cs.ParallelMake.Parser.{recipe, rule, chomp, find_colon, rule_line, classify, words}

abbrev no_hash : Text → Bool
no_hash [] = true
no_hash (c ∷ cs) = not (c == 35) && no_hash cs

abbrev no_colon : Text → Bool
no_colon [] = true
no_colon (c ∷ cs) = not (c == 58) && no_colon cs

abbrev last_of : Text → ℕ
last_of s = get_or s (length s - 1) 32

-- The text of a line: it neither starts nor ends with a blank, and has no comment.
pub record IsTrimmed (s : Text) : Type 0 where
  pub first : is_space (get_or s 0 32) ≡ false
  pub last : is_space (last_of s) ≡ false
  pub bare : no_hash s ≡ true

-- a name that can stand in front of the colon of a rule
pub record IsTarget (s : Text) : Type 0 where
  pub word : IsWord s
  pub colon_free : no_colon s ≡ true
  pub start : is_makefile_target s ≡ true

comments_from-no_hash :
    (rest : Text) (i : ℕ) (str : Text) → no_hash rest ≡ true → comments_from rest i str ≡ str
unfolding comments_from
comments_from-no_hash [] i str h = refl
comments_from-no_hash (c ∷ cs) i str h = ground (arith, comments_from-no_hash cs (i + 1) str)

find_colon-append :
    (s rest : Text) → no_colon s ≡ true → find_colon (s ++ 58 ∷ rest) ≡ some (length s)
unfolding find_colon
find_colon-append [] rest h = refl
find_colon-append (c ∷ cs) rest h =
    let other : (c == 58) ≡ false = ground arith in
    let further : no_colon cs ≡ true = ground arith in
    rw (other, find_colon-append cs rest further, find_colon) refl

take-front : (s rest : Text) → take (length s) (s ++ rest) ≡ s
take-front [] rest = refl
take-front (c ∷ cs) rest = ap (λ l. c ∷ l) (take-front cs rest)

drop-front : (s : Text) (c : ℕ) (rest : Text) → drop (suc (length s)) (s ++ c ∷ rest) ≡ rest
drop-front [] c rest = refl
drop-front (b ∷ bs) c rest = drop-front bs c rest

get_or-front : (s : Text) (c : ℕ) (rest : Text) (d : ℕ) → get_or (s ++ c ∷ rest) (length s) d ≡ c
get_or-front [] c rest d = refl
get_or-front (b ∷ bs) c rest d = get_or-front bs c rest d

find_whitespace-word : (s : Text) → is_plain s ≡ true → find_whitespace s ≡ length s
unfolding find_whitespace
find_whitespace-word [] h = refl
find_whitespace-word (c ∷ cs) h =
    let other : is_space c ≡ false = ground arith in
    let further : is_plain cs ≡ true = ground arith in
    rw (other, find_whitespace) (ap suc (find_whitespace-word cs further))

terminate_whitespace-word : (s : Text) → is_plain s ≡ true → terminate_whitespace s ≡ s
unfolding terminate_whitespace
terminate_whitespace-word s h = rw (find_whitespace-word s h) (take-all (length s) s (omega arith))

-- the last character, where the line is read with another default
get_or_default : (s : Text) (i d e : ℕ) → i < length s → get_or s i d ≡ get_or s i e
get_or_default [] i d e h = absurd (omega arith)
get_or_default (c ∷ cs) zero d e h = refl
get_or_default (c ∷ cs) (suc i) d e h = get_or_default cs i d e (omega arith)

strip_back_whitespace-trimmed :
    (s : Text) → is_space (last_of s) ≡ false → strip_back_whitespace s ≡ s
unfolding strip_back_whitespace strip_from
strip_back_whitespace-trimmed [] h = refl
strip_back_whitespace-trimmed (c ∷ cs) h =
    let e : length (c ∷ cs) - 1 ≡ length cs = omega arith in
    let last : is_space (get_or (c ∷ cs) (length cs) 0) ≡ false =
      ap is_space (get_or_default (c ∷ cs) (length cs) 0 32 (omega arith))
      ∙ subst (λ n. is_space (get_or (c ∷ cs) n 32) ≡ false) e h in
    ap (λ b. if b then strip_from (length cs) (take (length cs) (c ∷ cs)) else c ∷ cs) last

-- What `chomp` cuts off a line with a newline.
cut_return : (n : ℕ) → Text → Text
cut_return n line = if get_or line (n - 1) 0 == 13 then take (n - 1) line else line

chomp-cut : (s : Text) → chomp (s ++ 10 ∷ []) ≡ cut_return (length s) s
unfolding chomp cut_return
chomp-cut s =
    let e : length (s ++ 10 ∷ []) - 1 ≡ length s = omega (arith, length-append s (10 ∷ [])) in
    rw (e, get_or-front s 10 [] 0, take-front s (10 ∷ [])) refl

no_return : (s : Text) → is_space (last_of s) ≡ false → (get_or s (length s - 1) 0 == 13) ≡ false
unfolding is_space
no_return [] h = refl
no_return (c ∷ cs) h =
    let d = get_or_default (c ∷ cs) (length (c ∷ cs) - 1) 0 32 (omega arith) in
    ap (λ k. k == 13) d ∙ ground arith

chomp-newline : (s : Text) → is_space (last_of s) ≡ false → chomp (s ++ 10 ∷ []) ≡ s
unfolding cut_return
chomp-newline s h = chomp-cut s ∙ ap (λ b. if b then take (length s - 1) s else s) (no_return s h)

skip_whitespace-trimmed : (s : Text) → is_space (get_or s 0 32) ≡ false → skip_whitespace s ≡ s
unfolding skip_whitespace
skip_whitespace-trimmed [] h = refl
skip_whitespace-trimmed (c ∷ cs) h = ap (λ b. if b then skip_whitespace cs else c ∷ cs) h

skip_whitespace-tab : (s : Text) → is_space (get_or s 0 32) ≡ false → skip_whitespace (9 ∷ s) ≡ s
unfolding skip_whitespace is_space
skip_whitespace-tab s h = skip_whitespace-trimmed s h

last_of-cons : (c : ℕ) (s : Text) → is_space (get_or s 0 32) ≡ false → last_of (c ∷ s) ≡ last_of s
unfolding is_space
last_of-cons c [] h = cc
last_of-cons c (d ∷ s) h =
    let e : length (c ∷ d ∷ s) - 1 ≡ suc (length (d ∷ s) - 1) = omega arith in
    ap (λ n. get_or (c ∷ d ∷ s) n 32) e

strip_back_comments-bare : (s : Text) → no_hash s ≡ true → strip_back_comments s ≡ s
unfolding strip_back_comments
strip_back_comments-bare s h = comments_from-no_hash s 0 s h

nonempty : (c : ℕ) (cs : Text) → (length (c ∷ cs) == 0) ≡ false
nonempty c cs = ground arith

abbrev pub recipe_text : Text → Text
recipe_text command = 9 ∷ command ++ 10 ∷ []

pub classify-recipe :
    (command : Text) → IsTrimmed command → classify (recipe_text command) ≡ recipe command
unfolding is_space classify
classify-recipe [] t = let f = t.first in cc
classify-recipe (c ∷ cs) t =
    let s = c ∷ cs in
    let last : is_space (last_of (9 ∷ s)) ≡ false =
      ap is_space (last_of-cons 9 s t.first) ∙ t.last in
    rw
      (
        chomp-newline (9 ∷ s) last,
        strip_back_whitespace-trimmed (9 ∷ s) last,
        skip_whitespace-tab s t.first,
        strip_back_comments-bare s t.bare,
        nonempty c cs,
        classify,
      )
      refl

abbrev pub rule_text : Text → List Text → Text
rule_text target deps = (target ++ 58 ∷ spaced_out deps) ++ 10 ∷ []

rule_line-written :
    (target : Text) (deps : List Text)
    → IsTarget target
    → rule_line (target ++ 58 ∷ spaced_out deps) ≡ rule target (spaced_out deps)
unfolding rule_line
rule_line-written target deps t =
    rw
      (
        find_colon-append target (spaced_out deps) t.colon_free,
        take-front target (58 ∷ spaced_out deps),
        drop-front target 58 (spaced_out deps),
        terminate_whitespace-word target t.word.1,
        rule_line,
      )
      refl

-- the last character of a text that stands behind `d`
last_from : ℕ → Text → ℕ
last_from d [] = d
last_from d (c ∷ cs) = last_from c cs

last_of-last_from : (c : ℕ) (cs : Text) → last_of (c ∷ cs) ≡ last_from c cs
unfolding last_from
last_of-last_from c [] = refl
last_of-last_from c (d ∷ ds) =
    let e : length (c ∷ d ∷ ds) - 1 ≡ suc (length (d ∷ ds) - 1) = omega arith in
    ap (λ n. get_or (c ∷ d ∷ ds) n 32) e ∙ last_of-last_from d ds

last_from-append : (d : ℕ) (s t : Text) → last_from d (s ++ t) ≡ last_from (last_from d s) t
unfolding last_from
last_from-append d [] t = refl
last_from-append d (c ∷ cs) t = last_from-append c cs t

last_from-plain :
    (d : ℕ) (s : Text) → is_space d ≡ false → is_plain s ≡ true → is_space (last_from d s) ≡ false
unfolding last_from
last_from-plain d [] h pure = h
last_from-plain d (c ∷ cs) h pure = last_from-plain c cs (ground arith) (ground arith)

last_from-word : (d : ℕ) (w : Text) → IsWord w → is_space (last_from d w) ≡ false
unfolding last_from
last_from-word d [] word = absurd (omega (arith, word.0))
last_from-word d (c ∷ cs) word =
    let pure : is_plain (c ∷ cs) ≡ true = word.1 in
    last_from-plain c cs (ground arith) (ground arith)

last_from-spaced_out :
    (d : ℕ) (ws : List Text)
    → is_space d ≡ false
    → AreWords ws
    → is_space (last_from d (spaced_out ws)) ≡ false
unfolding last_from
last_from-spaced_out d [] h proper = h
last_from-spaced_out d (w ∷ ws) h proper =
    ap is_space (last_from-append 32 w (spaced_out ws))
    ∙ last_from-spaced_out (last_from 32 w) ws (last_from-word 32 w proper.0) proper.1

no_hash-append : (s t : Text) → no_hash s ≡ true → no_hash t ≡ true → no_hash (s ++ t) ≡ true
no_hash-append [] t h k = k
no_hash-append (c ∷ cs) t h k = ground (arith, no_hash-append cs t)

no_hash-plain : (s : Text) → is_plain s ≡ true → no_hash s ≡ true
no_hash-plain [] h = refl
no_hash-plain (c ∷ cs) h = ground (arith, no_hash-plain cs)

no_hash-spaced_out : (ws : List Text) → AreWords ws → no_hash (spaced_out ws) ≡ true
no_hash-spaced_out [] proper = refl
no_hash-spaced_out (w ∷ ws) proper =
    no_hash-append w (spaced_out ws) (no_hash-plain w proper.0.1) (no_hash-spaced_out ws proper.1)

rule-IsTrimmed :
    (target : Text) (deps : List Text)
    → IsTarget target
    → AreWords deps
    → IsTrimmed (target ++ 58 ∷ spaced_out deps)
unfolding is_space last_from
rule-IsTrimmed [] deps t proper = absurd (omega (arith, t.word.0))
rule-IsTrimmed (c ∷ cs) deps t proper = record {
  first = let pure : is_plain (c ∷ cs) ≡ true = t.word.1 in ground arith;
  last =
      ap is_space (
        last_of-last_from c (cs ++ 58 ∷ spaced_out deps)
        ∙ last_from-append c cs (58 ∷ spaced_out deps))
      ∙ last_from-spaced_out 58 deps refl proper;
  bare =
      no_hash-append (c ∷ cs) (58 ∷ spaced_out deps) (no_hash-plain (c ∷ cs) t.word.1)
        (no_hash-spaced_out deps proper);
}

-- a line whose first character is no blank
classify-line :
    (s : Text) → IsTrimmed s → is_makefile_target s ≡ true → classify (s ++ 10 ∷ []) ≡ rule_line s
unfolding classify is_space
classify-line [] t start = let f = t.first in cc
classify-line (c ∷ cs) t start =
    let s = c ∷ cs in
    let untabbed : (c == 9) ≡ false = let f = t.first in ground arith in
    rw
      (
        chomp-newline s t.last,
        strip_back_whitespace-trimmed s t.last,
        skip_whitespace-trimmed s t.first,
        strip_back_comments-bare s t.bare,
        nonempty c cs,
        untabbed,
        start,
        classify,
      )
      refl

pub classify-rule :
    (target : Text) (deps : List Text)
    → IsTarget target
    → AreWords deps
    → classify (rule_text target deps) ≡ rule target (spaced_out deps)
unfolding is_makefile_target
classify-rule [] deps t proper = absurd (omega (arith, t.word.0))
classify-rule (c ∷ cs) deps t proper =
    classify-line (c ∷ cs ++ 58 ∷ spaced_out deps) (rule-IsTrimmed (c ∷ cs) deps t proper) t.start
    ∙ rule_line-written (c ∷ cs) deps t

pub words-spaced_out : (deps : List Text) → AreWords deps → words (spaced_out deps) ≡ deps
words-spaced_out deps w = rw (split_line_on_spaces-spaced_out deps w, words) refl
