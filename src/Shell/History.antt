-- ===== src/Shell/History.antt =====
-- The search in the history of shell/shell.c.
use cs.Prelude.{
  ℕ, zero, suc, ◌<◌, ◌≡◌, ◌≢◌, refl, none, some, Bool, true, false, ◌==◌, List, [], ◌∷◌, ◌++◌,
  length, drop, get_or, arith, ap, ◌∙◌, Bool-cases, ◌⊎◌, inl, inr,
}
use cs.Shell.{Word, starts_with, latest, prefix}

-- The line at `i` is the last of the first `count` that starts with the query.
pub record IsLatest (count : ℕ) (query : Word) (history : List Word) (i : ℕ) : Type 0 where
  pub inside : i < count
  pub starts : starts_with query (get_or history i []) ≡ true
  pub later : (j : ℕ) → i < j → j < count → starts_with query (get_or history j []) ≡ false

abbrev pub NoneStarts : ℕ → Word → List Word → Type 0
NoneStarts count query history =
    (j : ℕ) → j < count → starts_with query (get_or history j []) ≡ false

-- what fails below a number and at it
up_to : (f : ℕ → Bool) (i j : ℕ) → (j < i → f j ≡ false) → f i ≡ false → j < suc i → f j ≡ false
up_to f i j below here h = elim (Bool-cases (j == i)) [
  | inl e ↦ (let same : j ≡ i = ground arith in ap f same ∙ here)
  | inr e ↦ below (ground arith)
]

abbrev starts_at : Word → List Word → ℕ → Bool
starts_at query history j = starts_with query (get_or history j [])

latest_lem :
    (count : ℕ) (query : Word) (history : List Word)
    → ((i : ℕ) × (latest count query history ≡ some (get_or history i []))
        × IsLatest count query history i)
      ⊎ ((latest count query history ≡ none) × NoneStarts count query history)
unfolding latest
latest_lem zero query history = inr (refl, λ j h. absurd (omega arith))
latest_lem (suc i) query history = elim (Bool-cases (starts_with query (get_or history i []))) [
  | inl here ↦ inl (
    i,
    rw here refl,
    record { inside = omega arith; starts = here; later = λ j l h. absurd (omega arith) },
  )
  | inr elsewhere ↦ elim (latest_lem i query history) [
    | inl (k, found, is) ↦ inl (
      k,
      rw (elsewhere, found) refl,
      record {
        inside = omega (arith, is.inside);
        starts = is.starts;
        later = λ j l h. up_to (starts_at query history) i j (is.later j l) elsewhere h;
      },
    )
    | inr (lost, before) ↦ inr (
      rw (elsewhere, lost) refl,
      λ j h. up_to (starts_at query history) i j (before j) elsewhere h,
    )
  ]
]

pub prefix_lem :
    (first line : Word) (history : List Word)
    → length first ≢ 1
    → ((i : ℕ) × (prefix first line history
          ≡ some (get_or history i [], history ++ (get_or history i [] ∷ [])))
        × IsLatest (length history) (drop 1 line) history i)
      ⊎ ((prefix first line history ≡ none) × NoneStarts (length history) (drop 1 line) history)
unfolding prefix
prefix_lem first line history long =
    let test : (length first == 1) ≡ false = ground arith in
    elim (latest_lem (length history) (drop 1 line) history) [
      | inl (i, found, is) ↦ inl (i, rw (test, found) refl, is)
      | inr (lost, nowhere) ↦ inr (rw (test, lost) refl, nowhere)
    ]
