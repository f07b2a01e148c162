-- ===== src/MakefileText/Tests.antt =====
-- parallel_make/parser.c on the line `a "#" b#c `, in character codes.
use cs.Prelude.{ℕ, ◌≡◌, some, List, [], ◌∷◌, false}
use cs.MakefileText.{strip_back_comments, split_line_on_spaces}
use cs.MakefileText.Comments.{uncommented, strip_back_comments-uncommented}
use cs.MakefileText.Words.{Spaced, split_line_on_spaces-Spaced}

abbrev line : List ℕ
line = 97 ∷ 32 ∷ 34 ∷ 35 ∷ 34 ∷ 32 ∷ 98 ∷ 35 ∷ 99 ∷ 32 ∷ []

strip_back_comments-uncommented_example : strip_back_comments line ≡ uncommented line false false
strip_back_comments-uncommented_example = strip_back_comments-uncommented line

split_line_on_spaces-Spaced_example :
    (tokens : List (List ℕ)) × (split_line_on_spaces line ≡ some tokens) × Spaced line tokens
split_line_on_spaces-Spaced_example = split_line_on_spaces-Spaced line
