-- ===== src/CamelCaser/Tests.antt =====
-- extreme_edge_cases/camelCaser.c on "a b.c": the sentence of two words, and a tail that is none.
use cs.Prelude.{ℕ, ◌≡◌, some, List, [], ◌∷◌, map, arith}
use cs.Prelude.Chars.{to_lower}
use cs.CamelCaser.{camel_caser}
use cs.CamelCaser.Fold.{sentences, camel_caser-sentences}

camel_caser-sentences_example :
    (out : List (List ℕ)) × (camel_caser (97 ∷ 32 ∷ 98 ∷ 46 ∷ 99 ∷ []) ≡ some out)
    × (map (map to_lower) out ≡ sentences [] (97 ∷ 32 ∷ 98 ∷ 46 ∷ 99 ∷ []))
camel_caser-sentences_example = camel_caser-sentences 97 (32 ∷ 98 ∷ 46 ∷ 99 ∷ []) (omega arith)
