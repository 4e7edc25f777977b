-- ===== src/Klee/Examples.antt =====
-- Concrete operators.
use utbot_cpp.Base.{ℕ, ◌+◌, ◌≡◌, ◌⊎◌, some, Text, codes, take, ok}
use utbot_cpp.Strings.Replace.{find}
use utbot_cpp.Klee.Operators.{operator_word, get_renamed_operator}
use utbot_cpp.Klee.Renaming.{IsRenamed, get_renamed_operator_lem}

get_renamed_operator_lem_example :
    (r : Text) × (get_renamed_operator (codes "A_operator+=") ≡ ok r)
    × ((r ≡ codes "A_operator+=")
        ⊎ ((pos : ℕ) × (find operator_word (codes "A_operator+=") ≡ some pos)
            × IsRenamed (codes "A_operator+=") (take (pos + 8) (codes "A_operator+=")) r))
get_renamed_operator_lem_example = get_renamed_operator_lem (codes "A_operator+=")
