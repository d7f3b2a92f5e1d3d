-- ===== src/Tests/KmsList.antt =====
-- kmslist.c at concrete lists.
use kms_core.Prelude.{ℕ, ◌≡◌, refl, Bool, true, false, some, [], ◌∷◌, ◌==◌, arith}
use kms_core.KmsList.{KmsList, append, prepend, remove, find, get_node, contains}
use kms_core.KmsList.Removing.{Equates, distinct}
use kms_core.KmsList.Mapping.{Removes, Adds, remove-Removes, additions-Adds}

abbrev same_number : ℕ → ℕ → Bool
same_number a b = a == b

same_number-Equates : Equates same_number
same_number-Equates = record { symmetric = λ a b. ground arith; same = λ a b c h. ground arith }

abbrev three : KmsList ℕ ℕ
three = record { key_equal = some same_number; nodes = (1, 10) ∷ (2, 20) ∷ (3, 30) ∷ [] }

three_distinct : distinct same_number three.nodes ≡ true
unfolding distinct find
three_distinct = refl

three_without : contains three 7 ≡ false
unfolding contains get_node find
three_without = refl

remove-Removes_example : Removes same_number three (remove three 2).0 2 (remove three 2).1
remove-Removes_example = remove-Removes same_number same_number-Equates three 2 refl three_distinct

additions-Adds_example :
    Adds same_number three (append three 7 70) 7 70
    × Adds same_number three (prepend three 7 70) 7 70
additions-Adds_example =
    additions-Adds same_number same_number-Equates three 7 70 refl three_distinct three_without
