-- ===== src/Tests/Array.antt =====
-- lib/src/sql/array.rs on arrays of numbers.
use surreal_dbservice.Base.{ℕ, ◌≡◌, refl, Bool, ◌||◌, List, [], ◌∷◌, ◌==◌}
use surreal_dbservice.Sql.Array.{difference, union}
use surreal_dbservice.Sql.Array.Abolish.{abolish, kept_from, abolish-eq}

abbrev same : ℕ → ℕ → Bool
same a b = a == b

abbrev some_numbers : List ℕ
some_numbers = 1 ∷ 2 ∷ 1 ∷ 3 ∷ []

abbrev more_numbers : List ℕ
more_numbers = 1 ∷ 3 ∷ 3 ∷ 4 ∷ []

union_run : union same some_numbers more_numbers ≡ 1 ∷ 2 ∷ 3 ∷ 4 ∷ []
unfolding union
union_run = refl

difference_run : difference same some_numbers more_numbers ≡ 2 ∷ 1 ∷ 3 ∷ 4 ∷ []
unfolding difference
difference_run = refl

abbrev first_and_third : ℕ → Bool
first_and_third i = i == 0 || i == 2

abbrev four_numbers : List ℕ
four_numbers = 10 ∷ 11 ∷ 12 ∷ 13 ∷ []

abolish_run : abolish first_and_third four_numbers ≡ 11 ∷ 13 ∷ []
unfolding abolish
abolish_run = refl

abolish-eq_example : abolish first_and_third four_numbers ≡ kept_from first_and_third 0 four_numbers
abolish-eq_example = abolish-eq first_and_third four_numbers
