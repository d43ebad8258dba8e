-- ===== src/Duplication/Tests.antt =====
-- The array of `main`, one whose two equal elements are found, and one whose two equal elements are not.
use diversity.Prelude.Int.{pos, ℤ}
use diversity.Prelude.{◌≡◌, refl, Bool, true, false, some, List, [], ◌∷◌, arith, length}
use diversity.Duplication.{swap, find_from, find_duplication}
use diversity.Duplication.Twice.{Twice, find_duplication-Twice}

main_none : find_duplication (pos 3 ∷ pos 1 ∷ pos 2 ∷ pos 0 ∷ pos 4 ∷ pos 5 ∷ []) 6 ≡ some false
unfolding find_duplication find_from swap
main_none = refl

abbrev missed : List ℤ
missed = pos 2 ∷ pos 3 ∷ pos 3 ∷ pos 1 ∷ []

missed_run : find_duplication missed 4 ≡ some false
unfolding find_duplication find_from swap
missed_run = refl

found_run : find_duplication (pos 1 ∷ pos 1 ∷ []) 2 ≡ some true
unfolding find_duplication find_from swap
found_run = refl

find_duplication-Twice_example :
    (b : Bool) × (find_duplication missed (length missed) ≡ some b) × (b ≡ true → Twice missed)
find_duplication-Twice_example =
    find_duplication-Twice missed (omega arith, (omega arith, (omega arith, (omega arith, tt))))
