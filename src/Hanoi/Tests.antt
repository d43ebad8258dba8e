-- ===== src/Hanoi/Tests.antt =====
-- The tower of `main`, and the theorem for a smaller one.
use diversity.Prelude.Int.{pos, ℤ}
use diversity.Prelude.{
  ℕ, ◌+◌, ◌^◌, ◌≡◌, refl, Option, some, List, [], ◌∷◌, arith, ◌>>=◌, length, replicate,
}
use diversity.Stacks.{Stack, new_stack, push, pop}
use diversity.Stacks.Contents.{contents}
use diversity.Hanoi.{Moved, move_disk, main}
use diversity.Hanoi.Puzzle.{tower, Solves}
use diversity.Hanoi.Solve.{Peg, move_disk-Solves}

abbrev cells : ℕ → List ℤ
cells n = replicate n (pos 9)

abbrev solved : Option Moved → Option (ℕ × List ℤ)
solved o = do r ← o; some (length r.3, contents r.1)

main_moves : solved (main (cells 5) (cells 5) (cells 5)) ≡ some (31, tower 4)
unfolding main move_disk push pop new_stack
main_moves = refl

abbrev two_disks : Stack
two_disks = record { count = 2; capacity = 2; cells = pos 1 ∷ pos 0 ∷ []; id = 1 }

abbrev no_disks : ℕ → Stack
no_disks i = record { count = 0; capacity = 2; cells = cells 2; id = i }

move_disk-Solves_example :
    (r : Moved) × (move_disk 1 two_disks (no_disks 2) (no_disks 3) ≡ some r)
    × Peg r.0 2 1 []
    × Peg r.1 2 2 (tower 1)
    × Peg r.2 2 3 []
    × Solves 1 r.3 1 2 3 [] [] []
    × (length r.3 + 1 ≡ 2 ^ 2)
move_disk-Solves_example =
    move_disk-Solves 1 2 two_disks (no_disks 2) (no_disks 3) 1 2 3 (λ e. absurd (omega (arith, e)))
      (λ e. absurd (omega (arith, e))) (λ e. absurd (omega (arith, e))) (omega arith)
      ((omega arith, refl), refl, refl, refl) ((omega arith, refl), refl, refl, refl)
      ((omega arith, refl), refl, refl, refl)
