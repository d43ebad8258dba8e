-- ===== src/Hanoi/Solve.antt =====
-- `move_disk` solves the puzzle.
use diversity.Prelude.Int.{pos, ℤ}
use native.Mathlib.Nat.{pow-suc}
use diversity.Hanoi.Puzzle.{fits_next}
use diversity.Hanoi.Puzzle.{Solves-suc}
use diversity.Prelude.{
  ℕ, zero, suc, ◌+◌, ◌^◌, ◌≤◌, ◌<◌, ◌≡◌, refl, sym, ap, ◌∙◌, subst, ◌≢◌, true, some, List, [], ◌∷◌,
  ◌++◌, append-nil, append_assoc, arith, length, length-append,
}
use diversity.Stacks.{Stack, push, pop}
use diversity.Stacks.Contents.{contents, IsStack, length-contents, push-contents, pop-contents}
use diversity.Hanoi.{Move, Moved, move_disk}
use diversity.Hanoi.Puzzle.{fits, tower, Solves, Solves-zero}

-- A stack with these elements.
abbrev pub Peg : Stack → ℕ → ℕ → List ℤ → Type 0
Peg s size i xs = IsStack s × (contents s ≡ xs) × (s.capacity ≡ size) × (s.id ≡ i)

push-Peg :
    (s : Stack) (size i : ℕ) (xs : List ℤ) (v : ℤ)
    → Peg s size i xs
    → length xs < size
    → (s' : Stack) × (push v s ≡ some s') × Peg s' size i (v ∷ xs)
push-Peg s size i xs v (st, e, c, h) room =
    let (s', q, st', e', c', h') =
      push-contents s v st (omega (arith, room, ap length e, length-contents s, c)) in
    (s', q, (st', e' ∙ ap (◌∷◌ v) e, c' ∙ c, h' ∙ h))

pop-Peg :
    (s : Stack) (size i : ℕ) (xs : List ℤ) (v : ℤ)
    → Peg s size i (v ∷ xs)
    → (s' : Stack) × (pop s ≡ some (v, s')) × Peg s' size i xs
pop-Peg s size i xs v (st, e, c, h) =
    let (s', q, st', e', c', h', _) = pop-contents s v xs st e in (s', q, (st', e', c' ∙ c, h' ∙ h))

-- The three stacks after the call and the moves that it prints.
abbrev Solved : ℕ → Moved → (ℕ → ℕ) → ℕ → ℕ → ℕ → List ℤ → List ℤ → List ℤ → Type 0
Solved n r size i j k a b c =
    Peg r.0 (size i) i a
    × Peg r.1 (size j) j (tower n ++ b)
    × Peg r.2 (size k) k c
    × Solves n r.3 i j k a b c
    × (length r.3 + 1 ≡ 2 ^ suc n)

length-tower : (n : ℕ) → length (tower n) ≡ suc n
length-tower zero = refl
length-tower (suc n) = omega (arith, length-append {0} (tower n) (pos (suc n) ∷ []), length-tower n)

-- One move, with what is popped and the names of the stacks.
move_same :
    (d d' : ℤ) (i i' j j' : ℕ) (first last : List Move)
    → d ≡ d'
    → i ≡ i'
    → j ≡ j'
    → first ++ record { disk = d; from = i; to = j } ∷ last
      ≡ first ++ record { disk = d'; from = i'; to = j' } ∷ last
move_same d d' i i' j j' first last ed ei ej = rw (ed, ei, ej) refl

fits_larger : (n : ℕ) (a : List ℤ) → fits (pos n) (pos (suc n) ∷ a) ≡ true
fits_larger n a = ground arith

power_two : (n : ℕ) → 2 ^ suc n ≡ 2 ^ n + 2 ^ n
power_two n = omega (arith, pow-suc 2 n)

-- What the calls have in common: different stacks, no disk smaller than the tower, and room.
abbrev Fits : ℕ → (ℕ → ℕ) → ℕ → ℕ → ℕ → List ℤ → List ℤ → List ℤ → Type 0
Fits n rooms i j k a b c =
    i ≢ j
    × k ≢ i
    × k ≢ j
    × (fits (pos n) a ≡ true)
    × (fits (pos n) b ≡ true)
    × (fits (pos n) c ≡ true)
    × length a + suc n ≤ rooms i
    × length b + suc n ≤ rooms j
    × length c + n ≤ rooms k

solves :
    (n : ℕ) (src dest aux : Stack) (rooms : ℕ → ℕ) (i j k : ℕ) (a b c : List ℤ)
    → Fits n rooms i j k a b c
    → Peg src (rooms i) i (tower n ++ a)
    → Peg dest (rooms j) j b
    → Peg aux (rooms k) k c
    → (r : Moved) × (move_disk n src dest aux ≡ some r) × Solved n r rooms i j k a b c
unfolding move_disk
solves zero src dest aux rooms i j k a b c (ij, ki, kj, fa, fb, fc, ra, rb, rc) ps pd pa =
    let (src', q, p) = pop-Peg src (rooms i) i a (pos 0) ps in
    let (dest', q', p') = push-Peg dest (rooms j) j b (pos 0) pd (omega (arith, rb)) in
    (
      (src', dest', aux, record { disk = pos 0; from = src.id; to = dest.id } ∷ []),
      rw (q, q') refl,
      (
        p,
        p',
        pa,
        subst (λ ms. Solves 0 ms i j k a b c)
            (sym (move_same (pos 0) (pos 0) src.id i dest.id j [] [] refl ps.3 pd.3))
            (Solves-zero i j k a b c ij ki kj fb),
        refl,
      ),
    )
solves (suc n) src dest aux rooms i j k a b c (ij, ki, kj, fa, fb, fc, ra, rb, rc) ps pd pa =
    let d = pos (suc n) in
    let (r1, q1, (ps1, pa1, pd1, s1, l1)) =
      solves n src aux dest rooms i k j (d ∷ a) c b
        (
          (λ e. ki (sym e)),
          (λ e. ij (sym e)),
          (λ e. kj (sym e)),
          fits_larger n a,
          fits_next n c fc,
          fits_next n b fb,
          omega (arith, ra),
          omega (arith, rc),
          omega (arith, rb),
        )
        (subst (Peg src (rooms i) i) (append_assoc (tower n) (d ∷ []) a) ps) pa pd in
    let (src2, q2, ps2) = pop-Peg r1.0 (rooms i) i a d ps1 in
    let (dest2, q3, pd2) = push-Peg r1.2 (rooms j) j b d pd1 (omega (arith, rb)) in
    let (r2, q4, (pa3, pd3, ps3, s2, l2)) =
      solves n r1.1 dest2 src2 rooms k j i c (d ∷ b) a
        (
          kj,
          (λ e. ki (sym e)),
          ij,
          fits_next n c fc,
          fits_larger n b,
          fits_next n a fa,
          omega (arith, rc),
          omega (arith, rb),
          omega (arith, ra),
        )
        pa1 pd2 ps2 in
    let move : Move = record { disk = d; from = src2.id; to = dest2.id } in
    (
      (r2.2, r2.1, r2.0, r1.3 ++ move ∷ r2.3),
      rw (q1, q2, q3, q4) refl,
      (
        ps3,
        subst (Peg r2.1 (rooms j) j) (sym (append_assoc (tower n) (d ∷ []) b)) pd3,
        pa3,
        subst (λ ms. Solves (suc n) ms i j k a b c)
            (sym (move_same d d src2.id i dest2.id j r1.3 r2.3 refl ps2.3 pd2.3))
            (Solves-suc n i j k r1.3 r2.3 a b c ij ki kj fb s1 s2),
        omega (arith, l1, l2, power_two (suc n), length-append {0} r1.3 (move ∷ r2.3)),
      ),
    )

-- On three different stacks with room for n + 1 disks, of which the first has the disks 0 to n, the smallest on top, and the
-- others are empty: move_disk accesses nothing outside an array and leaves the disks on the second stack in that order and the others empty. It prints
-- 2 ^ (n + 1) - 1 moves, and these are moves of the puzzle: played one after the other, each takes the top disk of a stack to a
-- stack that is empty or has a larger disk on top, and they take the tower over.
pub move_disk-Solves :
    (n room : ℕ) (src dest aux : Stack) (i j k : ℕ)
    → i ≢ j
    → k ≢ i
    → k ≢ j
    → suc n ≤ room
    → Peg src room i (tower n)
    → Peg dest room j []
    → Peg aux room k []
    → (r : Moved) × (move_disk n src dest aux ≡ some r)
      × Peg r.0 room i []
      × Peg r.1 room j (tower n)
      × Peg r.2 room k []
      × Solves n r.3 i j k [] [] []
      × (length r.3 + 1 ≡ 2 ^ suc n)
move_disk-Solves n room src dest aux i j k ij ki kj h ps pd pa =
    let whole = append-nil (tower n) in
    let (r, e, (p, q, t, s, l)) =
      solves n src dest aux (λ _. room) i j k [] [] []
        (ij, ki, kj, refl, refl, refl, omega (arith, h), omega (arith, h), omega (arith, h))
        (subst (Peg src room i) (sym whole) ps) pd pa in
    (r, e, p, subst (Peg r.1 room j) whole q, t, s, l)
