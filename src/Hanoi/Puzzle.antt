-- ===== src/Hanoi/Puzzle.antt =====
-- The rules of the puzzle: the top disk of a peg is moved onto an empty peg or a larger disk.
use diversity.Prelude.Int.{ℤ}
use diversity.Prelude.Int.{pos, ltb_ℤ}
use diversity.Searching.Reads.{eq_ℤ_self}
use diversity.Prelude.{
  ℕ, zero, suc, ◌≡◌, refl, sym, ap, ◌∙◌, ◌≢◌, inl, inr, Bool, true, false, ◌&&◌, Option, none, some,
  List, [], ◌∷◌, ◌++◌, append_assoc, arith, ◌==◌, if◌then◌else◌, ==_iff, ==_self, Bool-cases, ◌>>=◌,
}
use diversity.Searching.{eq_ℤ}
use diversity.Hanoi.{Move}

abbrev pub fits : ℤ → List ℤ → Bool
fits d [] = true
fits d (x ∷ xs) = ltb_ℤ d x

abbrev pub put : (ℕ → List ℤ) → ℕ → List ℤ → ℕ → List ℤ
put pegs i xs j = if j == i then xs else pegs j

abbrev pub moved : Move → (ℕ → List ℤ) → List ℤ → Option (ℕ → List ℤ)
moved m pegs [] = none
moved m pegs (x ∷ rest) =
    if eq_ℤ x m.disk && fits x (pegs m.to)
    then some (put (put pegs m.from rest) m.to (x ∷ pegs m.to))
    else none

-- The pegs after the moves; `none` when one breaks the rules.
unfoldable pub play : List Move → (ℕ → List ℤ) → Option (ℕ → List ℤ)
play [] pegs = some pegs
play (m ∷ ms) pegs = moved m pegs (pegs m.from) >>= play ms

-- The disks 0 to n, the smallest on top.
abbrev pub tower : ℕ → List ℤ
tower zero = pos 0 ∷ []
tower (suc n) = tower n ++ pos (suc n) ∷ []

-- The moves take the tower from the peg `i` to the peg `j` within the rules, and leave what is below it and the peg `k`.
abbrev pub Solves : ℕ → List Move → ℕ → ℕ → ℕ → List ℤ → List ℤ → List ℤ → Type 0
Solves n moves i j k a b c =
    (pegs : ℕ → List ℤ)
    → pegs i ≡ tower n ++ a
    → pegs j ≡ b
    → pegs k ≡ c
    → (after : ℕ → List ℤ) × (play moves pegs ≡ some after)
      × (after i ≡ a)
      × (after j ≡ tower n ++ b)
      × (after k ≡ c)

differ : (a b : ℕ) → a ≢ b → (a == b) ≡ false
differ a b h = elim (Bool-cases (a == b)) [ inl t ↦ absurd (h ((==_iff a b).0 t)) | inr f ↦ f ]

put_same : (pegs : ℕ → List ℤ) (i : ℕ) (xs : List ℤ) → put pegs i xs i ≡ xs
put_same pegs i xs = rw (==_self i) refl

put_other : (pegs : ℕ → List ℤ) (i j : ℕ) (xs : List ℤ) → j ≢ i → put pegs i xs j ≡ pegs j
put_other pegs i j xs h = rw (differ j i h) refl

chained :
    {A B C : Type 0} (f : A → Option B) (g : B → Option C) {h : A → Option C} (o : Option A)
    → ((a : A) → h a ≡ (f a >>= g))
    → (o >>= h) ≡ ((o >>= f) >>= g)
chained f g none e = refl
chained f g (some a) e = e a

pub play-append :
    (ms ns : List Move) (pegs : ℕ → List ℤ) → play (ms ++ ns) pegs ≡ (play ms pegs >>= play ns)
unfolding play
play-append [] ns pegs = refl
play-append (m ∷ ms) ns pegs =
    chained (play ms) (play ns) (moved m pegs (pegs m.from)) (play-append ms ns)

-- One move.
pub play-move :
    (d : ℤ) (i j k : ℕ) (a b c : List ℤ) (pegs : ℕ → List ℤ) (ms : List Move)
    → i ≢ j
    → k ≢ i
    → k ≢ j
    → fits d b ≡ true
    → pegs i ≡ d ∷ a
    → pegs j ≡ b
    → pegs k ≡ c
    → (after : ℕ → List ℤ) × (play (record { disk = d; from = i; to = j } ∷ ms) pegs
        ≡ play ms after)
      × (after i ≡ a)
      × (after j ≡ d ∷ b)
      × (after k ≡ c)
unfolding play
play-move d i j k a b c pegs ms ij ki kj f ei ej ek = (
  put (put pegs i a) j (d ∷ b),
  rw (ei, ej, eq_ℤ_self d, f) refl,
  put_other (put pegs i a) j i (d ∷ b) ij ∙ put_same pegs i a,
  put_same (put pegs i a) j (d ∷ b),
  put_other (put pegs i a) j k (d ∷ b) kj ∙ put_other pegs i k a ki ∙ ek,
)

pub fits_next : (n : ℕ) (b : List ℤ) → fits (pos (suc n)) b ≡ true → fits (pos n) b ≡ true
fits_next n [] h = refl
fits_next n (x ∷ b) h = ground (arith, h)

-- The moves of the tower without its last disk, the move of that disk, and the moves of the tower onto it.
pub Solves-suc :
    (n i j k : ℕ) (first last : List Move) (a b c : List ℤ)
    → i ≢ j
    → k ≢ i
    → k ≢ j
    → fits (pos (suc n)) b ≡ true
    → Solves n first i k j (pos (suc n) ∷ a) c b
    → Solves n last k j i c (pos (suc n) ∷ b) a
    → Solves (suc n) (first ++ record { disk = pos (suc n); from = i; to = j } ∷ last) i j k a b c
unfolding play
Solves-suc n i j k first last a b c ij ki kj f s1 s2 = λ pegs ei ej ek.
    let (p1, e1, i1, k1, j1) = s1 pegs (ei ∙ append_assoc (tower n) (pos (suc n) ∷ []) a) ek ej in
    let (p2, e2, i2, j2, k2) =
      play-move (pos (suc n)) i j k a b (tower n ++ c) p1 last ij ki kj f i1 j1 k1 in
    let (p3, e3, k3, j3, i3) = s2 p2 k2 j2 i2 in
    (
      p3,
      play-append first (record { disk = pos (suc n); from = i; to = j } ∷ last) pegs
          ∙ ap (λ o. o >>= play (record { disk = pos (suc n); from = i; to = j } ∷ last)) e1
          ∙ e2
          ∙ e3,
      i3,
      j3 ∙ sym (append_assoc (tower n) (pos (suc n) ∷ []) b),
      k3,
    )

pub Solves-zero :
    (i j k : ℕ) (a b c : List ℤ)
    → i ≢ j
    → k ≢ i
    → k ≢ j
    → fits (pos 0) b ≡ true
    → Solves 0 (record { disk = pos 0; from = i; to = j } ∷ []) i j k a b c
unfolding play
Solves-zero i j k a b c ij ki kj f pegs ei ej ek =
    play-move (pos 0) i j k a b c pegs [] ij ki kj f ei ej ek
