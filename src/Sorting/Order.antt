-- ===== src/Sorting/Order.antt =====
-- Sorted lists and their permutations, and the exchange of two elements.
use mathlib.Core.Logic.{∥∥₁_elim}
use mathlib.Core.List.{Perm, Permᴰ}
use mathlib.Core.List.Perm
use native.Mathlib.Bridge.{le_prop}
use diversity.MergeSort.Merge.{IsBelow, IsSorted}
use diversity.Prelude.Int.{◌≤ℤ◌, ℤ}
use diversity.Prelude.Arrays.{write, read-middle, read}
use diversity.Prelude.Arrays.{write-middle}
use diversity.Prelude.{
  ℕ, ◌+◌, ◌≡◌, refl, sym, ap, ◌∙◌, subst, Option, some, List, [], ◌∷◌, ◌++◌, append_assoc, arith,
  length, length-append,
}
use diversity.Sorting.{swap}

IsBelow-permᴰ : {xs ys : List ℤ} (x : ℤ) → Permᴰ xs ys → IsBelow x xs → IsBelow x ys
IsBelow-permᴰ x Permᴰ.nil b = b
IsBelow-permᴰ x (Permᴰ.cons y p) b = (subst (λ z. x ≤ℤ z) y b.0, IsBelow-permᴰ x p b.1)
IsBelow-permᴰ x (Permᴰ.swap y z) b =
    (subst (λ w. x ≤ℤ w) z b.1.0, (subst (λ w. x ≤ℤ w) y b.0, b.1.1))
IsBelow-permᴰ x (Permᴰ.trans p q) b = IsBelow-permᴰ x q (IsBelow-permᴰ x p b)

IsBelow-IsProp : (x : ℤ) (xs : List ℤ) → IsProp (IsBelow x xs)
IsBelow-IsProp x [] = λ a b. refl
IsBelow-IsProp x (y ∷ xs) = let rest = IsBelow-IsProp x xs in hlevel (le_prop)

pub IsBelow-perm : {xs ys : List ℤ} (x : ℤ) → Perm xs ys → IsBelow x xs → IsBelow x ys
IsBelow-perm {xs} {ys} x p b = ∥∥₁_elim p (IsBelow-IsProp x ys) (λ q. IsBelow-permᴰ x q b)

pub IsBelow-append : (x : ℤ) (xs ys : List ℤ) → IsBelow x xs → IsBelow x ys → IsBelow x (xs ++ ys)
IsBelow-append x [] ys a b = b
IsBelow-append x (y ∷ xs) ys a b = (a.0, IsBelow-append x xs ys a.1 b)

-- Each of `l` is at most `x`.
abbrev pub IsAbove : ℤ → List ℤ → Type 0
IsAbove x [] = Unit
IsAbove x (y ∷ l) = (y ≤ℤ x) × IsAbove x l

IsBelow-last : (before : List ℤ) (x y : ℤ) → IsBelow x (before ++ y ∷ []) → x ≤ℤ y
IsBelow-last [] x y b = b.0
IsBelow-last (c ∷ before) x y b = IsBelow-last before x y b.1

-- A list that ends in `y`, which is at most `v`.
pub IsAbove-last :
    (before : List ℤ) (y v : ℤ)
    → IsSorted (before ++ y ∷ [])
    → y ≤ℤ v
    → IsAbove v (before ++ y ∷ [])
IsAbove-last [] y v s h = (h, tt)
IsAbove-last (b ∷ before) y v s h =
    (omega (arith, h, IsBelow-last before b y s.0), IsAbove-last before y v s.1 h)

IsBelow-insert :
    (x v : ℤ) (xs ys : List ℤ) → x ≤ℤ v → IsBelow x (xs ++ ys) → IsBelow x (xs ++ v ∷ ys)
IsBelow-insert x v [] ys h b = (h, b)
IsBelow-insert x v (y ∷ xs) ys h b = (b.0, IsBelow-insert x v xs ys h b.1)

pub inserted-IsSorted :
    (xs ys : List ℤ) (v : ℤ)
    → IsSorted (xs ++ ys)
    → IsAbove v xs
    → IsBelow v ys
    → IsSorted (xs ++ v ∷ ys)
inserted-IsSorted [] ys v s a b = (b, s)
inserted-IsSorted (x ∷ xs) ys v s a b =
    (IsBelow-insert x v xs ys a.0 s.0, inserted-IsSorted xs ys v s.1 a.1 b)

module _ (before mid after : List ℤ) (x y : ℤ) (i j : ℕ) (hi : i ≡ length before)
    (hj : j ≡ i + 1 + length mid) where
  second_index : j ≡ length (before ++ x ∷ mid)
  second_index = omega (arith, hi, hj, length-append {0} before (x ∷ mid))

  -- The array with `x` at `i` and `y` at `j`, as `j` sees it.
  second_split : (v w : ℤ) → before ++ v ∷ (mid ++ w ∷ after) ≡ (before ++ v ∷ mid) ++ w ∷ after
  second_split v w = sym (append_assoc before (v ∷ mid) (w ∷ after))

  pub read-second : read (before ++ x ∷ (mid ++ y ∷ after)) j ≡ some y
  read-second =
      ap (λ a. read a j) (second_split x y) ∙ read-middle (before ++ x ∷ mid) after y j second_index

  pub write-second :
      (v w : ℤ)
      → write (before ++ v ∷ (mid ++ y ∷ after)) j w ≡ some (before ++ v ∷ (mid ++ w ∷ after))
  write-second v w =
      ap (λ a. write a j w) (second_split v y)
      ∙ write-middle (before ++ v ∷ mid) after y w j
          (omega (arith, hi, hj, length-append {0} before (v ∷ mid)))
      ∙ ap some (sym (second_split v w))

  pub swap-middle :
      swap (before ++ x ∷ (mid ++ y ∷ after)) i j ≡ some (before ++ y ∷ (mid ++ x ∷ after))
  unfolding swap
  swap-middle =
      rw
        (
          read-middle before (mid ++ y ∷ after) x i hi,
          read-second,
          write-middle before (mid ++ y ∷ after) x y i hi,
        )
        (write-second y x)

  -- The same with the positions the other way round.
  pub swap-back :
      swap (before ++ x ∷ (mid ++ y ∷ after)) j i ≡ some (before ++ y ∷ (mid ++ x ∷ after))
  unfolding swap
  swap-back =
      rw (read-second, read-middle before (mid ++ y ∷ after) x i hi, write-second x x)
        (write-middle before (mid ++ x ∷ after) x y i hi)

-- What a loop does of a part of the array: it sorts the part, and leaves the rest.
abbrev pub Sorts : Option (List ℤ) → List ℤ → List ℤ → List ℤ → Type 0
Sorts run before part after =
    (part' : List ℤ) × (run ≡ some (before ++ (part' ++ after))) × IsSorted part' × Perm part' part

-- A pass that leaves the least element `m` at its place, and the loop on the rest.
pub pass-Sorts :
    (loop : List ℤ → Option (List ℤ)) (run : Option (List ℤ)) (before part after zs : List ℤ)
    (m : ℤ)
    → run ≡ loop (before ++ m ∷ (zs ++ after))
    → IsBelow m zs
    → Perm (m ∷ zs) part
    → Sorts (loop ((before ++ m ∷ []) ++ (zs ++ after))) (before ++ m ∷ []) zs after
    → Sorts run before part after
pass-Sorts loop run before part after zs m r b p (zs', e, s, p') = (
  m ∷ zs',
  r
      ∙ ap loop (sym (append_assoc before (m ∷ []) (zs ++ after)))
      ∙ e
      ∙ ap some (append_assoc before (m ∷ []) (zs' ++ after)),
  (IsBelow-perm {ys = zs'} m (Perm.symm p') b, s),
  Perm.trans (Perm.cons m p') p,
)
