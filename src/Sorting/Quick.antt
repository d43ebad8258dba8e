-- ===== src/Sorting/Quick.antt =====
-- `quick_sort` of c++/src/sorting.cpp.
use diversity.Prelude.Int.{ℤ}
use diversity.Prelude.Int.{pos, ltb_ℤ, pos_part}
use diversity.Prelude.Int.{negsuc, ◌-ℤ◌}
use diversity.Prelude.{
  ℕ, zero, suc, ◌+◌, ◌<◌, ◌≡◌, refl, false, Option, none, some, List, arith, leb, if◌then◌else◌,
  ◌>>=◌, >>=-eq-some,
}
use diversity.Prelude.Arrays.{read}
use diversity.Sorting.{swap}

abbrev pub read_int : List ℤ → ℤ → Option ℤ
read_int a (pos i) = read a i
read_int a (negsuc i) = none

unfoldable pub scan_up : ℕ → List ℤ → ℕ → ℤ → Option ℕ
scan_up zero a lp pivot = none
scan_up (suc fuel) a lp pivot = do
  x ← read a lp
  if ltb_ℤ x pivot then scan_up fuel a (lp + 1) pivot else some (lp + 1)

unfoldable pub scan_down : ℕ → List ℤ → ℤ → ℤ → Option ℤ
scan_down zero a rp pivot = none
scan_down (suc fuel) a rp pivot = do
  x ← read_int a rp
  if ltb_ℤ pivot x then scan_down fuel a (rp -ℤ pos 1) pivot else some (rp -ℤ pos 1)

-- The outer loop: the array and `lp` at the `break`.
unfoldable pub partition_loop : ℕ → List ℤ → ℕ → ℤ → ℤ → Option (List ℤ × ℕ)
partition_loop zero a lp rp pivot = none
partition_loop (suc fuel) a lp rp pivot = do
  lp' ← scan_up fuel a lp pivot
  rp' ← scan_down fuel a rp pivot
  (let again = swap a lp' (pos_part rp') >>= λ a'. partition_loop fuel a' lp' rp' pivot in
      if ltb_ℤ (pos lp') rp' then again else some (a, lp'))

-- `swap` on two ints that are no elements
abbrev pub exchanged_ints : ℕ → ℕ → ℕ × ℕ
exchanged_ints a b = (b, a)

unfoldable pub partition_func : ℕ → List ℤ → ℕ → ℕ → ℤ → Option (List ℤ × ℕ)
partition_func fuel a left right pivot = do
  (a', lp) ← partition_loop fuel a left (pos right -ℤ pos 1) pivot
  some (a', (exchanged_ints lp right).0)

-- The fuel bounds the depth of the recursion and the turns of the loops.
unfoldable pub quick_sort : ℕ → List ℤ → ℕ → ℕ → Option (List ℤ)
quick_sort zero a left right = none
quick_sort (suc fuel) a left right =
    let sorted = (do
      pivot ← read a right
      (a', partition) ← partition_func fuel a left right pivot
      a'' ← quick_sort fuel a' left partition
      quick_sort fuel a'' (partition + 1) right) in
    if leb right left then some a else sorted

>>=-none {ℓ κ} :
    {A : Type ℓ} {B : Type κ} (m : Option A) (f : A → Option B)
    → ((a : A) → m ≡ some a → f a ≡ none)
    → (m >>= f) ≡ none
>>=-none none f h = refl
>>=-none (some a) f h = h a refl

partition_func-right :
    (fuel : ℕ) (a a' : List ℤ) (left right p : ℕ) (pivot : ℤ)
    → partition_func fuel a left right pivot ≡ some (a', p)
    → p ≡ right
unfolding partition_func
partition_func-right fuel a a' left right p pivot e =
    let (r, _, e') = >>=-eq-some (partition_loop fuel a left (pos right -ℤ pos 1) pivot) e in cc

not_leb : (r l : ℕ) → l < r → leb r l ≡ false
not_leb r l h = ground arith

-- quick_sort of two elements or more never returns, whatever the array holds and however long it runs: partitionFunc
-- exchanges the two indices, not the elements, so it returns `right`, and the first recursive call has the bounds of the call itself.
pub quick_sort-none :
    (fuel : ℕ) (a : List ℤ) (left right : ℕ) → left < right → quick_sort fuel a left right ≡ none
unfolding quick_sort
quick_sort-none zero a left right h = refl
quick_sort-none (suc fuel) a left right h = rw (not_leb right left h) (
    >>=-none (read a right) _ (λ pivot _.
      >>=-none (partition_func fuel a left right pivot) _ (λ r e.
        >>=-none (quick_sort fuel r.0 left r.1) _ (λ b e'.
          let e'' = partition_func-right fuel a r.0 left right r.1 pivot e in
          let n = quick_sort-none fuel r.0 left r.1 (omega (arith, h, e'')) in cc))))
