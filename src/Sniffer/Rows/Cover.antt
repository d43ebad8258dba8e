-- ===== src/Sniffer/Rows/Cover.antt =====
-- The rows of a payload.
use native.Mathlib.Nat.{mod-eq_of_lt}
use diversity.Prelude.{
  ℕ, zero, suc, ◌+◌, ◌-◌, ◌%◌, ◌≤◌, ◌<◌, ◌≡◌, refl, sym, ap, ◌∙◌, subst, inl, inr, true, false,
  some, List, [], ◌∷◌, arith, leb, ◌==◌, Bool-cases, length, take, drop, length-take, length-drop,
  take-length, take-take, Bytes,
}
use diversity.Sniffer.Rows.{Row, row_at, one_row, payload_rows, print_payload}

-- The rows show the bytes from an offset on in their order, 16 in each but the last, which has at
-- least one; with no bytes there is no row.
abbrev pub Rows : ℕ → Bytes → List Row → Type 0
Rows offset bs [] = bs ≡ []
Rows offset bs (r ∷ rs) =
    (0 < length bs)
    × (r.offset ≡ offset)
    × (r.bytes ≡ take 16 bs)
    × Rows (offset + 16) (drop 16 bs) rs

take-nil : (n : ℕ) → take {A = ℕ} n [] ≡ []
take-nil zero = refl
take-nil (suc n) = refl

drop-take : (n k : ℕ) (xs : Bytes) → drop n (take k xs) ≡ take (k - n) (drop n xs)
drop-take zero k xs = ap (λ j. take j xs) {y = k - 0} (omega arith)
drop-take (suc n) zero xs = ap (λ j. take j (drop (suc n) xs)) {x = 0} (omega arith)
drop-take (suc n) (suc k) [] = sym (take-nil (suc k - suc n))
drop-take (suc n) (suc k) (x ∷ xs) =
    drop-take n k xs ∙ ap (λ j. take j (drop n xs)) {y = suc k - suc n} (omega arith)

leb-true : (a b : ℕ) → a ≤ b → leb a b ≡ true
leb-true a b h = ground arith

pub leb_le : (a b : ℕ) → leb a b ≡ true → a ≤ b
leb_le a b h = ground arith

pub leb_gt : (a b : ℕ) → leb a b ≡ false → b < a
leb_gt a b h = ground arith

pub remainder_lem : (n : ℕ) → 16 < n → 16 % n ≡ 16
remainder_lem n h = mod-eq_of_lt h

length_taken : (n : ℕ) (ch : Bytes) → n ≤ length ch → length (take n ch) ≡ n
length_taken n ch h = omega (arith, length-take n ch)

abbrev row : Bytes → ℕ → ℕ → Row
row ch len offset = record { offset = offset; bytes = take len ch }

row_at_inside :
    (ch : Bytes) (len offset : ℕ)
    → len ≤ length ch
    → row_at ch len offset ≡ some (row ch len offset)
row_at_inside ch len offset h = rw (leb-true len (length ch) h)

one_row-Rows :
    (ch : Bytes) (len offset : ℕ)
    → 0 < len
    → len ≤ 16
    → len ≤ length ch
    → (rs : List Row) × (one_row ch len offset ≡ some rs) × Rows offset (take len ch) rs
one_row-Rows ch len offset p s l =
    let n = length_taken len ch l in
    (
      row ch len offset ∷ [],
      rw (leb-true len (length ch) l),
      (
        omega (arith, n),
        refl,
        sym (take-length 16 (take len ch) (omega (arith, n))),
        drop-take 16 len ch ∙ ap (λ j. take j (drop 16 ch)) {y = 0} (omega arith),
      ),
    )

-- A row of 16 before the rows of the rest.
Rows-cons :
    (ch : Bytes) (len offset : ℕ) (rs : List Row)
    → 16 < len
    → len ≤ length ch
    → Rows (offset + 16) (take (len - 16) (drop 16 ch)) rs
    → Rows offset (take len ch) (row ch 16 offset ∷ rs)
Rows-cons ch len offset rs s l r = (
  omega (arith, length_taken len ch l),
  refl,
  sym (take-take 16 len ch (omega arith)),
  subst (λ bs. Rows (offset + 16) bs rs) (sym (drop-take 16 len ch)) r,
)

rest_inside : (ch : Bytes) (len : ℕ) → 16 < len → len ≤ length ch → len - 16 ≤ length (drop 16 ch)
rest_inside ch len s l = omega (arith, length-drop 16 ch)

pub suc_test : (n : ℕ) → (suc n == 0) ≡ false
suc_test n = ground arith

payload_rows-Rows :
    (fuel : ℕ) (ch : Bytes) (len offset : ℕ)
    → len ≤ fuel
    → 16 < len
    → len ≤ length ch
    → (rs : List Row) × (payload_rows fuel ch len offset ≡ some rs) × Rows offset (take len ch) rs
unfolding payload_rows
payload_rows-Rows zero ch len offset f s l = absurd (omega arith)
payload_rows-Rows (suc fuel) ch len offset f s l = elim (Bool-cases (leb (len - 16) 16)) [
  | inl t ↦
      let (rs, e, r) =
        one_row-Rows (drop 16 ch) (len - 16) (offset + 16) (omega arith) (leb_le (len - 16) 16 t)
          (rest_inside ch len s l) in
      (
        row ch 16 offset ∷ rs,
        rw (remainder_lem len s, row_at_inside ch 16 offset (omega arith), t, e),
        Rows-cons ch len offset rs s l r,
      )
  | inr n ↦
      let (rs, e, r) =
        payload_rows-Rows fuel (drop 16 ch) (len - 16) (offset + 16) (omega arith)
          (leb_gt (len - 16) 16 n) (rest_inside ch len s l) in
      (
        row ch 16 offset ∷ rs,
        rw (remainder_lem len s, row_at_inside ch 16 offset (omega arith), n, e),
        Rows-cons ch len offset rs s l r,
      )
]

-- A payload whose bytes were all captured is printed in rows of 16 from offset 0 on, none of its bytes
-- left out, and the loop ends.
pub print_payload-Rows :
    (payload : Bytes) (len : ℕ)
    → len ≤ length payload
    → (rs : List Row) × (print_payload payload len ≡ some rs) × Rows 0 (take len payload) rs
unfolding print_payload
print_payload-Rows payload zero l = ([], refl, refl)
print_payload-Rows payload (suc n) l = elim (Bool-cases (leb (suc n) 16)) [
  | inl t ↦
      let (rs, e, r) = one_row-Rows payload (suc n) 0 (omega arith) (leb_le (suc n) 16 t) l in
      (rs, rw (suc_test n, t) e, r)
  | inr f ↦
      let (rs, e, r) =
        payload_rows-Rows (suc n) payload (suc n) 0 (omega arith) (leb_gt (suc n) 16 f) l in
      (rs, rw (suc_test n, f) e, r)
]
