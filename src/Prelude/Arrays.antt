-- ===== src/Prelude/Arrays.antt =====
-- Arrays whose accesses are checked: `none` is an access outside the array.
use diversity.Prelude.{
  ℕ, zero, suc, ◌<◌, ◌≡◌, refl, ap, ◌∙◌, Option, none, some, List, [], ◌∷◌, ◌++◌, arith, ltb,
  if◌then◌else◌, lt→ltb, length, get_elem?, set, length-append,
}

module _ {ℓ} {A : Type ℓ} where
  abbrev pub read : List A → ℕ → Option A
  read arr i = get_elem? arr i

  abbrev pub write : List A → ℕ → A → Option (List A)
  write arr i v = if ltb i (length arr) then some (set arr i v) else none

  pub read-middle :
      (before after : List A) (x : A) (i : ℕ)
      → i ≡ length before
      → read (before ++ x ∷ after) i ≡ some x
  read-middle [] after x zero h = refl
  read-middle [] after x (suc i) h = absurd (omega (arith, h))
  read-middle (b ∷ before) after x zero h = absurd (omega (arith, h))
  read-middle (b ∷ before) after x (suc i) h = read-middle before after x i (omega (arith, h))

  pub set-middle :
      (before after : List A) (x v : A) (i : ℕ)
      → i ≡ length before
      → set (before ++ x ∷ after) i v ≡ before ++ v ∷ after
  set-middle [] after x v zero h = refl
  set-middle [] after x v (suc i) h = absurd (omega (arith, h))
  set-middle (b ∷ before) after x v zero h = absurd (omega (arith, h))
  set-middle (b ∷ before) after x v (suc i) h =
      ap (◌∷◌ b) (set-middle before after x v i (omega (arith, h)))

  pub write_known :
      (arr : List A) (i : ℕ) (v : A) → i < length arr → write arr i v ≡ some (set arr i v)
  write_known arr i v h = rw (lt→ltb i (length arr) h) refl

  pub write-middle :
      (before after : List A) (x v : A) (i : ℕ)
      → i ≡ length before
      → write (before ++ x ∷ after) i v ≡ some (before ++ v ∷ after)
  write-middle before after x v i h =
      write_known (before ++ x ∷ after) i v (omega (arith, h, length-append {ℓ} before (x ∷ after)))
      ∙ ap some (set-middle before after x v i h)
