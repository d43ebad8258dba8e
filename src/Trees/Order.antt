-- ===== src/Trees/Order.antt =====
-- The order of a search tree, and lists in ascending order.
use diversity.Prelude.Int.{ℤ}
use diversity.Prelude.Int.{ltb_ℤ, pos_part, ◌<ℤ◌}
use diversity.Prelude.Int.{neg_part}
use diversity.Prelude.{
  ◌+◌, ◌≡◌, refl, ap, ◌∙◌, inl, inr, true, false, List, [], ◌∷◌, ◌++◌, if◌then◌else◌, lt→ltb,
  Bool-cases,
}
use diversity.Trees.{Tree, leaf, node}

-- Each value of the tree is less than `x`.
abbrev pub AllBelow : ℤ → Tree → Type 0
AllBelow x leaf = Unit
AllBelow x (node l y r) = y <ℤ x × AllBelow x l × AllBelow x r

-- Each value of the tree is greater than `x`.
abbrev pub AllAbove : ℤ → Tree → Type 0
AllAbove x leaf = Unit
AllAbove x (node l y r) = x <ℤ y × AllAbove x l × AllAbove x r

abbrev pub Ordered : Tree → Type 0
Ordered leaf = Unit
Ordered (node l x r) = AllBelow x l × AllAbove x r × Ordered l × Ordered r

-- The insertion into a list in ascending order; a value that is there is not added.
unfoldable pub inserted : ℤ → List ℤ → List ℤ
inserted x [] = x ∷ []
inserted x (y ∷ ys) =
    let rest = inserted x ys in
    if ltb_ℤ y x then y ∷ rest else if ltb_ℤ x y then x ∷ y ∷ ys else y ∷ ys

pub inserted_less :
    (x y : ℤ) (ys : List ℤ) → ltb_ℤ y x ≡ true → inserted x (y ∷ ys) ≡ y ∷ inserted x ys
unfolding inserted
inserted_less x y ys t = rw t refl

pub inserted_greater :
    (x y : ℤ) (ys : List ℤ)
    → ltb_ℤ y x ≡ false
    → ltb_ℤ x y ≡ true
    → inserted x (y ∷ ys) ≡ x ∷ y ∷ ys
unfolding inserted
inserted_greater x y ys f t = rw (f, t) refl

pub inserted_same :
    (x y : ℤ) (ys : List ℤ) → ltb_ℤ y x ≡ false → ltb_ℤ x y ≡ false → inserted x (y ∷ ys) ≡ y ∷ ys
unfolding inserted
inserted_same x y ys f g = rw (f, g) refl

-- Behind smaller elements the insertion goes on.
abbrev pub AreBelow : ℤ → List ℤ → Type 0
AreBelow x [] = Unit
AreBelow x (y ∷ ys) = y <ℤ x × AreBelow x ys

pub AreBelow-append :
    (x : ℤ) (ys zs : List ℤ) → AreBelow x ys → AreBelow x zs → AreBelow x (ys ++ zs)
AreBelow-append x [] zs a b = b
AreBelow-append x (y ∷ ys) zs a b = (a.0, AreBelow-append x ys zs a.1 b)

pub inserted-append_right :
    (x : ℤ) (ys zs : List ℤ) → AreBelow x ys → inserted x (ys ++ zs) ≡ ys ++ inserted x zs
inserted-append_right x [] zs b = refl
inserted-append_right x (y ∷ ys) zs b =
    inserted_less x y (ys ++ zs) (lt→ltb (pos_part y + neg_part x) (pos_part x + neg_part y) b.0)
    ∙ ap (◌∷◌ y) (inserted-append_right x ys zs b.1)

-- Before a greater element it ends.
pub inserted-append_left :
    (x y : ℤ) (ys zs : List ℤ)
    → ltb_ℤ y x ≡ false
    → ltb_ℤ x y ≡ true
    → inserted x (ys ++ y ∷ zs) ≡ inserted x ys ++ y ∷ zs
unfolding inserted
inserted-append_left x y [] zs f t = inserted_greater x y zs f t
inserted-append_left x y (w ∷ ys) zs f t = elim (Bool-cases (ltb_ℤ w x)) [
  | inl a ↦
      rw (inserted_less x w (ys ++ y ∷ zs) a, inserted_less x w ys a)
        (ap (◌∷◌ w) (inserted-append_left x y ys zs f t))
  | inr b ↦ elim (Bool-cases (ltb_ℤ x w)) [
    | inl c ↦ rw (inserted_greater x w (ys ++ y ∷ zs) b c, inserted_greater x w ys b c) refl
    | inr d ↦ rw (inserted_same x w (ys ++ y ∷ zs) b d, inserted_same x w ys b d) refl
  ]
]
