-- ===== src/Trees/Insert.antt =====
-- `insert` and what `inorder` prints.
use diversity.MergeSort.Merge.{not_below}
use diversity.Prelude.Int.{ℤ}
use diversity.Prelude.Int.{ltb_ℤ, ◌≤ℤ◌, ◌<ℤ◌}
use diversity.Prelude.{◌≡◌, refl, sym, ap, ◌∙◌, inl, inr, true, false, ◌∷◌, ◌++◌, arith, Bool-cases}
use diversity.Searching.Reads.{ltb_ℤ→lt}
use diversity.Trees.{Tree, leaf, node, insert, inorder}
use diversity.Trees.Order.{
  AllBelow, AllAbove, Ordered, inserted, inserted_less, inserted_same, AreBelow, AreBelow-append,
  inserted-append_right, inserted-append_left,
}

pub insert_right :
    (x y : ℤ) (l r : Tree) → ltb_ℤ y x ≡ true → insert x (node l y r) ≡ node l y (insert x r)
unfolding insert
insert_right x y l r t = rw t refl

pub insert_left :
    (x y : ℤ) (l r : Tree)
    → ltb_ℤ y x ≡ false
    → ltb_ℤ x y ≡ true
    → insert x (node l y r) ≡ node (insert x l) y r
unfolding insert
insert_left x y l r f t = rw (f, t) refl

pub insert_same :
    (x y : ℤ) (l r : Tree)
    → ltb_ℤ y x ≡ false
    → ltb_ℤ x y ≡ false
    → insert x (node l y r) ≡ node l y r
unfolding insert
insert_same x y l r f g = rw (f, g) refl

AreBelow-inorder : (t : Tree) (x y : ℤ) → y ≤ℤ x → AllBelow y t → AreBelow x (inorder t)
unfolding inorder
AreBelow-inorder leaf x y h b = tt
AreBelow-inorder (node l w r) x y h b =
    AreBelow-append x (inorder l) (w ∷ inorder r) (AreBelow-inorder l x y h b.1)
      (omega (arith, h, b.0), AreBelow-inorder r x y h b.2)

AllBelow-insert : (t : Tree) (x y : ℤ) → x <ℤ y → AllBelow y t → AllBelow y (insert x t)
unfolding insert
AllBelow-insert leaf x y h b = (h, tt, tt)
AllBelow-insert (node l w r) x y h b = elim (Bool-cases (ltb_ℤ w x)) [
  | inl t ↦ rw (insert_right x w l r t) (b.0, b.1, AllBelow-insert r x y h b.2)
  | inr f ↦ elim (Bool-cases (ltb_ℤ x w)) [
    | inl t ↦ rw (insert_left x w l r f t) (b.0, AllBelow-insert l x y h b.1, b.2)
    | inr g ↦ rw (insert_same x w l r f g) b
  ]
]

AllAbove-insert : (t : Tree) (x y : ℤ) → y <ℤ x → AllAbove y t → AllAbove y (insert x t)
unfolding insert
AllAbove-insert leaf x y h b = (h, tt, tt)
AllAbove-insert (node l w r) x y h b = elim (Bool-cases (ltb_ℤ w x)) [
  | inl t ↦ rw (insert_right x w l r t) (b.0, b.1, AllAbove-insert r x y h b.2)
  | inr f ↦ elim (Bool-cases (ltb_ℤ x w)) [
    | inl t ↦ rw (insert_left x w l r f t) (b.0, AllAbove-insert l x y h b.1, b.2)
    | inr g ↦ rw (insert_same x w l r f g) b
  ]
]

inorder_node : (l r : Tree) (y : ℤ) → inorder (node l y r) ≡ inorder l ++ y ∷ inorder r
unfolding inorder
inorder_node l r y = refl

-- An insertion into a search tree leaves a search tree, and what inorder prints of it is what it printed before with the
-- value at its place in the ascending order, unless it was there.
pub inorder-insert :
    (t : Tree) (x : ℤ)
    → Ordered t
    → Ordered (insert x t) × (inorder (insert x t) ≡ inserted x (inorder t))
unfolding insert inorder inserted
inorder-insert leaf x o = ((tt, tt, tt, tt), refl)
inorder-insert (node l y r) x (bl, ar, ol, or') = elim (Bool-cases (ltb_ℤ y x)) [
  | inl t ↦
      let lt = ltb_ℤ→lt y x t in
      let (o, e) = inorder-insert r x or' in
      rw (insert_right x y l r t) (
        (bl, AllAbove-insert r x y lt ar, ol, o),
        ap (λ s. inorder l ++ y ∷ s) e
            ∙ ap (◌++◌ (inorder l)) (sym (inserted_less x y (inorder r) t))
            ∙ sym (
                inserted-append_right x (inorder l) (y ∷ inorder r)
                  (AreBelow-inorder l x y (omega (arith, lt)) bl)),
      )
  | inr f ↦ elim (Bool-cases (ltb_ℤ x y)) [
    | inl t ↦
        let (o, e) = inorder-insert l x ol in
        rw (insert_left x y l r f t) (
          (AllBelow-insert l x y (ltb_ℤ→lt x y t) bl, ar, o, or'),
          ap (λ s. s ++ y ∷ inorder r) e
              ∙ sym (inserted-append_left x y (inorder l) (inorder r) f t),
        )
    | inr g ↦ rw (insert_same x y l r f g) (
      (bl, ar, ol, or'),
      ap (◌++◌ (inorder l)) (sym (inserted_same x y (inorder r) f g))
          ∙ sym (
              inserted-append_right x (inorder l) (y ∷ inorder r)
                (AreBelow-inorder l x y (not_below x y g) bl)),
    )
  ]
]
