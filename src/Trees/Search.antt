-- ===== src/Trees/Search.antt =====
-- `search` after `insert`.
use diversity.Prelude.Int.{ℤ}
use diversity.Prelude.Int.{ltb_ℤ}
use diversity.Trees.Insert.{insert_same}
use diversity.MergeSort.Merge.{not_below}
use diversity.Searching.Reads.{other_lt}
use diversity.Prelude.{
  ◌≡◌, refl, ap, ◌∙◌, subst, ◌≢◌, inl, inr, true, false, Option, none, some, arith, if◌then◌else◌,
  Bool-cases,
}
use diversity.Searching.{eq_ℤ}
use diversity.Searching.Reads.{ltb_ℤ→lt, eq_ℤ→eq, eq_ℤ_self, below_ne, above_ne}
use diversity.Trees.{Tree, leaf, node, insert, search}
use diversity.Trees.Insert.{insert_right, insert_left}

-- `r->data` of a pointer that is not NULL.
abbrev pub value : Tree → Option ℤ
value leaf = none
value (node l x r) = some x

search_here : (y z : ℤ) (l r : Tree) → eq_ℤ z y ≡ true → search y (node l z r) ≡ node l z r
unfolding search
search_here y z l r e = rw e refl

search_right :
    (y z : ℤ) (l r : Tree)
    → eq_ℤ z y ≡ false
    → ltb_ℤ z y ≡ true
    → search y (node l z r) ≡ search y r
unfolding search
search_right y z l r e t = rw (e, t) refl

search_left :
    (y z : ℤ) (l r : Tree)
    → eq_ℤ z y ≡ false
    → ltb_ℤ z y ≡ false
    → search y (node l z r) ≡ search y l
unfolding search
search_left y z l r e f = rw (e, f) refl

-- The value is there.
search-insert_self : (t : Tree) (x : ℤ) → value (search x (insert x t)) ≡ some x
unfolding insert
search-insert_self leaf x = ap value (search_here x x leaf leaf (eq_ℤ_self x))
search-insert_self (node l z r) x = elim (Bool-cases (ltb_ℤ z x)) [
  | inl t ↦
      rw
        (
          insert_right x z l r t,
          search_right x z l (insert x r) (differ z x (below_ne x z (ltb_ℤ→lt z x t))) t,
        )
        (search-insert_self r x)
  | inr f ↦ elim (Bool-cases (ltb_ℤ x z)) [
    | inl t ↦
        rw
          (
            insert_left x z l r f t,
            search_left x z (insert x l) r (differ z x (above_ne x z (ltb_ℤ→lt x z t))) f,
          )
          (search-insert_self l x)
    | inr g ↦
        rw (insert_same x z l r f g) (
          ap value (search_here x z l r (neither z x f g))
          ∙ ap some (eq_ℤ→eq z x (neither z x f g)))
  ]
]
  where
    neither : (a b : ℤ) → ltb_ℤ a b ≡ false → ltb_ℤ b a ≡ false → eq_ℤ a b ≡ true
    neither a b f g = elim (Bool-cases (eq_ℤ a b)) [
      | inl t ↦ t
      | inr n ↦ absurd (omega (arith, not_below b a g, other_lt a b n f))
    ]

    differ : (a b : ℤ) → a ≢ b → eq_ℤ a b ≡ false
    differ a b h = elim (Bool-cases (eq_ℤ a b)) [ inl t ↦ absurd (h (eq_ℤ→eq a b t)) | inr f ↦ f ]

-- What a search finds in a node depends on what it finds below it.
search-node :
    (y z : ℤ) (l l' r r' : Tree)
    → value (search y l) ≡ value (search y l')
    → value (search y r) ≡ value (search y r')
    → value (search y (node l z r)) ≡ value (search y (node l' z r'))
search-node y z l l' r r' el er = elim (Bool-cases (eq_ℤ z y)) [
  | inl e ↦ rw (search_here y z l r e, search_here y z l' r' e) refl
  | inr n ↦ elim (Bool-cases (ltb_ℤ z y)) [
    | inl t ↦ rw (search_right y z l r n t, search_right y z l' r' n t) er
    | inr f ↦ rw (search_left y z l r n f, search_left y z l' r' n f) el
  ]
]

search_single :
    (x y : ℤ) → eq_ℤ x y ≡ false → value (search y (node leaf x leaf)) ≡ value (search y leaf)
search_single x y n = elim (Bool-cases (ltb_ℤ x y)) [
  | inl t ↦ ap value (search_right y x leaf leaf n t)
  | inr f ↦ ap value (search_left y x leaf leaf n f)
]

search-insert_other :
    (t : Tree) (x y : ℤ) → eq_ℤ x y ≡ false → value (search y (insert x t)) ≡ value (search y t)
unfolding insert
search-insert_other leaf x y n = search_single x y n
search-insert_other (node l z r) x y n = elim (Bool-cases (ltb_ℤ z x)) [
  | inl t ↦
      ap (λ s. value (search y s)) (insert_right x z l r t)
      ∙ search-node y z l l (insert x r) r refl (search-insert_other r x y n)
  | inr f ↦ elim (Bool-cases (ltb_ℤ x z)) [
    | inl t ↦
        ap (λ s. value (search y s)) (insert_left x z l r f t)
        ∙ search-node y z (insert x l) l r r (search-insert_other l x y n) refl
    | inr g ↦ ap (λ s. value (search y s)) (insert_same x z l r f g)
  ]
]

-- After an insertion, search finds a node with the value inserted, and one with any other value exactly if it did before.
pub search-insert :
    (t : Tree) (x y : ℤ)
    → value (search y (insert x t)) ≡ (if eq_ℤ x y then some y else value (search y t))
search-insert t x y = elim (Bool-cases (eq_ℤ x y)) [
  | inl e ↦
      rw e (
        subst (λ z. value (search z (insert x t)) ≡ some z) (eq_ℤ→eq x y e)
          (search-insert_self t x))
  | inr n ↦ rw n (search-insert_other t x y n)
]
