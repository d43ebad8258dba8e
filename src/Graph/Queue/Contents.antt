-- ===== src/Graph/Queue/Contents.antt =====
-- The elements of a queue after its operations.
use diversity.Prelude.Int.{ℤ}
use diversity.Prelude.{
  ℕ, zero, suc, ◌+◌, ◌-◌, ◌≤◌, ◌<◌, ◌≡◌, refl, sym, ap, ◌∙◌, false, some, List, [], ◌∷◌, ◌++◌,
  append-nil, append_assoc, arith, ◌==◌, length, set, take, length-append, length-set, length-take,
  take-append,
}
use diversity.Prelude.Arrays.{read, read-middle, write-middle, write_known}
use diversity.Graph.Queue.{
  Queue, is_full, is_empty, enqueue, move_up, dequeue, peek, IsQueue, contents,
}

take_known : (xs ys : List ℤ) (i : ℕ) → i ≡ length xs → take i (xs ++ ys) ≡ xs
take_known xs ys i h = rw h (take-append xs ys)

-- The loop moves what is behind `i` up by one; the last element stays twice.
move_up_lem :
    (k i : ℕ) (before rest : List ℤ) (y : ℤ)
    → i ≡ length before
    → k ≤ length rest
    → (cells : List ℤ) × (move_up k i (before ++ y ∷ rest) ≡ some cells)
      × (take (i + k) cells ≡ before ++ take k rest)
      × (length cells ≡ length (before ++ y ∷ rest))
unfolding move_up
move_up_lem zero i before rest y hi hk = (
  before ++ y ∷ rest,
  refl,
  take_known before (y ∷ rest) (i + 0) (omega (arith, hi)) ∙ sym (append-nil before),
  refl,
)
move_up_lem (suc k) i before [] y hi hk = absurd (omega (arith, hk))
move_up_lem (suc k) i before (z ∷ rest) y hi hk =
    let there : before ++ z ∷ z ∷ rest ≡ (before ++ z ∷ []) ++ z ∷ rest =
      sym (append_assoc before (z ∷ []) (z ∷ rest)) in
    let next : read (before ++ y ∷ z ∷ rest) (i + 1) ≡ some z =
      ap (λ l. read l (i + 1)) (sym (append_assoc before (y ∷ []) (z ∷ rest)))
      ∙ read-middle (before ++ y ∷ []) rest z (i + 1)
          (omega (arith, hi, length-append {0} before (y ∷ []))) in
    let moved = write-middle before (z ∷ rest) y z i hi ∙ ap some there in
    let (cells, e, t, l) =
      move_up_lem k (i + 1) (before ++ z ∷ []) rest z
        (omega (arith, hi, length-append {0} before (z ∷ []))) (omega (arith, hk)) in
    (
      cells,
      rw (next, moved) e,
      ap (λ n. take n cells) {x = i + suc k} {y = i + 1 + k} (omega arith)
          ∙ t
          ∙ append_assoc before (z ∷ []) (take k rest),
      l
          ∙ sym (ap length there)
          ∙ omega (
            arith,
            length-append {0} before (z ∷ z ∷ rest),
            length-append {0} before (y ∷ z ∷ rest),
          ),
    )

take-set :
    (n : ℕ) (cells : List ℤ) (v : ℤ)
    → n < length cells
    → take (suc n) (set cells n v) ≡ take n cells ++ v ∷ []
take-set n [] v h = absurd (omega (arith, h))
take-set zero (c ∷ cells) v h = refl
take-set (suc n) (c ∷ cells) v h = ap (◌∷◌ c) (take-set n cells v (omega (arith, h)))

pub length-contents : (q : Queue) → IsQueue q → length (contents q) ≡ q.count
length-contents q (h, l) = omega (arith, length-take q.count q.cells, h, l)

-- What a queue with room for `value` becomes.
pub enqueue-contents :
    (q : Queue) (value : ℤ)
    → IsQueue q
    → q.count < q.capacity
    → (q' : Queue) × (enqueue value q ≡ some q')
      × IsQueue q'
      × (contents q' ≡ contents q ++ value ∷ [])
      × (q'.capacity ≡ q.capacity)
unfolding enqueue is_full
enqueue-contents q value (h, l) room = (
  record q { cells = set q.cells q.count value; count = q.count + 1 },
  rw (differ q.count q.capacity room, write_known q.cells q.count value (omega (arith, room, l)))
      refl,
  (omega (arith, room), length-set q.cells q.count value ∙ l),
  ap (λ n. take n (set q.cells q.count value)) {x = q.count + 1} {y = suc q.count} (omega arith)
      ∙ take-set q.count q.cells value (omega (arith, room, l)),
  refl,
)
  where
    differ : (a b : ℕ) → a < b → (a == b) ≡ false
    differ a b h = ground arith

-- The front, and the queue without it.
pub dequeue-contents :
    (q : Queue) (value : ℤ) (rest : List ℤ)
    → IsQueue q
    → contents q ≡ value ∷ rest
    → (q' : Queue) × (dequeue q ≡ some (value, q'))
      × IsQueue q'
      × (contents q' ≡ rest)
      × (q'.capacity ≡ q.capacity)
      × (peek q ≡ some value)
unfolding dequeue is_empty peek
dequeue-contents q value rest (h, l) e = go q.count q.cells refl refl e
  where
    nonzero : (n : ℕ) → (suc n == 0) ≡ false
    nonzero n = ground arith

    less_one : (n : ℕ) → suc n - 1 ≡ n
    less_one n = omega arith

    go :
        (n : ℕ) (cells : List ℤ)
        → q.count ≡ n
        → q.cells ≡ cells
        → take n cells ≡ value ∷ rest
        → (q' : Queue) × (dequeue q ≡ some (value, q'))
          × IsQueue q'
          × (contents q' ≡ rest)
          × (q'.capacity ≡ q.capacity)
          × (peek q ≡ some value)
    go zero cells c d u = cc
    go (suc n) [] c d u = cc
    go (suc n) (x ∷ cells) c d u =
        let hd : x ≡ value = cc in
        let tl : take n cells ≡ rest = cc in
        let (cells', m, t, len) =
          move_up_lem n 0 [] cells x refl (omega (arith, h, l, c, ap length d)) in
        (
          record { count = n; capacity = q.capacity; cells = cells' },
          rw (c, d, nonzero n, less_one n, m)
              (ap (λ v. some (v, record { count = n; capacity = q.capacity; cells = cells' })) hd),
          (omega (arith, h, c), len ∙ ap length (sym d) ∙ l),
          ap (λ m. take m cells') {x = n} {y = 0 + n} (omega arith) ∙ t ∙ tl,
          refl,
          rw d (ap some hd),
        )
