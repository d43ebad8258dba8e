-- ===== src/Stacks/Contents.antt =====
-- The elements of a stack, the top first.
use diversity.Prelude.Int.{ℤ}
use diversity.Prelude.Int.{pos}
use diversity.Prelude.Arrays.{write_known}
use diversity.Prelude.{
  ℕ, zero, suc, ◌+◌, ◌-◌, ◌≤◌, ◌<◌, ◌≡◌, refl, ap, ap₂, ◌∙◌, subst, false, some, List, [], ◌∷◌,
  arith, ◌==◌, length, get_elem?, get_or, set, length-set, get_elem?-eq-get_or, get_or-set_self,
  get_or-set_ne,
}
use diversity.Stacks.{Stack, push, pop, peek}

-- The first `n` cells, the last of them first.
abbrev pub upper : ℕ → List ℤ → List ℤ
upper zero cells = []
upper (suc n) cells = get_or cells n (pos 0) ∷ upper n cells

abbrev pub contents : Stack → List ℤ
contents s = upper s.count s.cells

abbrev pub IsStack : Stack → Type 0
IsStack s = s.count ≤ s.capacity × (length s.cells ≡ s.capacity)

-- A write behind them does not change them.
upper-set : (n i : ℕ) (cells : List ℤ) (v : ℤ) → n ≤ i → upper n (set cells i v) ≡ upper n cells
upper-set zero i cells v h = refl
upper-set (suc n) i cells v h =
    ap₂ (λ a b. a ∷ b) (get_or-set_ne cells i n v (pos 0) (λ e. absurd (omega (arith, e, h))))
      (upper-set n i cells v (omega (arith, h)))

length-upper : (n : ℕ) (cells : List ℤ) → length (upper n cells) ≡ n
length-upper zero cells = refl
length-upper (suc n) cells = ap suc (length-upper n cells)

pub length-contents : (s : Stack) → length (contents s) ≡ s.count
length-contents s = length-upper s.count s.cells

shown :
    (s : Stack) (value : ℤ)
    → IsStack s
    → s.count < s.capacity
    → upper (s.count + 1) (set s.cells s.count value) ≡ value ∷ upper s.count s.cells
shown s value (h, l) room =
    ap (λ n. upper n (set s.cells s.count value)) {x = s.count + 1} {y = suc s.count} (omega arith)
    ∙ ap₂ (λ a b. a ∷ b) (get_or-set_self s.cells s.count value (pos 0) (omega (arith, room, l)))
        (upper-set s.count s.count s.cells value (omega arith))

-- What a stack with room for `value` becomes.
pub push-contents :
    (s : Stack) (value : ℤ)
    → IsStack s
    → s.count < s.capacity
    → (s' : Stack) × (push value s ≡ some s')
      × IsStack s'
      × (contents s' ≡ value ∷ contents s)
      × (s'.capacity ≡ s.capacity)
      × (s'.id ≡ s.id)
unfolding push
push-contents s value (h, l) room = (
  record s { count = s.count + 1; cells = set s.cells s.count value },
  rw (differ s.count s.capacity room, write_known s.cells s.count value (omega (arith, room, l)))
      refl,
  (omega (arith, room), length-set s.cells s.count value ∙ l),
  shown s value (h, l) room,
  refl,
  refl,
)
  where
    differ : (a b : ℕ) → a < b → (a == b) ≡ false
    differ a b h = ground arith

-- The top, and the stack without it.
pub pop-contents :
    (s : Stack) (value : ℤ) (rest : List ℤ)
    → IsStack s
    → contents s ≡ value ∷ rest
    → (s' : Stack) × (pop s ≡ some (value, s'))
      × IsStack s'
      × (contents s' ≡ rest)
      × (s'.capacity ≡ s.capacity)
      × (s'.id ≡ s.id)
      × (peek s ≡ some value)
unfolding pop peek
pop-contents s value rest (h, l) e =
    go s.count refl (subst (λ n. upper n s.cells ≡ value ∷ rest) refl e)
  where
    nonzero : (n : ℕ) → (suc n == 0) ≡ false
    nonzero n = ground arith

    less_one : (n : ℕ) → suc n - 1 ≡ n
    less_one n = omega arith

    go :
        (n : ℕ)
        → s.count ≡ n
        → upper n s.cells ≡ value ∷ rest
        → (s' : Stack) × (pop s ≡ some (value, s'))
          × IsStack s'
          × (contents s' ≡ rest)
          × (s'.capacity ≡ s.capacity)
          × (s'.id ≡ s.id)
          × (peek s ≡ some value)
    go zero c u = cc
    go (suc n) c u =
        let hd : get_or s.cells n (pos 0) ≡ value = cc in
        let tl : upper n s.cells ≡ rest = cc in
        let top : get_elem? s.cells n ≡ some value =
          get_elem?-eq-get_or s.cells n (pos 0) (omega (arith, h, c, l)) ∙ ap some hd in
        (
          record s { count = n },
          rw (c, nonzero n, less_one n, top) refl,
          (omega (arith, h, c), l),
          tl,
          refl,
          refl,
          rw (c, nonzero n, less_one n) top,
        )
