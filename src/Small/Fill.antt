-- ===== src/Small/Fill.antt =====
-- profiling/src/main.c: `func2` and the loop that repeats it. `none` is a write outside the buffer.
use diversity.Prelude.{
  ℕ, zero, suc, ◌+◌, ◌-◌, ◌≤◌, ◌≡◌, refl, sym, ap, ap₂, ◌∙◌, false, ◌||◌, Option, none, some, [],
  ◌∷◌, ◌++◌, arith, ltb, if◌then◌else◌, ◌>>=◌, length, set, drop, replicate, length-append,
  drop-append, Bytes,
}

-- `memset` of the first `n` bytes
abbrev filled : ℕ → Bytes → Bytes
filled n buf = replicate n 99 ++ drop n buf

unfoldable pub func2 : Bytes → ℕ → Option Bytes
func2 buf size =
    if ltb size 2 || ltb (length buf) size
    then none
    else some (set (filled (size - 2) buf) (size - 1) 0)

-- `heap_allocation`, for any number of times.
unfoldable pub heap_allocation : ℕ → Bytes → ℕ → Option Bytes
heap_allocation zero buf size = some buf
heap_allocation (suc times) buf size = do b ← func2 buf size; heap_allocation times b size

set_last :
    (body : Bytes) (a b : ℕ) (rest : Bytes)
    → set (replicate (length body) 99 ++ a ∷ b ∷ rest) (suc (length body)) 0
      ≡ replicate (length body) 99 ++ a ∷ 0 ∷ rest
set_last [] a b rest = refl
set_last (x ∷ body) a b rest = ap (◌∷◌ 99) (set_last body a b rest)

inside : (n k : ℕ) → n + 2 ≤ k → (ltb (n + 2) 2 || ltb k (n + 2)) ≡ false
inside n k h = ground arith

length-layout :
    (body : Bytes) (a b : ℕ) (rest : Bytes) → length body + 2 ≤ length (body ++ a ∷ b ∷ rest)
length-layout body a b rest = omega (arith, length-append body (a ∷ b ∷ rest))

func2_inside :
    (n : ℕ) (buf : Bytes)
    → n + 2 ≤ length buf
    → func2 buf (n + 2) ≡ some (set (replicate n 99 ++ drop n buf) (suc n) 0)
unfolding func2
func2_inside n buf h = rw (inside n (length buf) h) (
    ap₂ (λ k l. some (set (replicate k 99 ++ drop k buf) l 0)) {x = n + 2 - 2} {y = n}
      {u = n + 2 - 1} {v = suc n} (omega arith) (omega arith))

func2-layout :
    (body : Bytes) (a b : ℕ) (rest : Bytes)
    → func2 (body ++ a ∷ b ∷ rest) (length body + 2)
      ≡ some (replicate (length body) 99 ++ a ∷ 0 ∷ rest)
func2-layout body a b rest =
    func2_inside (length body) (body ++ a ∷ b ∷ rest) (length-layout body a b rest)
    ∙ ap (λ d. some (set (replicate (length body) 99 ++ d) (suc (length body)) 0))
        (drop-append body (a ∷ b ∷ rest))
    ∙ ap some (set_last body a b rest)

length-replicate : (n x : ℕ) → length (replicate n x) ≡ n
length-replicate zero x = refl
length-replicate (suc n) x = ap suc (length-replicate n x)

-- Filling again changes nothing: however often it is done, the last byte is 0, the one before it is never written, and
-- all before these are the letter c.
pub heap_allocation-layout :
    (times : ℕ) (body : Bytes) (a b : ℕ) (rest : Bytes)
    → heap_allocation (suc times) (body ++ a ∷ b ∷ rest) (length body + 2)
      ≡ some (replicate (length body) 99 ++ a ∷ 0 ∷ rest)
unfolding heap_allocation
heap_allocation-layout zero body a b rest = rw (func2-layout body a b rest) refl
heap_allocation-layout (suc times) body a b rest =
    let full = replicate (length body) 99 in
    rw (func2-layout body a b rest) (
      ap (λ n. heap_allocation (suc times) (full ++ a ∷ 0 ∷ rest) (n + 2))
        (sym (length-replicate (length body) 99))
      ∙ heap_allocation-layout times full a 0 rest
      ∙ ap (λ n. some (replicate n 99 ++ a ∷ 0 ∷ rest)) (length-replicate (length body) 99))
