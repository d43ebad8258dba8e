-- ===== src/Graph/Laws.antt =====
-- The stack and the queue are worklists.
use diversity.Prelude.Int.{ℤ, pos}
use diversity.Prelude.{
  ℕ, suc, ◌≡◌, refl, sym, ap, ◌∙◌, ◌⊎◌, inl, inr, false, List, [], ◌∷◌, ◌++◌, map, arith, ◌==◌,
  length, length-append,
}
use diversity.Stacks
use diversity.Stacks.{Stack, is_empty}
use diversity.Stacks.Contents
use diversity.Stacks.Contents.{IsStack, push-contents, pop-contents}
use diversity.Graph.Queue
use diversity.Graph.Queue.{Queue, IsQueue}
use diversity.Graph.Queue.Contents.{length-contents, enqueue-contents, dequeue-contents}
use diversity.Graph.Worklist.{In, Laws}
use diversity.Graph.Search.{stack_work, queue_work}

-- The stack holds these vertices, the top first.
abbrev pub HoldsStack : ℕ → Stack → List ℕ → Type 0
HoldsStack room s xs = IsStack s × (Contents.contents s ≡ map pos xs) × (s.capacity ≡ room)

-- The queue holds these vertices, the front first.
abbrev pub HoldsQueue : ℕ → Queue → List ℕ → Type 0
HoldsQueue room q xs = IsQueue q × (Queue.contents q ≡ map pos xs) × (q.capacity ≡ room)

length-map : (xs : List ℕ) → length (map pos xs) ≡ length xs
length-map [] = refl
length-map (x ∷ xs) = ap suc (length-map xs)

counted : (n : ℕ) (xs : List ℕ) (zs : List ℤ) → length zs ≡ n → zs ≡ map pos xs → n ≡ length xs
counted n xs zs l e = sym l ∙ ap length e ∙ length-map xs

not_zero : (n m : ℕ) → n ≡ suc m → (n == 0) ≡ false
not_zero n m e = ground (arith, e)

stack_count : (room : ℕ) (s : Stack) (xs : List ℕ) → HoldsStack room s xs → s.count ≡ length xs
stack_count room s xs (_, e, _) =
    counted s.count xs (Contents.contents s) (Contents.length-contents s) e

queue_count : (room : ℕ) (q : Queue) (xs : List ℕ) → HoldsQueue room q xs → q.count ≡ length xs
queue_count room q xs (h, e, _) = counted q.count xs (Queue.contents q) (length-contents q h) e

pub stack-Laws : (room : ℕ) → Laws Stack stack_work room (HoldsStack room)
unfolding Stacks.is_empty
stack-Laws room = record {
  none_left = λ s h. rw (stack_count room s [] h) refl;
  some_left = λ s x xs h. not_zero s.count (length xs) (stack_count room s (x ∷ xs) h);
  peek-next =
      λ s x xs (h, e, c). let (_, _, _, _, _, _, p) = pop-contents s (pos x) (map pos xs) h e in p;
  pop-next = λ s x xs (h, e, c).
      let (s', p, h', e', c', _, _) = pop-contents s (pos x) (map pos xs) h e in
      (s', rw p refl, (h', e', c' ∙ c));
  push-added = λ s x xs (h, e, c) l.
      let n = stack_count room s xs (h, e, c) in
      let (s', p, h', e', c', _) = push-contents s (pos x) h (omega (arith, l, c, n)) in
      (s', x ∷ xs, p, (h', e' ∙ ap (◌∷◌ (pos x)) e, c' ∙ c), refl, (λ v i. i), (λ v i. i));
}

map-append : (xs ys : List ℕ) → map pos xs ++ map pos ys ≡ map pos (xs ++ ys)
map-append [] ys = refl
map-append (x ∷ xs) ys = ap (◌∷◌ (pos x)) (map-append xs ys)

In-last : (v x : ℕ) (xs : List ℕ) → In v (xs ++ x ∷ []) → (v ≡ x) ⊎ In v xs
In-last v x [] (inl e) = inl e
In-last v x [] (inr i) = elim i [ ]
In-last v x (y ∷ xs) (inl e) = inr (inl e)
In-last v x (y ∷ xs) (inr i) = elim (In-last v x xs i) [ inl e ↦ inl e | inr k ↦ inr (inr k) ]

last-In : (v x : ℕ) (xs : List ℕ) → (v ≡ x) ⊎ In v xs → In v (xs ++ x ∷ [])
last-In v x [] (inl e) = inl e
last-In v x [] (inr i) = elim i [ ]
last-In v x (y ∷ xs) (inl e) = inr (last-In v x xs (inl e))
last-In v x (y ∷ xs) (inr (inl e)) = inl e
last-In v x (y ∷ xs) (inr (inr i)) = inr (last-In v x xs (inr i))

pub queue-Laws : (room : ℕ) → Laws Queue queue_work room (HoldsQueue room)
unfolding Queue.is_empty
queue-Laws room = record {
  none_left = λ q h. rw (queue_count room q [] h) refl;
  some_left = λ q x xs h. not_zero q.count (length xs) (queue_count room q (x ∷ xs) h);
  peek-next =
      λ q x xs (h, e, c). let (_, _, _, _, _, p) = dequeue-contents q (pos x) (map pos xs) h e in p;
  pop-next = λ q x xs (h, e, c).
      let (q', p, h', e', c', _) = dequeue-contents q (pos x) (map pos xs) h e in
      (q', rw p refl, (h', e', c' ∙ c));
  push-added = λ q x xs (h, e, c) l.
      let n = queue_count room q xs (h, e, c) in
      let (q', p, h', e', c') = enqueue-contents q (pos x) h (omega (arith, l, c, n)) in
      (
        q',
        xs ++ x ∷ [],
        p,
        (h', e' ∙ ap (λ l. l ++ pos x ∷ []) e ∙ map-append xs (x ∷ []), c' ∙ c),
        omega (arith, length-append {0} xs (x ∷ [])),
        (λ v. In-last v x xs),
        (λ v. last-In v x xs),
      );
}
