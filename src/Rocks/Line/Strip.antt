-- ===== src/Rocks/Line/Strip.antt =====
-- `stripwhite` takes off the white space at both ends and nothing else.
use diversity.Prelude.{
  ℕ, zero, suc, ◌<◌, ◌≡◌, refl, sym, ap, ◌∙◌, ◌⊎◌, inl, inr, Bool, false, [], ◌∷◌, ◌++◌, append-nil,
  append_assoc, arith, Bool-cases, length, get_or, take, take-length, Bytes, skip_while, span_while,
  All, Stops, span-append-skip, skip-Stops, span-All,
}
use diversity.Rocks.Line.{cut_back, strip_end, stripwhite}

take-suc : (s : Bytes) (n : ℕ) → n < length s → take (suc n) s ≡ take n s ++ get_or s n 0 ∷ []
take-suc [] n h = absurd (omega arith)
take-suc (x ∷ xs) zero h = refl
take-suc (x ∷ xs) (suc n) h = ap (◌∷◌ x) (take-suc xs n (omega arith))

module _ (white : ℕ → Bool) where
  -- `r` is empty or ends with a byte that is not white space.
  abbrev pub EndsDark : Bytes → Type 0
  EndsDark r = (r ≡ []) ⊎ ((front : Bytes) × (l : ℕ) × (r ≡ front ++ l ∷ []) × (white l ≡ false))

  -- White space before, the text, and white space behind, which is all of `text`.
  pub record Stripped (text r : Bytes) : Type 0 where
    pub before : Bytes
    pub behind : Bytes
    pub before_white : All white before
    pub behind_white : All white behind
    pub whole : text ≡ before ++ (r ++ behind)
    pub starts : Stops white r
    pub ends : EndsDark r

  All-append : (xs ys : Bytes) → All white xs → All white ys → All white (xs ++ ys)
  All-append [] ys a b = b
  All-append (x ∷ xs) ys a b = (a.0, All-append xs ys a.1 b)

  record Cut (s r : Bytes) (n : ℕ) : Type 0 where
    front : Bytes
    last : ℕ
    rest : Bytes
    is_cut : r ≡ front ++ last ∷ []
    dark : white last ≡ false
    rest_white : All white rest
    taken : take n s ≡ (front ++ last ∷ []) ++ rest

  cut_back-Cut :
      (x : ℕ) (xs : Bytes) (t : ℕ)
      → t < suc (length xs)
      → white x ≡ false
      → Cut (x ∷ xs) (cut_back white (x ∷ xs) t) (suc t)
  unfolding cut_back
  cut_back-Cut x xs zero h e = record {
    front = [];
    last = x;
    rest = [];
    is_cut = refl;
    dark = e;
    rest_white = tt;
    taken = refl;
  }
  cut_back-Cut x xs (suc t) h e = elim (Bool-cases (white (get_or xs t 0))) [
    | inl w ↦ rw w (
        let c = cut_back-Cut x xs t (omega arith) e in
        record {
          front = c.front;
          last = c.last;
          rest = c.rest ++ get_or xs t 0 ∷ [];
          is_cut = c.is_cut;
          dark = c.dark;
          rest_white = All-append c.rest (get_or xs t 0 ∷ []) c.rest_white (w, tt);
          taken =
              next
              ∙ ap (λ l. l ++ get_or xs t 0 ∷ []) c.taken
              ∙ append_assoc (c.front ++ c.last ∷ []) c.rest (get_or xs t 0 ∷ []);
        })
    | inr d ↦ rw d record {
      front = take (suc t) (x ∷ xs);
      last = get_or xs t 0;
      rest = [];
      is_cut = next;
      dark = d;
      rest_white = tt;
      taken = next ∙ sym (append-nil _);
    }
  ]
    where
      next : take (suc (suc t)) (x ∷ xs) ≡ take (suc t) (x ∷ xs) ++ get_or xs t 0 ∷ []
      next = take-suc (x ∷ xs) (suc t) h

  -- A text that begins as `front` and then `l` begins with the byte that it begins with.
  starts_of :
      (x : ℕ) (xs front : Bytes) (l : ℕ) (rest : Bytes)
      → white x ≡ false
      → x ∷ xs ≡ (front ++ l ∷ []) ++ rest
      → Stops white (front ++ l ∷ [])
  starts_of x xs [] l rest e h = let head : x ≡ l = cc in rw (← head) e
  starts_of x xs (y ∷ front) l rest e h = let head : x ≡ y = cc in rw (← head) e

  strip_end-Stripped :
      (s : Bytes)
      → Stops white s
      → (pre : Bytes) → All white pre
      → Stripped (pre ++ s) (strip_end white s)
  strip_end-Stripped [] h pre a = record {
    before = pre;
    behind = [];
    before_white = a;
    behind_white = tt;
    whole = refl;
    starts = tt;
    ends = inl refl;
  }
  strip_end-Stripped (x ∷ xs) h pre a =
      let c = cut_back-Cut x xs (length xs) (omega arith) h in
      let all = sym (take-length (suc (length xs)) (x ∷ xs) (omega arith)) ∙ c.taken in
      rw c.is_cut record {
        before = pre;
        behind = c.rest;
        before_white = a;
        behind_white = c.rest_white;
        whole = ap (λ l. pre ++ l) all;
        starts = starts_of x xs c.front c.last c.rest h all;
        ends = inr (c.front, c.last, refl, c.dark);
      }

  -- `stripwhite` returns the line without the white space at its ends: what it cuts off is white
  -- space, and what it returns neither begins nor ends with white space.
  pub stripwhite-Stripped : (text : Bytes) → Stripped text (stripwhite white text)
  unfolding stripwhite
  stripwhite-Stripped text = rw (span-append-skip white text) at (
      strip_end-Stripped (skip_while white text) (skip-Stops white text) (span_while white text)
        (span-All white text))
