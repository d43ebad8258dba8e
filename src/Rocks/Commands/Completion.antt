-- ===== src/Rocks/Commands/Completion.antt =====
-- `command_generator`, called as readline calls it, gives the names that begin with the text.
use diversity.Prelude.{
  ℕ, zero, suc, ◌+◌, ◌<◌, ◌≡◌, refl, ap, ◌∙◌, ◌⊎◌, inl, inr, Option, none, some, List, [], ◌∷◌,
  arith, if◌then◌else◌, Bool-cases, length, take, drop, take-length, Bytes, starts_with,
}
use diversity.Rocks.Commands.{
  Command, commands, Generator, next_match, started, command_generator, collect, completions,
}

-- The names of the table that begin with the text, in their order.
unfoldable pub matches : List Command → Bytes → List Bytes
matches [] text = []
matches (c ∷ cs) text =
    let rest = matches cs text in if starts_with c.name text then c.name ∷ rest else rest

drop-suc {ℓ} :
    {A : Type ℓ} (xs : List A) (n : ℕ) {y : A} {ys : List A}
    → drop n xs ≡ y ∷ ys
    → drop (suc n) xs ≡ ys
drop-suc [] zero h = cc
drop-suc [] (suc n) h = cc
drop-suc (x ∷ xs) zero h = cc
drop-suc (x ∷ xs) (suc n) h = drop-suc xs n h

-- What one call finds among the entries that are left.
record Finds (table cs : List Command) (text : Bytes) (r : Option Bytes × Generator) (name : Bytes)
    : Type 0 where
  rest : List Command
  gives : r.0 ≡ some name
  at_rest : drop r.1.list_index table ≡ rest
  same_len : r.1.len ≡ length text
  first : matches cs text ≡ name ∷ matches rest text
  fewer : length rest < length cs

next_match_lem :
    (table cs : List Command) (text : Bytes) (g : Generator)
    → drop g.list_index table ≡ cs
    → g.len ≡ length text
    → (((next_match cs text g).0 ≡ none) × (matches cs text ≡ []))
      ⊎ ((name : Bytes) × Finds table cs text (next_match cs text g) name)
unfolding next_match matches
next_match_lem table [] text g h e = inl (refl, refl)
next_match_lem table (c ∷ cs) text g h e = elim (Bool-cases (starts_with c.name text)) [
  | inl y ↦
      rw (whole, y)
        (inr (
          c.name,
          record {
            rest = cs;
            gives = refl;
            at_rest = moved;
            same_len = e;
            first = rw y;
            fewer = omega arith;
          },
        ))
  | inr n ↦
      rw (whole, n)
        (elim (next_match_lem table cs text (record g { list_index = g.list_index + 1 }) moved e) [
          | inl nothing ↦ inl nothing
          | inr (name, f) ↦ inr (
            name,
            record {
              rest = f.rest;
              gives = f.gives;
              at_rest = f.at_rest;
              same_len = f.same_len;
              first = rw n f.first;
              fewer = omega (arith, f.fewer);
            },
          )
        ])
]
  where
    whole : take g.len text ≡ text
    whole = take-length g.len text (omega arith)

    moved : drop (g.list_index + 1) table ≡ cs
    moved =
        ap (λ k. drop k table) {y = suc g.list_index} (omega arith) ∙ drop-suc table g.list_index h

-- The calls with a state other than 0, from some entry of the table on, give what is left.
abbrev Continues : ℕ → Bytes → ℕ → Type 0
Continues fuel text state =
    (g : Generator) (cs : List Command)
    → drop g.list_index commands ≡ cs
    → g.len ≡ length text
    → length cs < fuel
    → completions fuel text (suc state) g ≡ some (matches cs text)

collect-Finds :
    (fuel : ℕ) (text : Bytes) (state : ℕ) (g : Generator) (cs : List Command)
    → ((((next_match cs text g).0 ≡ none) × (matches cs text ≡ []))
        ⊎ ((name : Bytes) × Finds commands cs text (next_match cs text g) name))
    → length cs < suc fuel
    → Continues fuel text state
    → collect (next_match cs text g).0 (completions fuel text (suc state) (next_match cs text g).1)
      ≡ some (matches cs text)
collect-Finds fuel text state g cs (inl nothing) f rest = rw (nothing.0, nothing.1)
collect-Finds fuel text state g cs (inr (name, r)) f rest = rw (
  r.gives,
  rest (next_match cs text g).1 r.rest r.at_rest r.same_len (omega (arith, r.fewer)),
  r.first,
)

completions-suc : (fuel : ℕ) (text : Bytes) (state : ℕ) → Continues fuel text state
unfolding completions command_generator
completions-suc zero text state g cs h e f = absurd (omega arith)
completions-suc (suc fuel) text state g cs h e f =
    ap
      (λ l.
        collect (next_match l text g).0
          (completions fuel text (suc (suc state)) (next_match l text g).1))
      h
    ∙ collect-Finds fuel text (suc state) g cs (next_match_lem commands cs text g h e) f
        (completions-suc fuel text (suc state))

-- Whatever an earlier completion left in the static variables, readline's calls of the generator
-- for a text end after at most one more than the table's entries, and give the names of the table
-- that begin with the text, in their order.
pub completions-matches :
    (text : Bytes) (g : Generator)
    → completions (suc (length commands)) text 0 g ≡ some (matches commands text)
unfolding completions command_generator
completions-matches text g =
    collect-Finds (length commands) text 0 (started text 0 g) commands
      (next_match_lem commands commands text (started text 0 g) refl refl) (omega arith)
      (completions-suc (length commands) text 0)
