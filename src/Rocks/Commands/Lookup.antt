-- ===== src/Rocks/Commands/Lookup.antt =====
-- `find_command` finds each command by its name, and nothing else.
use diversity.Prelude.{
  ◌≡◌, sym, ap, ◌∙◌, subst, ◌≢◌, ◌↔◌, inl, inr, true, false, some, List, [], ◌∷◌, arith, Bool-cases,
  Bytes, bytes_eq, bytes_eq→eq, bytes_eq_self, bytes_eq_iff,
}
use diversity.Rocks.Commands.{Command, commands, find_from, find_command}

-- `c` stands at some place of the table, has the name, and no entry above it has that name.
pub data FirstNamed (name : Bytes) (c : Command) : List Command → Type 0 where
  here : {cs : List Command} → name ≡ c.name → FirstNamed name c (c ∷ cs)
  there :
      {b : Command} {cs : List Command}
      → name ≢ b.name
      → FirstNamed name c cs
      → FirstNamed name c (b ∷ cs)

find_from→FirstNamed :
    (cs : List Command) (name : Bytes) (c : Command)
    → find_from cs name ≡ some c
    → FirstNamed name c cs
unfolding find_from
find_from→FirstNamed [] name c h = cc
find_from→FirstNamed (b ∷ cs) name c h = elim (Bool-cases (bytes_eq name b.name)) [
  | inl e ↦
      let same : b ≡ c = ground arith in
      subst (λ x. FirstNamed name c (x ∷ cs)) (sym same)
        (here (bytes_eq→eq name b.name e ∙ ap (λ (x : Command). x.name) same))
  | inr n ↦ there (λ e. not_named e n) (find_from→FirstNamed cs name c (ground arith))
]
  where
    not_named : name ≡ b.name → bytes_eq name b.name ≡ false → ⊥
    not_named e n = let p : bytes_eq name b.name ≡ true = (bytes_eq_iff name b.name).1 e in cc

FirstNamed→find_from :
    {name : Bytes} {c : Command} {cs : List Command}
    → FirstNamed name c cs
    → find_from cs name ≡ some c
unfolding find_from
FirstNamed→find_from {name} {c} (here e) = rw (e, bytes_eq_self c.name)
FirstNamed→find_from {name} {c} (there {b} {cs} n f) = elim (Bool-cases (bytes_eq name b.name)) [
  | inl e ↦ absurd (n (bytes_eq→eq name b.name e))
  | inr e ↦ rw e (FirstNamed→find_from f)
]

-- `find_command` returns an entry of the table exactly when it is the first with that very name;
-- so a name that the table does not have gives NULL.
pub find_command_iff :
    (name : Bytes) (c : Command) → (find_command name ≡ some c) ↔ FirstNamed name c commands
unfolding find_command
find_command_iff name c = (find_from→FirstNamed commands name c, FirstNamed→find_from)
