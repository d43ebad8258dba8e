-- ===== src/Rocks/Shell/Loop.antt =====
-- The loop of `main`.
use diversity.Rocks.Line.{stripwhite, command_word}
use diversity.Rocks.Commands.{com_quit, commands, find_from, find_command}
use diversity.Prelude.Int.{ℤ, pos}
use diversity.Prelude.{
  ℕ, ◌≡◌, refl, ap, ◌∙◌, Bool, true, some, List, [], ◌∷◌, ◌++◌, arith, Bytes, codes, bytes_eq,
}
use diversity.Rocks.Api.{RocksDb}
use diversity.Rocks.Store.{Session}
use diversity.Rocks.Shell.{call, execute_line, on_line, serve}

module _ (lib : RocksDb) (white : ℕ → Bool) where
  serve-done : (lines : List Bytes) (s : Session lib) → s.done ≡ true → serve lib white lines s ≡ s
  unfolding serve
  serve-done [] s h = refl
  serve-done (l ∷ lines) s h = rw h

  serve-append :
      (xs ys : List Bytes) (s : Session lib)
      → serve lib white (xs ++ ys) s ≡ serve lib white ys (serve lib white xs s)
  unfolding serve
  serve-append [] ys s = refl
  serve-append (x ∷ xs) ys s =
      ground (arith, serve-append xs ys (on_line lib white (stripwhite white x) s), serve-done ys s)

  find_quit :
      find_command (codes "quit")
      ≡ some (record { name = codes "quit"; func = com_quit; doc = codes "Quit using rocks" })
  unfolding find_command find_from commands bytes_eq
  find_quit = refl

  execute_line-quit :
      (line : Bytes) (t : Session lib)
      → command_word white line ≡ codes "quit"
      → execute_line lib white line t ≡ (pos 0, record t { done = true })
  unfolding execute_line call
  execute_line-quit line t q = rw (q, find_quit)

  quit_line :
      (c : ℕ) (cs : Bytes) (t : Session lib)
      → command_word white (c ∷ cs) ≡ codes "quit"
      → on_line lib white (c ∷ cs) t ≡ record t { done = true }
  quit_line c cs t q = ap (λ (r : ℤ × Session lib). r.1) (execute_line-quit (c ∷ cs) t q)

  quit_stops :
      (ys : List Bytes) (line : Bytes) (c : ℕ) (cs : Bytes) (t : Session lib)
      → stripwhite white line ≡ c ∷ cs
      → command_word white (c ∷ cs) ≡ codes "quit"
      → serve lib white (line ∷ ys) t ≡ record t { done = true }
  unfolding serve
  quit_stops ys line c cs t h q = ground (
    arith,
    quit_line c cs t q,
    serve-done ys (record t { done = true }) refl,
    ap (λ l. serve lib white ys (on_line lib white l t)) h,
    ap (serve lib white ys) (quit_line c cs t q),
  )

  -- A line with the command `quit` sets `done`: what the lines before it did stands, and no line
  -- behind it is executed.
  pub serve-quit :
      (xs ys : List Bytes) (line : Bytes) (c : ℕ) (cs : Bytes) (s : Session lib)
      → stripwhite white line ≡ c ∷ cs
      → command_word white (c ∷ cs) ≡ codes "quit"
      → serve lib white (xs ++ line ∷ ys) s ≡ record (serve lib white xs s) { done = true }
  serve-quit xs ys line c cs s h q =
      serve-append xs (line ∷ ys) s ∙ quit_stops ys line c cs (serve lib white xs s) h q
