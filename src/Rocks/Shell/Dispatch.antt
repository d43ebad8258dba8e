-- ===== src/Rocks/Shell/Dispatch.antt =====
-- What a line does from the word to the handler.
use diversity.Prelude.{ℕ, ◌≡◌, inl, inr, Bool, Option-cases, Bytes}
use diversity.Rocks.Api.{RocksDb}
use diversity.Rocks.Store.{failed, no_such_command, Session, say}
use diversity.Rocks.Line.{command_word, argument}
use diversity.Rocks.Commands.{Command, commands, find_command}
use diversity.Rocks.Commands.Lookup.{FirstNamed, find_command_iff}
use diversity.Rocks.Shell.{call, execute_line}

module _ (lib : RocksDb) (white : ℕ → Bool) where
  -- A line whose first word is no name of the table returns -1 and only prints that.
  pub execute_line_unknown :
      (line : Bytes) (s : Session lib)
      → ((c : Command) → ¬ FirstNamed (command_word white line) c commands)
      → execute_line lib white line s
        ≡ (failed, say lib (no_such_command (command_word white line)) s)
  unfolding execute_line
  execute_line_unknown line s h = elim (Option-cases (find_command (command_word white line))) [
    | inl e ↦ rw e
    | inr (c, e) ↦ absurd (h c ((find_command_iff (command_word white line) c).0 e))
  ]

  -- A line with a name of the table calls that entry's function with the rest of the line.
  pub execute_line_known :
      (line : Bytes) (s : Session lib) (c : Command)
      → FirstNamed (command_word white line) c commands
      → execute_line lib white line s ≡ call lib c.func (argument white line) s
  unfolding execute_line
  execute_line_known line s c h = rw ((find_command_iff (command_word white line) c).1 h)
