-- ===== src/Rocks/Shell.antt =====
-- rocksdb_playground/src/main.c: the commands, `execute_line` and the loop of `main`, over the
-- handlers of datastore.c. `white` is readline's macro `whitespace`.
pub mod Dispatch
pub mod WriteRead
pub mod Loop
pub mod Tests
use diversity.Prelude.{
  ℕ, zero, suc, ◌+◌, Bool, true, ◌||◌, Option, none, some, List, [], ◌∷◌, ◌++◌, ◌==◌, if◌then◌else◌,
  Bytes, codes, bytes_eq,
}
use diversity.Prelude.Int.{ℤ, pos}
use diversity.Rocks.Api.{RocksDb}
use diversity.Rocks.Store.{
  failed, Message, no_such_command, argument_required, no_match, key_empty, value_empty,
  help_line_end, help_row, help_name, Session, say, open_db, close_db, deconstruct, handle_read,
  handle_list, handle_delete, handle_write, handle_checkpoint, create_writebatch,
  destroy_writebatch,
}
use diversity.Rocks.Line.{
  stripwhite, command_word, argument, WriteArgs, no_key, no_value, pair, write_args,
}
use diversity.Rocks.Commands.{
  Func, com_open, com_write, com_wb_create, com_wb_destroy, com_read, com_delete, com_checkpoint,
  com_list, com_help, com_close, com_quit, Command, commands, find_command,
}

module _ (lib : RocksDb) where
  -- `if (invalid_argument(caller, arg)) return -1;` before the rest of a command
  abbrev pub with_argument : Bytes → Bytes → Session lib → (ℤ × Session lib) → ℤ × Session lib
  with_argument caller [] s rest = (failed, say lib (argument_required caller) s)
  with_argument caller (c ∷ cs) s rest = rest

  -- The value goes with its terminator, the key without.
  abbrev pub write_pair : WriteArgs → Session lib → ℤ × Session lib
  write_pair no_key s = (failed, say lib key_empty s)
  write_pair no_value s = (failed, say lib value_empty s)
  write_pair (pair key value) s = handle_write lib key (value ++ 0 ∷ []) s

  -- The rows that `com_help` prints: all, or the one that is asked for.
  pub help_rows : Bytes → List Command → List (Message lib)
  help_rows arg [] = []
  help_rows arg (c ∷ cs) =
      let rest = help_rows arg cs in
      if bytes_eq arg [] || bytes_eq arg c.name then help_row c.name c.doc ∷ rest else rest

  -- The names in lines of six; `printed` counts those of the line.
  pub help_columns : ℕ → List Command → List (Message lib)
  help_columns zero [] = []
  help_columns (suc printed) [] = help_line_end ∷ []
  help_columns printed (c ∷ cs) =
      let rest = help_columns (if printed == 6 then 1 else printed + 1) cs in
      if printed == 6 then help_line_end ∷ help_name c.name ∷ rest else help_name c.name ∷ rest

  pub com_help_messages : Bytes → List (Message lib)
  com_help_messages arg = elim (help_rows arg commands) [
    | [] ↦ no_match arg ∷ help_columns 0 commands
    | r ∷ rs ↦ r ∷ rs
  ]

  -- What the pointer of a table entry calls.
  pub call : Func → Bytes → Session lib → ℤ × Session lib
  call com_open arg s = with_argument (codes "open") arg s (open_db lib arg s)
  call com_write arg s = with_argument (codes "write") arg s (write_pair (write_args arg) s)
  call com_wb_create arg s = create_writebatch lib s
  call com_wb_destroy arg s = destroy_writebatch lib s
  call com_read arg s = with_argument (codes "read") arg s (handle_read lib arg s)
  call com_delete arg s = with_argument (codes "delete") arg s (handle_delete lib arg s)
  call com_checkpoint arg s = with_argument (codes "checkpoint") arg s (handle_checkpoint lib arg s)
  call com_list arg s = handle_list lib s
  call com_help arg s = (pos 0, record s { out = s.out ++ com_help_messages arg })
  call com_close arg s = close_db lib s
  call com_quit arg s = (pos 0, record s { done = true })

  module _ (white : ℕ → Bool) where
    abbrev pub call_command : Option Command → Bytes → Session lib → ℤ × Session lib
    call_command none line s = (failed, say lib (no_such_command (command_word white line)) s)
    call_command (some c) line s = call c.func (argument white line) s

    pub execute_line : Bytes → Session lib → ℤ × Session lib
    execute_line line s = call_command (find_command (command_word white line)) line s

    -- The body of the loop of `main` on one line of input.
    abbrev pub on_line : Bytes → Session lib → Session lib
    on_line [] s = s
    on_line (c ∷ cs) s = (execute_line (c ∷ cs) s).1

    -- `while (!done)`: the input ends where `readline` returns NULL.
    pub serve : List Bytes → Session lib → Session lib
    serve [] s = s
    serve (line ∷ lines) s = if s.done then s else serve lines (on_line (stripwhite white line) s)

    pub main : List Bytes → Session lib → Session lib
    main lines s = (deconstruct lib (serve lines s)).1
