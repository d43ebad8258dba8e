-- ===== src/Rocks/Shell/Tests.antt =====
-- A library that keeps one database and one batch in memory, sessions of the shell over it, and the
-- theorems at concrete lines. Its iterator yields nothing.
use diversity.Prelude.Int.{pos}
use diversity.Rocks.Commands.Completion.{matches, completions-matches}
use diversity.Rocks.Commands.Lookup.{FirstNamed, find_command_iff}
use diversity.Rocks.Store.Batching.{codes_of, write_all, destroy_writebatch-write_all}
use diversity.Rocks.Store.View.{handle_read-handle_write}
use diversity.Rocks.Shell.{call, execute_line, serve, main}
use diversity.Rocks.Store.{read_behind}
use diversity.Rocks.Commands.{rocks_completion}
use diversity.Prelude.{
  ◌≡◌, refl, false, Option, none, some, List, [], ◌∷◌, ◌++◌, if◌then◌else◌, Bytes, codes, bytes_eq,
  starts_with, token,
}
use diversity.Rocks.Api.{RocksDb, apply_puts, Laws}
use diversity.Rocks.Store.{
  shown_text, c_string, found_value, written, no_such_command, Session, say, open_db, deconstruct,
  handle_read, handle_write, create_writebatch, destroy_writebatch,
}
use diversity.Rocks.Line.{cut_back, stripwhite, command_word, argument, write_args}
use diversity.Rocks.Commands.{com_help, Command, commands, find_from, find_command, completions}
use diversity.Rocks.Shell.{call}
use diversity.Rocks.Shell.WriteRead.{blank_or_tab, read_line-write_line}

record Memory : Type 0 where
  held : Bytes → Option Bytes
  waiting : List (Bytes × Bytes)

abbrev written_batch : Option (Unit {0}) → Memory → Memory
written_batch none m = m
written_batch (some d) m = record m { held = λ j. apply_puts m.waiting j (m.held j) }

abbrev in_memory : RocksDb
in_memory = record {
  World = Memory;
  Db = Unit {0};
  Checkpoint = Unit {0};
  Batch = Unit {0};
  Error = Unit {0};
  open_path = λ path m. (some tt, none, m);
  close = λ d m. m;
  get = λ d k m. (m.held k, none);
  put = λ d k v m. (none, record m { held = λ j. if bytes_eq k j then some v else m.held j });
  delete = λ d k m. (none, record m { held = λ j. if bytes_eq k j then none else m.held j });
  iterate = λ d m. some [];
  checkpoint_object = λ d m. (some tt, none, m);
  checkpoint = λ c dir m. (none, m);
  checkpoint_destroy = λ c m. m;
  batch_create = λ m. (some tt, record m { waiting = [] });
  batch_put = λ b k v m. record m { waiting = m.waiting ++ (k, v) ∷ [] };
  batch_write = λ d b m. (none, written_batch d m);
  batch_destroy = λ b m. m;
}

abbrev in_memory_laws : Laws in_memory
in_memory_laws = record {
  view = λ d m j. m.held j;
  staged = λ b m. m.waiting;
  get-view = λ d k m h. refl;
  view-put = λ d k v m j h. refl;
  view-delete = λ d k m j h. refl;
  staged-batch_create = λ b m h. refl;
  view-batch_create = λ d m j. refl;
  staged-batch_put = λ b k v m. refl;
  view-batch_put = λ d b k v m j. refl;
  view-batch_write = λ d b m j h. refl;
  view-batch_destroy = λ d b m j. refl;
}

abbrev nothing : Memory
nothing = record { held = λ j. none; waiting = [] }

-- The session when the loop of `main` starts, and one with an open database.
abbrev fresh : Session in_memory
fresh = record { db = none; cp = none; wr_batch = none; done = false; world = nothing; out = [] }

abbrev opened : Session in_memory
opened = record fresh { db = some tt }

abbrev script : List Bytes
script =
    codes "open /tmp/db"
    ∷ codes "  write  a 1 "
    ∷ codes "   "
    ∷ codes "frob a"
    ∷ codes "read a"
    ∷ []

run_script :
    (main in_memory blank_or_tab script fresh).out
    ≡ written (codes "a") (codes "1")
      ∷ no_such_command (codes "frob")
      ∷ found_value (codes "1") 2 (codes "a")
      ∷ []
unfolding main serve execute_line call stripwhite cut_back command_word argument find_command
    find_from commands bytes_eq write_args token handle_write handle_read open_db deconstruct
    c_string shown_text
run_script = refl

-- A database that holds `b`, and the session that has it open.
abbrev holding : Session in_memory
holding = record opened {
  world = record nothing {
    held = λ j. if bytes_eq (codes "b") j then some (codes "2" ++ 0 ∷ []) else none;
  };
}

handle_read-handle_write_example :
    let (code, s) = handle_write in_memory (codes "a") (codes "1" ++ 0 ∷ []) holding in
    (code ≡ pos 0)
    × (handle_read in_memory (codes "b") s
        ≡ (pos 0, say in_memory (found_value (codes "2") 2 (codes "b")) s))
unfolding bytes_eq shown_text
handle_read-handle_write_example =
    handle_read-handle_write in_memory in_memory_laws holding tt (codes "a") (codes "1" ++ 0 ∷ [])
      (codes "b") refl refl refl refl

abbrev two_puts : List (Bytes × Bytes)
two_puts = (codes "b", codes "3" ++ 0 ∷ []) ∷ (codes "c", codes "4" ++ 0 ∷ []) ∷ []

destroy_writebatch-write_all_example :
    let t = write_all in_memory two_puts (create_writebatch in_memory holding).1 in
    let (code, u) = destroy_writebatch in_memory t in
    (codes_of in_memory two_puts (create_writebatch in_memory holding).1 ≡ pos 0 ∷ pos 0 ∷ [])
    × (t.out ≡ [])
    × (t.world.held (codes "b") ≡ some (codes "2" ++ 0 ∷ []))
    × (code ≡ pos 0)
    × (u.wr_batch ≡ none)
    × (u.world.held (codes "b") ≡ some (codes "3" ++ 0 ∷ []))
unfolding bytes_eq apply_puts
destroy_writebatch-write_all_example =
    destroy_writebatch-write_all in_memory in_memory_laws two_puts holding tt tt (codes "b") refl
      refl refl

completions-matches_example :
    completions 14 (codes "w") 0 (record { list_index = 7; len = 3 })
    ≡ some (codes "write" ∷ codes "wb_create" ∷ codes "wb_destroy" ∷ [])
unfolding commands matches starts_with
completions-matches_example = completions-matches (codes "w") (record { list_index = 7; len = 3 })

-- A word behind the start of the line is no command.
later_word : rocks_completion 14 (codes "w") 5 (record { list_index = 7; len = 3 }) ≡ some []
unfolding rocks_completion
later_word = refl

-- A value without a terminator is read behind its end.
unterminated :
    (handle_read in_memory
      (codes "b")
      (record opened { world = record nothing { held = λ j. some (codes "2") } })).1.out
    ≡ read_behind 1 (codes "b") ∷ []
unfolding handle_read shown_text
unterminated = refl

abbrev help_command : Command
help_command = record { name = codes "?"; func = com_help; doc = codes "Synonym for `help'" }

help_named : FirstNamed (codes "?") help_command commands
unfolding find_command find_from commands bytes_eq
help_named = (find_command_iff (codes "?") help_command).0 refl

find_frob : find_command (codes "frob") ≡ none
unfolding find_command find_from commands bytes_eq
find_frob = refl

frob_unknown : (c : Command) → ¬ FirstNamed (codes "frob") c commands
frob_unknown c h =
    let missing = find_frob in let found_it = (find_command_iff (codes "frob") c).1 h in cc

read_line-write_line_example :
    let (code, t) = execute_line in_memory blank_or_tab (codes "write a 1") opened in
    let (code', u) = execute_line in_memory blank_or_tab (codes "read a") t in
    (code ≡ pos 0) × (code' ≡ pos 0) × (u ≡ say in_memory (found_value (codes "1") 2 (codes "a")) t)
read_line-write_line_example =
    read_line-write_line in_memory in_memory_laws b'a' b'1' [] [] opened tt (refl, tt) (refl, tt)
      refl refl refl refl
