-- ===== src/Rocks/Commands.antt =====
-- rocksdb_playground/src/main.c: the table `commands`, `find_command` and `command_generator`.
pub mod Lookup
pub mod Completion
use Prim.Native.String.{String}
use diversity.Prelude.{
  ℕ, zero, suc, ◌+◌, Option, none, some, List, [], ◌∷◌, ◌==◌, if◌then◌else◌, ◌>>=◌, length, take,
  drop, Bytes, codes, bytes_eq, starts_with,
}

-- The functions that the table points to.
pub data Func : Type 0 where
  com_open com_write com_wb_create com_wb_destroy com_read com_delete com_checkpoint : Func
  com_list com_help com_close com_quit : Func

-- `COMMAND`
pub record Command : Type 0 where
  pub name : Bytes
  pub func : Func
  pub doc : Bytes

abbrev command : String → Func → String → Command
command n f d = record { name = codes n; func = f; doc = codes d }

-- The table, without the entry of NULL pointers that ends it.
unfoldable pub commands : List Command
commands =
    command "open" com_open "Open a database"
    ∷ command "write" com_write "Write a (key,value) pair"
    ∷ command "wb_create" com_wb_create "Create a writebatch"
    ∷ command "wb_destroy" com_wb_destroy "Destroy the writebatch"
    ∷ command "read" com_read "Read the value associated with a key"
    ∷ command "delete" com_delete "Delete a key"
    ∷ command "ckpt" com_checkpoint "Create a checkpoint"
    ∷ command "list" com_list "List all keys and values"
    ∷ command "help" com_help "Display this text"
    ∷ command "?" com_help "Synonym for `help'"
    ∷ command "close" com_close "Close the opened database"
    ∷ command "quit" com_quit "Quit using rocks"
    ∷ command "exit" com_quit "Synonym for `quit'"
    ∷ []

-- The loop of `find_command` from some entry on.
unfoldable pub find_from : List Command → Bytes → Option Command
find_from [] name = none
find_from (c ∷ cs) name = if bytes_eq name c.name then some c else find_from cs name

unfoldable pub find_command : Bytes → Option Command
find_command name = find_from commands name

-- The static variables of `command_generator`.
pub record Generator : Type 0 where
  pub list_index : ℕ
  pub len : ℕ

-- The `while`, with the entries that are left from `list_index` on.
unfoldable pub next_match : List Command → Bytes → Generator → Option Bytes × Generator
next_match [] text g = (none, g)
next_match (c ∷ cs) text g =
    let g' : Generator = record g { list_index = g.list_index + 1 } in
    let rest = next_match cs text g' in
    if starts_with c.name (take g.len text) then (some c.name, g') else rest

abbrev pub started : Bytes → ℕ → Generator → Generator
started text zero g = record { list_index = 0; len = length text }
started text (suc state) g = g

unfoldable pub command_generator : Bytes → ℕ → Generator → Option Bytes × Generator
command_generator text state g =
    let g' = started text state g in next_match (drop g'.list_index commands) text g'

abbrev pub collect : Option Bytes → Option (List Bytes) → Option (List Bytes)
collect none rest = some []
collect (some name) rest = do names ← rest; some (name ∷ names)

-- readline's calls of the generator: with state 0, then with other states, until it returns NULL.
-- `fuel` bounds their number.
unfoldable pub completions : ℕ → Bytes → ℕ → Generator → Option (List Bytes)
completions zero text state g = none
completions (suc fuel) text state g =
    let (m, g') = command_generator text state g in
    let rest = completions fuel text (suc state) g' in collect m rest

-- The matches for the word that begins at `start`; without any, readline completes the names of files.
unfoldable pub rocks_completion : ℕ → Bytes → ℕ → Generator → Option (List Bytes)
rocks_completion fuel text start g = if start == 0 then completions fuel text 0 g else some []
