-- ===== src/Rocks/Shell/WriteRead.antt =====
-- A pair that one line of the shell writes is what another line reads.
use diversity.Rocks.Line.Words.{line_parts, write_args_pair}
use diversity.Rocks.Commands.{com_write, com_read, commands, find_from, find_command}
use diversity.Prelude.Int.{ℤ, pos}
use diversity.Rocks.Store.View.{handle_read-handle_write}
use diversity.Rocks.Store.{shown_text}
use diversity.Rocks.Store.{found}
use diversity.Rocks.Store.{print_found}
use diversity.Prelude.{
  ℕ, zero, suc, ◌+◌, ◌≡◌, refl, ap, ap₂, ◌∙◌, Bool, false, ◌||◌, not, none, some, [], ◌∷◌, ◌++◌,
  append-nil, arith, ◌==◌, length, length-append, Bytes, codes, bytes_eq, bytes_eq_self, All,
}
use diversity.Rocks.Api.{RocksDb, Laws}
use diversity.Rocks.Store.{found_value, Session, say, handle_read, handle_write}
use diversity.Rocks.Line.{blank, pair, write_args}
use diversity.Rocks.Shell.{call, execute_line}

-- What readline documents of its macro `whitespace`: a blank or a tab.
abbrev pub blank_or_tab : ℕ → Bool
blank_or_tab c = c == b' ' || c == 9

-- A word of a C string has no blank, no tab and no terminator.
abbrev pub IsWord : Bytes → Type 0
IsWord = All (λ c. not (blank_or_tab c || c == 0))

IsWord-blank : (w : Bytes) → IsWord w → All (λ c. not (blank c)) w
IsWord-blank [] h = tt
IsWord-blank (c ∷ cs) h = (ground arith, IsWord-blank cs h.1)

IsWord-start : (c : ℕ) (cs : Bytes) → IsWord (c ∷ cs) → blank_or_tab c ≡ false
IsWord-start c cs h = ground arith

find_write :
    find_command (codes "write")
    ≡ some
        (record { name = codes "write"; func = com_write; doc = codes "Write a (key,value) pair" })
unfolding find_command find_from commands bytes_eq
find_write = refl

find_read :
    find_command (codes "read")
    ≡ some (record {
      name = codes "read";
      func = com_read;
      doc = codes "Read the value associated with a key";
    })
unfolding find_command find_from commands bytes_eq
find_read = refl

shown_text-IsWord : (w : Bytes) → IsWord w → shown_text (w ++ 0 ∷ []) ≡ some w
unfolding shown_text
shown_text-IsWord [] h = refl
shown_text-IsWord (zero ∷ cs) h = absurd (ground (arith, h.0))
shown_text-IsWord (suc c ∷ cs) h = rw (shown_text-IsWord cs h.1) refl

abbrev pub write_line : Bytes → Bytes → Bytes
write_line key val = codes "write" ++ (b' ' ∷ key ++ (b' ' ∷ val))

abbrev pub read_line : Bytes → Bytes
read_line key = codes "read" ++ (b' ' ∷ key)

write_args_words :
    (k v : ℕ) (ks vs : Bytes)
    → IsWord (k ∷ ks)
    → IsWord (v ∷ vs)
    → write_args (k ∷ ks ++ (b' ' ∷ v ∷ vs)) ≡ pair (k ∷ ks) (v ∷ vs)
write_args_words k v ks vs hk hv = rw (append-nil vs) at (
    write_args_pair [] ks [] vs [] k v tt (IsWord-blank (k ∷ ks) hk) (ground arith) tt
      (IsWord-blank (v ∷ vs) hv) (ground arith) tt)

module _ (lib : RocksDb) where
  found-IsWord :
      (w key : Bytes)
      → IsWord w
      → found lib (some (w ++ 0 ∷ [])) key ≡ found_value w (length w + 1) key
  found-IsWord w key h =
      ap₂ (λ t n. print_found lib t n key) (shown_text-IsWord w h) (length-append {0} w (0 ∷ []))

  execute_line-write :
      (k v : ℕ) (ks vs : Bytes) (s : Session lib)
      → IsWord (k ∷ ks)
      → IsWord (v ∷ vs)
      → execute_line lib blank_or_tab (write_line (k ∷ ks) (v ∷ vs)) s
        ≡ handle_write lib (k ∷ ks) (v ∷ vs ++ 0 ∷ []) s
  unfolding execute_line call
  execute_line-write k v ks vs s hk hv =
      let (word, arg) =
        line_parts blank_or_tab [] (codes "rite") [] (k ∷ ks ++ (b' ' ∷ v ∷ vs)) b'w' b' ' tt
          (refl, (refl, (refl, (refl, (refl, tt))))) refl refl tt (IsWord-start k ks hk) in
      rw (word, find_write, arg, write_args_words k v ks vs hk hv)

  execute_line-read :
      (k : ℕ) (ks : Bytes) (s : Session lib)
      → IsWord (k ∷ ks)
      → execute_line lib blank_or_tab (read_line (k ∷ ks)) s ≡ handle_read lib (k ∷ ks) s
  unfolding execute_line call
  execute_line-read k ks s hk =
      let (word, arg) =
        line_parts blank_or_tab [] (codes "ead") [] (k ∷ ks) b'r' b' ' tt
          (refl, (refl, (refl, (refl, tt)))) refl refl tt (IsWord-start k ks hk) in
      rw (word, find_read, arg)

module _ (lib : RocksDb) (laws : Laws lib) where
  open lib use {Db}

  -- On an open database with no batch, and with no error from the library: after the line
  -- `write KEY VALUE` of two words, the line `read KEY` prints the value and a length that counts its
  -- terminator too, and both lines return 0.
  pub read_line-write_line :
      (k v : ℕ) (ks vs : Bytes) (s : Session lib) (d : Db)
      → IsWord (k ∷ ks)
      → IsWord (v ∷ vs)
      → s.db ≡ some d
      → s.wr_batch ≡ none
      → (lib.put d (k ∷ ks) (v ∷ vs ++ 0 ∷ []) s.world).0 ≡ none
      → (lib.get d (k ∷ ks) (lib.put d (k ∷ ks) (v ∷ vs ++ 0 ∷ []) s.world).1).1 ≡ none
      → let (code, t) = execute_line lib blank_or_tab (write_line (k ∷ ks) (v ∷ vs)) s in
        let (code', u) = execute_line lib blank_or_tab (read_line (k ∷ ks)) t in
        (code ≡ pos 0)
        × (code' ≡ pos 0)
        × (u ≡ say lib (found_value (v ∷ vs) (length (v ∷ vs) + 1) (k ∷ ks)) t)
  read_line-write_line k v ks vs s d hk hv h e p g =
      let stored = v ∷ vs ++ 0 ∷ [] in
      let written_to = (handle_write lib (k ∷ ks) stored s).1 in
      let (code, seen) = handle_read-handle_write lib laws s d (k ∷ ks) stored (k ∷ ks) h e p g in
      let shown : handle_read lib (k ∷ ks) written_to
          ≡ (pos 0, say lib (found_value (v ∷ vs) (length (v ∷ vs) + 1) (k ∷ ks)) written_to) =
        rw (bytes_eq_self (k ∷ ks)) at seen
        ∙ ap (λ m. (pos 0, say lib m written_to)) (found-IsWord lib (v ∷ vs) (k ∷ ks) hv) in
      rw (execute_line-write lib k v ks vs s hk hv, execute_line-read lib k ks written_to hk)
        (code, ap (λ (r : ℤ × Session lib). r.0) shown, ap (λ (r : ℤ × Session lib). r.1) shown)
