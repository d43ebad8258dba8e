-- ===== src/LevelDb/Sender.antt =====
-- fast_leveldb/src/udpsender.c: the request that `main` builds, and the loop that sends it.
use diversity.Prelude.{ℕ, ◌+◌, ◌≡◌, Bool, true, false, some, List, [], ◌∷◌, ◌++◌, Bytes, codes}
use diversity.LevelDb.Api.{LevelDb, Laws, NoErrors}
use diversity.LevelDb.Deliver.{deliver}
use diversity.LevelDb.Deliver.Frames.{frame, found, deliver-get}

abbrev pub key : Bytes
key = codes "abcde123456789"

abbrev pub values : Bytes
values = codes "zxcvbnmasdfghj"

-- The 32 bytes of `payload`: the last one is sent but never set, so it may be any byte.
unfoldable pub payload : ℕ → Bytes
payload last = 2 ∷ 14 ∷ 14 ∷ (key ++ values) ++ last ∷ []

-- What `sendmmsg` returns to a thread: the sent messages, or its error.
pub data Sent : Type 0 where
  sent : ℕ → Sent
  again refused fatal : Sent

-- The loop of a thread: the messages sent so far, and whether it still runs.
unfoldable pub sender_loop : List Sent → ℕ → ℕ × Bool
sender_loop [] n = (n, true)
sender_loop (sent k ∷ rs) n = sender_loop rs (n + k)
sender_loop (again ∷ rs) n = sender_loop rs n
sender_loop (refused ∷ rs) n = sender_loop rs n
sender_loop (fatal ∷ rs) n = (n, false)

-- Whatever the last byte is and whatever stands behind it in the receive buffer, the server takes
-- the sender's payload as a get of the 14 bytes of its key: it answers from what the database
-- holds, if the database reports no error, and changes nothing.
pub deliver-payload :
    (lib : LevelDb) (laws : Laws lib) (ok : NoErrors lib) (last : ℕ) (rest : Bytes) (w : lib.World)
    → deliver lib (payload last ++ rest) w ≡ some (found (laws.view w key), w)
unfolding payload frame
deliver-payload lib laws ok last rest w = deliver-get lib laws ok key 14 (values ++ last ∷ rest) w
