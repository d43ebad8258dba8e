-- ===== src/EchoBatch.antt =====
-- client_server/msg_hdr/src/server.c: the server that answers the datagrams of one `recvmmsg` with one `sendmmsg`. `none` is a
-- write outside a buffer, or an `int` that would pass its bound.
pub mod Replies
mod Tests
use diversity.Prelude.{
  ℕ, zero, suc, ◌+◌, ◌%◌, Bool, ◌&&◌, Option, none, some, List, [], ◌∷◌, ltb, leb, if◌then◌else◌,
  ◌>>=◌, bounded, length, set, take, Bytes,
}

-- `struct server_context`, without the event base
pub record ServerContext : Type 0 where
  pub at_second : ℕ
  pub message_per_second : ℕ

-- One of `msgs` after a `recvmmsg`: its `msg_len`, and its buffer of BUFSIZE + 1 bytes.
pub record Message : Type 0 where
  pub msg_len : ℕ
  pub buf : Bytes

-- An entry of `msgs` with its vector: which of `iovecs`, `bufs` and `remotes` it uses, and the length of the buffer.
pub record Header : Type 0 where
  pub msg_iov : ℕ
  pub iov_base : ℕ
  pub iov_len : ℕ
  pub msg_iovlen : ℕ
  pub msg_name : ℕ
  pub msg_namelen : ℕ

-- The entry `i`; a `struct sockaddr_in` has 16 bytes.
abbrev pub header_at : ℕ → Header
header_at i = record {
  msg_iov = i;
  iov_base = i;
  iov_len = 128;
  msg_iovlen = 1;
  msg_name = i;
  msg_namelen = 16;
}

-- The entries from the index `i` on
unfoldable pub headers_from : ℕ → ℕ → List Header
headers_from i zero = []
headers_from i (suc n) = header_at i ∷ headers_from (suc i) n

abbrev pub init_msghdr : List Header
init_msghdr = headers_from 0 32

pub data Recv : Type 0 where
  messages : List Message → Recv
  error : Recv

pub data Outcome : Type 0 where
  exited : Outcome
  answered : List Bytes → ServerContext → Outcome

abbrev terminated : Message → Option Bytes
terminated m = if ltb m.msg_len (length m.buf) then some (set m.buf m.msg_len 0) else none

-- The loop of `on_read`
unfoldable pub terminate_all : List Message → Option (List Bytes)
terminate_all [] = some []
terminate_all (m ∷ ms) = do b ← terminated m; bs ← terminate_all ms; some (b ∷ bs)

-- `iov_len` is still BUFSIZE, 128, whatever was received.
unfoldable pub respond : List Bytes → List Bytes
respond [] = []
respond (b ∷ bs) = take 128 b ∷ respond bs

unfoldable pub on_read : Recv → ServerContext → Option Outcome
on_read error ctx = some exited
on_read (messages ms) ctx = do
  bufs ← terminate_all ms
  n ← bounded (ctx.message_per_second + length ms)
  some (answered (respond bufs) (record ctx { message_per_second = n }))

-- With the line that is printed.
unfoldable pub on_perf : ServerContext → Option ((ℕ × ℕ) × ServerContext)
on_perf ctx = do
  second ← bounded (ctx.at_second + 1)
  some (
    (ctx.at_second, ctx.message_per_second),
    record { at_second = second; message_per_second = 0 },
  )

-- On what `inet_addr` gives, whose low byte is the first of the address.
unfoldable pub net_ip__is_multicast_ip : ℕ → Bool
net_ip__is_multicast_ip ip_in_addr = let i = ip_in_addr % 256 in leb 224 i && leb i 239
