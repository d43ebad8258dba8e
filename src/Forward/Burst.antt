-- ===== src/Forward/Burst.antt =====
-- client_server/dpdk/src/basicfwd.c: `rx_handler` and the loop of `lcore_main`. A buffer is the frame in it; the array
-- `bufs` has slots behind those that the driver fills, and an access outside it is `none`.
pub mod Owned
use diversity.Prelude.{
  ℕ, zero, suc, ◌+◌, ◌-◌, Option, some, List, [], ◌∷◌, ltb, ◌==◌, if◌then◌else◌, ◌>>=◌, take, Bytes,
}
use diversity.Prelude.Arrays.{read, write}
use diversity.Prelude.Frames.{Six}
use diversity.Forward.Packet.{packet_handler}

-- The loop that frees, from `buf` on with `k` turns left: the buffers that it frees.
unfoldable pub free_from : ℕ → ℕ → List Bytes → Option (List Bytes)
free_from zero buf bufs = some []
free_from (suc k) buf bufs = do
  freed ← read bufs buf
  rest ← free_from k (buf + 1) bufs
  some (freed ∷ rest)

-- What a round did with the buffers.
pub record Round : Type 0 where
  pub sent : List Bytes
  pub freed : List Bytes

-- A pass of the loop: the port, the array, how many slots the driver filled, and how many of these it takes again.
pub record Burst : Type 0 where
  pub port : ℕ
  pub bufs : List Bytes
  pub nb_rx : ℕ
  pub nb_tx : ℕ

module _ (mac : ℕ → Six) where
  -- The loop from `i` on, with `k` turns left: the array after it.
  unfoldable pub rx_handler : ℕ → ℕ → List Bytes → ℕ → Option (List Bytes)
  rx_handler zero i bufs port = some bufs
  rx_handler (suc k) i bufs port = do
    pkt ← read bufs i
    bufs' ← write bufs i (packet_handler (mac port) pkt)
    rx_handler k (i + 1) bufs' port

  -- The driver takes the first `nb_tx` buffers of the `nb_rx` that it is given.
  unfoldable pub forward_burst : Burst → Option Round
  forward_burst b = do
    bufs ← rx_handler b.nb_rx 0 b.bufs b.port
    let free = if ltb b.nb_tx b.nb_rx then free_from (b.nb_rx - b.nb_tx) b.nb_tx bufs else some []
    let tx = do freed ← free; some record { sent = take b.nb_tx bufs; freed = freed }
    if b.nb_rx == 0 then some record { sent = []; freed = [] } else tx

  unfoldable pub lcore_main : List Burst → Option (List Round)
  lcore_main [] = some []
  lcore_main (b ∷ bursts) = do
    round ← forward_burst b
    rounds ← lcore_main bursts
    some (round ∷ rounds)
