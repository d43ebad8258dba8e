-- ===== src/Asio/Client.antt =====
-- client_server/asio/src/timer_client.cc, whose times are numbers of nanoseconds below 2 ^ 64.
use diversity.Prelude.{
  ℕ, ◌+◌, ◌-◌, ◌%◌, ◌^◌, Bool, true, false, ◌||◌, Option, none, some, List, [], ◌∷◌, ◌++◌, ltb,
  ◌>>=◌, bounded, Bytes,
}
use diversity.Net.Numbers.{decimal}
use diversity.Asio.{Reception, received, failed, stored, up_to_zero, read_uint64}

-- `lat_ofs` is the lines of the file; `stopped` says that the service was told to stop.
pub record TimerClient : Type 0 where
  pub recv_buffer : Bytes
  pub lat_ofs : List ℕ
  pub count : ℕ
  pub receiving : Bool
  pub stopped : Bool

-- The request at the time `start_ns`.
unfoldable pub send_timestamp : ℕ → Bytes
send_timestamp start_ns = decimal start_ns

-- The line that a number read from the buffer gives.
abbrev pub latency_line : ℕ → Option ℕ → List ℕ
latency_line end_ns none = []
latency_line end_ns (some start_ns) = (end_ns + 2 ^ 64 - start_ns) % 2 ^ 64 ∷ []

-- At the time `end_ns`, with what is sent. `none` is a count past an int, or a read behind the buffer.
unfoldable pub handle_receive : ℕ → Reception → TimerClient → Option (Option Bytes × TimerClient)
handle_receive end_ns (received d) c = do
  count ← bounded (c.count + 1)
  text ← up_to_zero (stored 1024 d c.recv_buffer)
  some (
    some (decimal end_ns),
    record {
      recv_buffer = stored 1024 d c.recv_buffer;
      lat_ofs = c.lat_ofs ++ latency_line end_ns (read_uint64 text);
      count = count;
      receiving = true;
      stopped = c.stopped || ltb 100000 count;
    },
  )
handle_receive end_ns failed c = some (none, record c { receiving = false })
