-- ===== src/Asio/Server.antt =====
-- client_server/asio/src/timer_server.cc
use diversity.Prelude.{ℕ, ◌+◌, ◌%◌, ◌^◌, Bool, true, false, Option, none, some, Bytes}
use diversity.Asio.{Reception, received, failed, stored}

-- `receiving` says that a reception is started.
pub record UdpServer : Type 0 where
  pub mps : ℕ
  pub recv_buffer : Bytes
  pub receiving : Bool

-- What is sent back is the whole buffer of 128 bytes.
unfoldable pub handle_receive : Reception → UdpServer → Option Bytes × UdpServer
handle_receive (received d) s =
    let buffer = stored 128 d s.recv_buffer in
    (some buffer, record { mps = (s.mps + 1) % 2 ^ 32; recv_buffer = buffer; receiving = true })
handle_receive failed s = (none, record s { receiving = false })

-- The number that is printed.
unfoldable pub measure_throughput : UdpServer → ℕ × UdpServer
measure_throughput s = (s.mps, record s { mps = 0 })
