-- ===== src/Asio/Tests.antt =====
-- Two rounds of the programs, and a first answer that the buffer of the server spoils.
use diversity.Asio.Exchange.{converse-differences}
use diversity.Asio.Exchange.{converse-differences}
use diversity.Asio.Exchange.{converse-differences}
use diversity.Asio.Exchange.{converse-differences}
use diversity.Asio.Exchange.{converse-differences}
use diversity.Asio.Exchange.{converse-differences}
use diversity.Asio.Exchange.{converse-differences}
use diversity.Asio.Exchange.{converse-differences}
use diversity.Asio.Exchange.{converse-differences}
use diversity.Prelude.{
  ℕ, ◌≡◌, refl, true, false, Option, none, some, List, [], ◌∷◌, arith, replicate,
}
use diversity.Net.Numbers.{decimal}
use diversity.Asio.{up_to_zero, read_uint64}
use diversity.Asio.Server
use diversity.Asio.Server.{UdpServer}
use diversity.Asio.Client
use diversity.Asio.Client.{TimerClient, send_timestamp}
use diversity.Asio.Exchange.{converse, Conversed, HaveDigits, converse-differences}

abbrev server : ℕ → UdpServer
server byte = record { mps = 7; recv_buffer = replicate 128 byte; receiving = true }

abbrev client : TimerClient
client = record {
  recv_buffer = replicate 1024 0;
  lat_ofs = [];
  count = 0;
  receiving = true;
  stopped = false;
}

abbrev lines : Option (UdpServer × TimerClient) → List ℕ
lines none = []
lines (some r) = r.1.lat_ofs

two_rounds : lines (converse (25 ∷ 61 ∷ []) (send_timestamp 10) (server 0) client) ≡ 15 ∷ 36 ∷ []
unfolding converse send_timestamp Server.handle_receive Client.handle_receive decimal up_to_zero
    read_uint64
two_rounds = refl

-- With the digit 5 in all of the buffer, the number read is too large, and no line is written.
no_line : lines (converse (25 ∷ []) (send_timestamp 10) (server 53) client) ≡ []
unfolding converse send_timestamp Server.handle_receive Client.handle_receive decimal up_to_zero
    read_uint64
no_line = refl

three_digits : HaveDigits 2 (10 ∷ 25 ∷ 61 ∷ 70 ∷ [])
unfolding decimal
three_digits =
    (omega arith, refl, (omega arith, refl, (omega arith, refl, (omega arith, refl, tt))))

-- A client that has counted 99999 stops after the second answer.
abbrev late_client : TimerClient
late_client = record client { count = 99999 }

converse-differences_example :
    Conversed 10
      (25 ∷ 61 ∷ [])
      (server 0)
      late_client
      (converse (25 ∷ 61 ∷ 70 ∷ []) (send_timestamp 10) (server 0) late_client)
converse-differences_example =
    converse-differences 2 1 10 (25 ∷ 61 ∷ 70 ∷ []) (server 0) late_client (replicate 125 0)
      three_digits (omega arith) (refl, refl) (omega arith) refl refl
