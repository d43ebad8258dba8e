-- ===== src/Proxy/Tests.antt =====
-- Connections whose buffers are kept by a function, a table as a function, and the theorems with them.
use diversity.Prelude.{
  ℕ, ◌+◌, ◌≡◌, refl, Option, none, some, List, [], ◌∷◌, ◌++◌, arith, ◌==◌, if◌then◌else◌, length,
  Bytes, codes,
}
use diversity.Proxy.Api.{Buffers, RequestEntry, HashTable, TableLaws}
use diversity.Proxy.Server.{ProxyServer, initial, echo_read_cb}
use diversity.Proxy.Stream.{stream_read_cb}
use diversity.Proxy.Stream.Same.{stat_of, echo_read_cb-stream_read_cb}
use diversity.Proxy.Server.Stats.{
  Event, arrives, readable, second_passed, dispatch, sum_messages, Answered, dispatch-initial,
}

-- One connection: its input and its output.
abbrev one_connection : Buffers
one_connection = record {
  World = Bytes × Bytes;
  Bev = Unit {0};
  add_buffer = λ b w. ([], w.1 ++ w.0);
}

abbrev table : HashTable one_connection
table = record {
  Table = ℕ → Option (RequestEntry one_connection);
  empty = λ k. none;
  find = λ k t. t k;
  add = λ e t k. if e.request_id == k then some e else t k;
  del = λ e t k. if e.request_id == k then none else t k;
}

abbrev table_laws : TableLaws one_connection table
table_laws = record {
  find-empty = λ k. refl;
  find-add = λ e k t h. refl;
  find-del = λ e k t h. refl;
}

abbrev busy : ProxyServer one_connection table
busy = initial one_connection table (codes "hello", codes "x")

echo_read_cb-stream_read_cb_example :
    (p : ProxyServer one_connection table) × (echo_read_cb one_connection table tt busy ≡ some p)
    × (stream_read_cb one_connection tt (stat_of one_connection table table_laws busy)
        ≡ some (stat_of one_connection table table_laws p))
    × ((k : ℕ) → p.request_table k ≡ none)
echo_read_cb-stream_read_cb_example =
    echo_read_cb-stream_read_cb one_connection table table_laws tt busy refl (omega arith)
      (omega arith)

abbrev two_seconds : List (Event one_connection)
two_seconds =
    readable tt
    ∷ arrives (λ w. (codes "more", w.1))
    ∷ readable tt
    ∷ second_passed
    ∷ readable tt
    ∷ second_passed
    ∷ []

dispatch-initial_example :
    (ls : List (ℕ × ℕ)) × (p' : ProxyServer one_connection table) × (dispatch one_connection table
        two_seconds busy
      ≡ some (ls, p'))
    × Answered one_connection table table_laws p'
    × (p'.current_request_id ≡ 3)
    × (sum_messages ls + p'.message_per_second ≡ 3)
    × (p'.at_second ≡ length ls)
dispatch-initial_example =
    dispatch-initial one_connection table table_laws two_seconds (codes "hello", codes "x")
      (omega arith)
