-- ===== src/Proxy/Server/Stats.antt =====
-- Any sequence of callbacks, with data that arrives between them.
use diversity.Prelude.{
  ℕ, suc, ◌+◌, ◌^◌, ◌<◌, ◌≡◌, refl, ◌∙◌, Option, none, some, List, [], ◌∷◌, ◌++◌, arith, ◌>>=◌,
  length,
}
use diversity.Proxy.Api.{Buffers, HashTable, TableLaws}
use diversity.Proxy.Server.{ProxyServer, initial, echo_read_cb, on_stats}
use diversity.Proxy.Server.Echo.{echoed, increment_lem, echo_read_cb_lem}

-- `arrives` is whatever the network does to the buffers in between.
pub data Event (lib : Buffers) : Type 0 where
  arrives : (lib.World → lib.World) → Event lib
  readable : lib.Bev → Event lib
  second_passed : Event lib

module _ (lib : Buffers) (hash : HashTable lib) where
  abbrev on_event : Event lib → ProxyServer lib hash → Option (List (ℕ × ℕ) × ProxyServer lib hash)
  on_event (arrives f) p = some ([], record p { world = f p.world })
  on_event (readable b) p = do p' ← echo_read_cb lib hash b p; some ([], p')
  on_event second_passed p = do (line, p') ← on_stats lib hash p; some (line ∷ [], p')

  -- The printed lines, and where the server is then.
  unfoldable pub dispatch :
      List (Event lib) → ProxyServer lib hash → Option (List (ℕ × ℕ) × ProxyServer lib hash)
  dispatch [] p = some ([], p)
  dispatch (e ∷ es) p = do (l, p') ← on_event e p; (ls, p'') ← dispatch es p'; some (l ++ ls, p'')

  abbrev pub reads : List (Event lib) → ℕ
  reads [] = 0
  reads (arrives f ∷ es) = reads es
  reads (readable b ∷ es) = suc (reads es)
  reads (second_passed ∷ es) = reads es

abbrev pub sum_messages : List (ℕ × ℕ) → ℕ
sum_messages [] = 0
sum_messages (l ∷ ls) = l.1 + sum_messages ls

module _ (lib : Buffers) (hash : HashTable lib) (laws : TableLaws lib hash) where
  abbrev pub Answered : ProxyServer lib hash → Type 0
  Answered p = (k : ℕ) → hash.find k p.request_table ≡ none

  abbrev reset : ProxyServer lib hash → ProxyServer lib hash
  reset p = record p { message_per_second = 0; at_second = p.at_second + 1 }

  -- From a state with no open request, over events that leave every counter in its bound: the
  -- callbacks return, no request stays open, each read took an id, the lines' messages and the
  -- current ones are the reads, and a line was printed for each second.
  dispatch_lem :
      (es : List (Event lib)) (p : ProxyServer lib hash)
      → Answered p
      → p.current_request_id + length es < 2 ^ 31
      → p.message_per_second + length es < 2 ^ 31
      → p.at_second + length es < 2 ^ 31
      → (ls : List (ℕ × ℕ)) × (p' : ProxyServer lib hash) × (dispatch lib hash es p ≡ some (ls, p'))
        × Answered p'
        × (p'.current_request_id ≡ p.current_request_id + reads lib hash es)
        × (sum_messages ls + p'.message_per_second ≡ p.message_per_second + reads lib hash es)
        × (p'.at_second ≡ p.at_second + length ls)
  unfolding dispatch on_stats
  dispatch_lem [] p a c m s = ([], p, refl, a, omega arith, omega arith, omega arith)
  dispatch_lem (arrives f ∷ es) p a c m s =
      let (ls, p', d, a', c', m', s') =
        dispatch_lem es (record p { world = f p.world }) a (omega arith) (omega arith)
          (omega arith) in
      (ls, p', rw d, a', c', m', s')
  dispatch_lem (readable b ∷ es) p a c m s =
      let (t, e, k) =
        echo_read_cb_lem lib hash laws b p (a p.current_request_id) (omega arith) (omega arith) in
      let (ls, p', d, a', c', m', s') =
        dispatch_lem es (echoed lib hash laws b p t) (λ j. k j ∙ a j) (omega arith) (omega arith)
          (omega arith) in
      (ls, p', rw (e, d), a', omega (arith, c'), omega (arith, m'), s')
  dispatch_lem (second_passed ∷ es) p a c m s =
      let (ls, p', d, a', c', m', s') =
        dispatch_lem es (reset p) a (omega arith) (omega arith) (omega arith) in
      (
        (p.at_second, p.message_per_second) ∷ ls,
        p',
        rw (increment_lem lib hash laws p.at_second (omega arith), d),
        a',
        c',
        omega (arith, m'),
        omega (arith, s'),
      )

  -- Over fewer than 2 ^ 31 events from the start, in any order and with any data arriving: every
  -- callback returns, no request stays in the table, each read has taken an id, the printed messages
  -- and those of the current second add up to the reads, and each second printed a line.
  pub dispatch-initial :
      (es : List (Event lib)) (w : lib.World)
      → length es < 2 ^ 31
      → (ls : List (ℕ × ℕ)) × (p' : ProxyServer lib hash) × (dispatch lib hash es
            (initial lib hash w)
          ≡ some (ls, p'))
        × Answered p'
        × (p'.current_request_id ≡ reads lib hash es)
        × (sum_messages ls + p'.message_per_second ≡ reads lib hash es)
        × (p'.at_second ≡ length ls)
  dispatch-initial es w h =
      let (ls, p', d, a, c, m, s) =
        dispatch_lem es (initial lib hash w) laws.find-empty (omega arith) (omega arith)
          (omega arith) in
      (ls, p', d, a, omega (arith, c), omega (arith, m), omega (arith, s))
