-- ===== src/Asio/Exchange.antt =====
-- The client and the server together, over a network that loses nothing.
use diversity.Prelude.{
  ℕ, zero, suc, ◌+◌, ◌-◌, ◌%◌, ◌^◌, ◌≤◌, ◌<◌, ◌≡◌, refl, sym, ap, ◌∙◌, true, false, ◌||◌, Option,
  some, List, [], ◌∷◌, ◌++◌, append-nil, append_assoc, arith, ltb, ◌==◌, if◌then◌else◌, lt→ltb,
  ◌>>=◌, bounded_lem, length, take, drop, length-append, length-drop, drop-append, take-length,
  Bytes, All,
}
use diversity.Net.Numbers.{
  is_digit, value_from, decimal, decimal-value, decimal-All, span_All, digit_others, decimal_some,
}
use diversity.Asio.{received, stored, up_to_zero, read_uint64}
use diversity.Asio.Server
use diversity.Asio.Server.{UdpServer}
use diversity.Asio.Client
use diversity.Asio.Client.{TimerClient, send_timestamp}

-- A message reaches the server, its answer the client at the next time, and so on, until the client stops its service; its last
-- message is still on the way then.
unfoldable pub converse :
    List ℕ → Bytes → UdpServer → TimerClient → Option (UdpServer × TimerClient)
converse [] message s c = some (s, c)
converse (t ∷ ts) message s c = do
  let s' = (Server.handle_receive (received message) s).1
  answer ← (Server.handle_receive (received message) s).0
  (reply, c') ← Client.handle_receive t (received answer) c
  message' ← reply
  let rest = converse ts message' s' c'
  if c'.stopped then some (s', c') else rest

-- Each time less the one before, modulo 2 ^ 64.
abbrev pub differences : ℕ → List ℕ → List ℕ
differences t0 [] = []
differences t0 (t ∷ ts) = (t + 2 ^ 64 - t0) % 2 ^ 64 ∷ differences t ts

-- Each is a 64-bit number of `k` digits.
abbrev pub HaveDigits : ℕ → List ℕ → Type 0
HaveDigits k [] = Unit
HaveDigits k (t ∷ ts) = t < 2 ^ 64 × (length (decimal t) ≡ k) × HaveDigits k ts

up_to_zero-digits : (ds rest : Bytes) → All is_digit ds → up_to_zero (ds ++ 0 ∷ rest) ≡ some ds
unfolding up_to_zero
up_to_zero-digits [] rest a = refl
up_to_zero-digits (d ∷ ds) rest a = rw (nonzero d a.0, up_to_zero-digits ds rest a.1) refl
  where
    nonzero : (d : ℕ) → is_digit d ≡ true → (d == 0) ≡ false
    nonzero d h = ground arith

read_digits :
    (ds : Bytes)
    → All is_digit ds
    → 0 < length ds
    → value_from 0 ds < 2 ^ 64
    → read_uint64 ds ≡ some (value_from 0 ds)
unfolding read_uint64
read_digits [] a p h = absurd (omega (arith, p))
read_digits (d ∷ ds) a p h =
    let (s, m, q, c) = digit_others d a.0 in
    rw (s, m, q, span_All (d ∷ ds) a, lt→ltb (value_from 0 (d ∷ ds)) (2 ^ 64) h) refl

read_decimal : (t : ℕ) → t < 2 ^ 64 → read_uint64 (decimal t) ≡ some t
read_decimal t h =
    read_digits (decimal t) (decimal-All t) (decimal_some t) (omega (arith, decimal-value t, h))
    ∙ ap some (decimal-value t)

-- What the client finds in its buffer.
stored_text :
    (t : ℕ) (rest buffer : Bytes)
    → length (decimal t ++ 0 ∷ rest) ≤ 1024
    → up_to_zero (stored 1024 (decimal t ++ 0 ∷ rest) buffer) ≡ some (decimal t)
stored_text t rest buffer h =
    ap (λ d. up_to_zero (d ++ drop (length d) buffer)) (take-length 1024 (decimal t ++ 0 ∷ rest) h)
    ∙ ap up_to_zero
        (append_assoc (decimal t) (0 ∷ rest) (drop (length (decimal t ++ 0 ∷ rest)) buffer))
    ∙ up_to_zero-digits (decimal t) (rest ++ drop (length (decimal t ++ 0 ∷ rest)) buffer)
        (decimal-All t)

-- What the server sends of its buffer, which has a 0 behind the digits.
stored_answer :
    (t k : ℕ) (rest buffer : Bytes)
    → length (decimal t) ≡ k
    → k < 128
    → drop k buffer ≡ 0 ∷ rest
    → stored 128 (decimal t) buffer ≡ decimal t ++ 0 ∷ rest
stored_answer t k rest buffer l h e =
    ap (λ d. d ++ drop (length d) buffer) (take-length 128 (decimal t) (omega (arith, l, h)))
    ∙ ap (λ n. decimal t ++ drop n buffer) l
    ∙ ap (λ b. decimal t ++ b) e

-- The buffer of the server holds a 0 at `k`.
abbrev pub EndsAt : ℕ → UdpServer → Bytes → Type 0
EndsAt k s rest = (drop k s.recv_buffer ≡ 0 ∷ rest) × (length s.recv_buffer ≡ 128)

answered : UdpServer → ℕ → Bytes → UdpServer
answered s t0 rest = record {
  mps = (s.mps + 1) % 2 ^ 32;
  recv_buffer = decimal t0 ++ 0 ∷ rest;
  receiving = true;
}

timed : TimerClient → ℕ → ℕ → Bytes → TimerClient
timed c t0 t rest = record {
  recv_buffer = stored 1024 (decimal t0 ++ 0 ∷ rest) c.recv_buffer;
  lat_ofs = c.lat_ofs ++ (t + 2 ^ 64 - t0) % 2 ^ 64 ∷ [];
  count = c.count + 1;
  receiving = true;
  stopped = c.stopped || ltb 100000 (c.count + 1);
}

server_round :
    (s : UdpServer) (k t0 : ℕ) (rest : Bytes)
    → EndsAt k s rest
    → length (decimal t0) ≡ k
    → k < 128
    → Server.handle_receive (received (decimal t0)) s
      ≡ (some (decimal t0 ++ 0 ∷ rest), answered s t0 rest)
unfolding Server.handle_receive answered
server_round s k t0 rest (e, _) l h = rw (stored_answer t0 k rest s.recv_buffer l h e) refl

client_round :
    (c : TimerClient) (t0 t : ℕ) (rest : Bytes)
    → t0 < 2 ^ 64
    → length (decimal t0 ++ 0 ∷ rest) ≤ 1024
    → c.count + 1 < 2 ^ 31
    → Client.handle_receive t (received (decimal t0 ++ 0 ∷ rest)) c
      ≡ some (some (decimal t), timed c t0 t rest)
unfolding Client.handle_receive timed
client_round c t0 t rest h l n =
    rw (bounded_lem (c.count + 1) n, stored_text t0 rest c.recv_buffer l, read_decimal t0 h) refl

converse_round :
    (s s1 : UdpServer) (c c1 : TimerClient) (t : ℕ) (ts : List ℕ) (message answer reply : Bytes)
    → Server.handle_receive (received message) s ≡ (some answer, s1)
    → Client.handle_receive t (received answer) c ≡ some (some reply, c1)
    → converse (t ∷ ts) message s c
      ≡ (if c1.stopped then some (s1, c1) else converse ts reply s1 c1)
unfolding converse
converse_round s s1 c c1 t ts message answer reply e e' = rw (e, e') refl

EndsAt-answered :
    (s : UdpServer) (k t0 : ℕ) (rest : Bytes)
    → EndsAt k s rest
    → length (decimal t0) ≡ k
    → EndsAt k (answered s t0 rest) rest
unfolding answered
EndsAt-answered s k t0 rest (e, n) l = (
  ap (λ m. drop m (decimal t0 ++ 0 ∷ rest)) (sym l) ∙ drop-append (decimal t0) (0 ∷ rest),
  omega (
    arith,
    length-append {0} (decimal t0) (0 ∷ rest),
    l,
    n,
    ap length e,
    length-drop k s.recv_buffer,
    decimal_some t0,
  ),
)

-- Both programs after the rounds over `served`.
abbrev pub Conversed :
    ℕ → List ℕ → UdpServer → TimerClient → Option (UdpServer × TimerClient) → Type 0
Conversed t0 served s c o =
    (s' : UdpServer) × (c' : TimerClient) × (o ≡ some (s', c'))
    × (c'.lat_ofs ≡ c.lat_ofs ++ differences t0 served)
    × (c'.count ≡ c.count + length served)
    × (s'.mps ≡ (s.mps + length served) % 2 ^ 32)
    × (c'.stopped ≡ ltb 100000 (c.count + length served))

not_stopped : (m n : ℕ) → m + n ≡ 100000 → ltb 100000 n ≡ false
not_stopped m n h = ground (arith, h)

-- The round in which the client stops, and one before it.
last_round :
    (t0 t : ℕ) (ts : List ℕ) (s : UdpServer) (c : TimerClient) (rest : Bytes)
    → c.count ≡ 100000
    → c.stopped ≡ false
    → s.mps < 2 ^ 32
    → converse (t ∷ ts) (decimal t0) s c ≡ (
        if (timed c t0 t rest).stopped
        then some (answered s t0 rest, timed c t0 t rest)
        else converse ts (decimal t) (answered s t0 rest) (timed c t0 t rest))
    → Conversed t0 (t ∷ []) s c (converse (t ∷ ts) (decimal t0) s c)
unfolding answered timed
last_round t0 t ts s c rest n r m e =
    let over : ltb 100000 (c.count + 1) ≡ true = ground (arith, n) in
    (
      answered s t0 rest,
      timed c t0 t rest,
      e ∙ rw (r, over) refl,
      refl,
      refl,
      refl,
      rw (r, over) refl,
    )

next_round :
    (m t0 t : ℕ) (ts served : List ℕ) (s : UdpServer) (c : TimerClient) (rest : Bytes)
    → suc m + c.count ≡ 100000
    → c.stopped ≡ false
    → s.mps < 2 ^ 32
    → converse (t ∷ ts) (decimal t0) s c ≡ (
        if (timed c t0 t rest).stopped
        then some (answered s t0 rest, timed c t0 t rest)
        else converse ts (decimal t) (answered s t0 rest) (timed c t0 t rest))
    → Conversed t served
        (answered s t0 rest)
        (timed c t0 t rest)
        (converse ts (decimal t) (answered s t0 rest) (timed c t0 t rest))
    → Conversed t0 (t ∷ served) s c (converse (t ∷ ts) (decimal t0) s c)
unfolding answered timed
next_round m t0 t ts served s c rest n r p e (s', c', q, lat, cnt, mps, stop) =
    let under = not_stopped m (c.count + 1) (omega (arith, n)) in
    let stops : (timed c t0 t rest).stopped ≡ false = rw (r, under) refl in
    (
      s',
      c',
      e
          ∙ ap
              (λ b.
                if b
                then some (answered s t0 rest, timed c t0 t rest)
                else converse ts (decimal t) (answered s t0 rest) (timed c t0 t rest))
              stops
          ∙ q,
      lat ∙ append_assoc c.lat_ofs ((t + 2 ^ 64 - t0) % 2 ^ 64 ∷ []) (differences t served),
      omega (arith, cnt),
      omega (arith, mps),
      stop
          ∙ ap (ltb 100000) {x = c.count + 1 + length served} {y = c.count + length (t ∷ served)}
              (omega arith),
    )

first_round :
    (k t0 t : ℕ) (ts : List ℕ) (s : UdpServer) (c : TimerClient) (rest : Bytes)
    → t0 < 2 ^ 64
    → length (decimal t0) ≡ k
    → k < 128
    → EndsAt k s rest
    → c.count + 1 < 2 ^ 31
    → converse (t ∷ ts) (decimal t0) s c ≡ (
        if (timed c t0 t rest).stopped
        then some (answered s t0 rest, timed c t0 t rest)
        else converse ts (decimal t) (answered s t0 rest) (timed c t0 t rest))
first_round k t0 t ts s c rest d0 l0 h e n =
    let fits : length (decimal t0 ++ 0 ∷ rest) ≤ 1024 = omega (
      arith,
      length-append {0} (decimal t0) (0 ∷ rest),
      l0,
      h,
      ap length e.0,
      length-drop k s.recv_buffer,
      e.1,
    ) in
    converse_round s (answered s t0 rest) c (timed c t0 t rest) t ts (decimal t0)
      (decimal t0 ++ 0 ∷ rest) (decimal t) (server_round s k t0 rest e l0 h)
      (client_round c t0 t rest d0 fits n)

-- After the request at `t0`, over the times at which answers would arrive, all of as many digits, where the buffer of the server
-- holds a 0 behind that many bytes and the client has counted 100000 - `m`: the client takes the first `m` + 1 answers, or all if
-- there are fewer, and has stopped its service if its count is past 100000. No read leaves a buffer, the client writes each of
-- these times less the one before, modulo 2 ^ 64, and both count every round, the server modulo 2 ^ 32.
pub converse-differences :
    (k m t0 : ℕ) (ts : List ℕ) (s : UdpServer) (c : TimerClient) (rest : Bytes)
    → HaveDigits k (t0 ∷ ts)
    → k < 128
    → EndsAt k s rest
    → s.mps < 2 ^ 32
    → m + c.count ≡ 100000
    → c.stopped ≡ false
    → Conversed t0 (take (suc m) ts) s c (converse ts (send_timestamp t0) s c)
unfolding converse send_timestamp answered timed
converse-differences k m t0 [] s c rest d h e p n r = (
  s,
  c,
  refl,
  sym (append-nil c.lat_ofs),
  omega arith,
  omega (arith, p),
  r ∙ sym (not_stopped m (c.count + 0) (omega (arith, n))),
)
converse-differences k zero t0 (t ∷ ts) s c rest (d0, l0, d) h e p n r =
    last_round t0 t ts s c rest (omega (arith, n)) r p
      (first_round k t0 t ts s c rest d0 l0 h e (omega (arith, n)))
converse-differences k (suc m) t0 (t ∷ ts) s c rest (d0, l0, d) h e p n r =
    next_round m t0 t ts (take (suc m) ts) s c rest n r p
      (first_round k t0 t ts s c rest d0 l0 h e (omega (arith, n)))
      (converse-differences k m t ts (answered s t0 rest) (timed c t0 t rest) rest d h
        (EndsAt-answered s k t0 rest e l0) (omega arith) (omega (arith, n))
        (rw (r, not_stopped m (c.count + 1) (omega (arith, n))) refl))
