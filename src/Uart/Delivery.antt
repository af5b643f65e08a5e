-- ===== src/Uart/Delivery.antt =====
-- A frame from one element to another over the bus.
use mathlib.Core.List.{append_assoc}
use mathlib.Core.Path.{subst}
use tapestry.Prelude.{
  ℕ, suc, ◌+◌, ◌<◌, ◌≤◌, ◌≡◌, refl, sym, ap, ◌∙◌, inl, inr, true, false, not, ◌&&◌, ◌||◌, List, [],
  ◌∷◌, ◌++◌, arith, ltb, ◌==◌, Bool-cases, length, take, u8, u32,
}
use tapestry.Uart.Bus.{
  magic_0, magic_1, mtu, frame_gap_ms, Msgq, parse_magic1, parse_magic2, parse_len, parse_data,
  parse_ckb, Parser, Bus, quiet, intact, checksum, since, begin_frame, parse, is_stale, parse_at,
  echo_match, signature, react, bus_rx_byte, uart_rx, bus_send,
}
use tapestry.Uart.Parse.{
  Paced, bytes_of, Runs, last_time, parse_at-parse, taken, taken-Runs, taken-Received,
}

-- The i-th byte on the bus comes at the uptime `at i`.
abbrev pub timed : (ℕ → ℕ) → ℕ → List ℕ → List (ℕ × ℕ)
timed clock i [] = []
timed clock i (c ∷ cs) = (clock i, c) ∷ timed clock (i + 1) cs

-- No two bytes are further apart than the gap.
abbrev pub IsSteady : (ℕ → ℕ) → Type 0
IsSteady clock = (i : ℕ) → since (clock (i + 1)) (clock i) ≤ frame_gap_ms

timed-append :
    (clock : ℕ → ℕ) (i : ℕ) (xs ys : List ℕ)
    → timed clock i (xs ++ ys) ≡ timed clock i xs ++ timed clock (i + length xs) ys
timed-append clock i [] ys = let z : i ≡ i + 0 = omega arith in ap (λ k. timed clock k ys) z
timed-append clock i (x ∷ xs) ys =
    let z : i + 1 + length xs ≡ i + suc (length xs) = omega arith in
    ap (λ l. (clock i, x) ∷ l)
      (timed-append clock (i + 1) xs ys ∙ ap (λ k. timed clock (i + 1) xs ++ timed clock k ys) z)

bytes_of-timed : (clock : ℕ → ℕ) (i : ℕ) (xs : List ℕ) → bytes_of (timed clock i xs) ≡ xs
bytes_of-timed clock i [] = refl
bytes_of-timed clock i (x ∷ xs) = ap (λ l. x ∷ l) (bytes_of-timed clock (i + 1) xs)

length-timed : (clock : ℕ → ℕ) (i : ℕ) (xs : List ℕ) → length (timed clock i xs) ≡ length xs
length-timed clock i [] = refl
length-timed clock i (x ∷ xs) = ap suc (length-timed clock (i + 1) xs)

timed-Paced :
    (clock : ℕ → ℕ) (i : ℕ) (xs : List ℕ)
    → IsSteady clock
    → Paced (clock i) (timed clock (i + 1) xs)
timed-Paced clock i [] h = tt
timed-Paced clock i (x ∷ xs) h = (h i, timed-Paced clock (i + 1) xs h)

Runs-append :
    (p q r : Parser) (xs ys : List (ℕ × ℕ)) → Runs p xs q → Runs q ys r → Runs p (xs ++ ys) r
Runs-append p q r [] ys h k = subst (λ p. Runs p ys r) (sym h) k
Runs-append p q r ((now, c) ∷ xs) ys (p', e, h) k = (p', e, Runs-append p' q r xs ys h k)

module _ {Q : Type 0} (mq : Msgq Q) (wire_size : ℕ) where
  abbrev counted : Bus Q → Bus Q
  counted b = record b { rx_bytes = u32 (b.rx_bytes + 1) }

  uart_rx-append :
      (b : Bus Q) (xs ys : List (ℕ × ℕ))
      → uart_rx mq wire_size b (xs ++ ys) ≡ uart_rx mq wire_size (uart_rx mq wire_size b xs) ys
  unfolding uart_rx
  uart_rx-append b [] ys = refl
  uart_rx-append b ((now, c) ∷ xs) ys =
      uart_rx-append (counted (bus_rx_byte mq wire_size now b c)) xs ys

  -- Bytes that are no event move the parser, and leave the queue and the echo ring.
  abbrev Quietly : Bus Q → Parser → Bus Q → Type 0
  Quietly b q b' = (b'.parser ≡ q) × (b'.queue ≡ b.queue) × (b'.echo ≡ b.echo)

  bus_rx_byte-quiet :
      (now : ℕ) (b : Bus Q) (c : ℕ) (p : Parser)
      → parse_at now b.parser c ≡ (p, quiet)
      → Quietly b p (counted (bus_rx_byte mq wire_size now b c))
  unfolding bus_rx_byte react
  bus_rx_byte-quiet now b c p e = rw (bus_rx_byte, e) (refl, refl, refl)

  uart_rx-Quietly :
      (b : Bus Q) (bytes : List (ℕ × ℕ)) (q : Parser)
      → Runs b.parser bytes q
      → Quietly b q (uart_rx mq wire_size b bytes)
  unfolding uart_rx
  uart_rx-Quietly b [] q h = (h, refl, refl)
  uart_rx-Quietly b ((now, c) ∷ bytes) q (p', e, h) =
      let b1 = counted (bus_rx_byte mq wire_size now b c) in
      let one = bus_rx_byte-quiet now b c p' e in
      let rest = uart_rx-Quietly b1 bytes q (subst (λ p. Runs p bytes q) (sym one.0) h) in
      (rest.0, rest.1 ∙ one.1, rest.2 ∙ one.2)

  -- The last byte of an intact frame that is no echo.
  bus_rx_byte-intact :
      (now : ℕ) (b : Bus Q) (p : Parser)
      → b.parser ≡ p
      → p.state ≡ parse_ckb
      → p.cka ≡ p.ca
      → p.len ≡ wire_size
      → since now p.last_byte_ms ≤ frame_gap_ms
      → echo_match now b.echo (signature p.ca p.cb) ≡ false
      → let b' = bus_rx_byte mq wire_size now b p.cb in
        (b'.queue ≡ (mq.put b.queue (take wire_size p.buf)).0) × (b'.parser.state ≡ parse_magic1)
  unfolding bus_rx_byte react parse
  bus_rx_byte-intact now b p e st ck n gap echo =
      let both : (p.cka == p.ca && p.cb == p.cb) ≡ true = ground arith in
      let parsed : parse_at now p p.cb
          ≡ (record p { state = parse_magic1; last_byte_ms = now }, intact) =
        parse_at-parse now p p.cb gap ∙ rw (parse, st, both) refl in
      let pe = ap (λ q. parse_at now q p.cb) e ∙ parsed in
      let fits : not (p.len == wire_size) ≡ false = ground arith in
      elim (Bool-cases (mq.put b.queue (take wire_size p.buf)).1) [
        | inl done ↦ rw (bus_rx_byte, pe, echo, fits, done) (refl, refl)
        | inr done ↦ rw (bus_rx_byte, pe, echo, fits, done) (refl, refl)
      ]

-- The header: from the hunt for a frame to its payload.
abbrev headed : Parser → ℕ → ℕ → Parser
headed p now n = record (begin_frame (record p { last_byte_ms = now }) n) { state = parse_data }

header-Runs :
    (p : Parser) (clock : ℕ → ℕ) (n : ℕ)
    → p.state ≡ parse_magic1
    → 0 < n
    → n ≤ mtu
    → IsSteady clock
    → Runs p (timed clock 0 (magic_0 ∷ magic_1 ∷ n ∷ [])) (headed p (clock 2) n)
unfolding parse parse_at is_stale
header-Runs p clock n e pos small steady = (
  record p { state = parse_magic2; last_byte_ms = clock 0 },
  first,
  (
    record p { state = parse_len; last_byte_ms = clock 1 },
    parse_at-parse (clock 1) (record p { state = parse_magic2; last_byte_ms = clock 0 }) magic_1
        (steady 0),
    (
      headed p (clock 2) n,
      parse_at-parse (clock 2) (record p { state = parse_len; last_byte_ms = clock 1 }) n (steady 1)
          ∙ rw (parse, legal) refl,
      refl,
    ),
  ),
)
  where
    legal : (n == 0 || ltb mtu n) ≡ false
    legal = ground arith

    first :
        parse_at (clock 0) p magic_0
        ≡ (record p { state = parse_magic2; last_byte_ms = clock 0 }, quiet)
    first = rw (parse_at, is_stale, e) refl

last_time-timed :
    (clock : ℕ → ℕ) (i : ℕ) (xs : List ℕ)
    → last_time (clock i) (timed clock (i + 1) xs) ≡ clock (i + length xs)
last_time-timed clock i [] = let z : i ≡ i + 0 = omega arith in ap clock z
last_time-timed clock i (x ∷ xs) =
    let z : i + 1 + length xs ≡ i + suc (length xs) = omega arith in
    last_time-timed clock (i + 1) xs ∙ ap clock z

-- The sums that bus_send() puts behind a payload.
abbrev pub sums_of : List ℕ → ℕ × ℕ
sums_of payload = checksum 0 0 (length payload ∷ payload)

-- All of a frame but its last byte.
abbrev front_of : (ℕ → ℕ) → List ℕ → List (ℕ × ℕ)
front_of clock payload =
    timed clock 0 (magic_0 ∷ magic_1 ∷ length payload ∷ [])
    ++ (timed clock 3 payload ++ ((clock (3 + length payload), (sums_of payload).0) ∷ []))

-- The parser where the last byte of a frame is due.
record IsDue (clock : ℕ → ℕ) (payload : List ℕ) (p : Parser) : Type 0 where
  at_end : p.state ≡ parse_ckb
  first_sum : p.cka ≡ p.ca
  sums : (p.ca, p.cb) ≡ sums_of payload
  whole : take (length payload) p.buf ≡ payload
  len_kept : p.len ≡ length payload
  time : p.last_byte_ms ≡ clock (3 + length payload)

front-Runs :
    (p : Parser) (clock : ℕ → ℕ) (payload : List ℕ)
    → p.state ≡ parse_magic1
    → length p.buf ≡ mtu
    → 0 < length payload
    → length payload ≤ mtu
    → IsSteady clock
    → (q : Parser) × Runs p (front_of clock payload) q × IsDue clock payload q
unfolding checksum parse
front-Runs p clock payload e sized some small steady =
    let n = length payload in
    let ts = timed clock 3 payload in
    let p3 = headed p (clock 2) n in
    let p4 = taken p3 ts in
    let k : length ts ≡ n = length-timed clock 3 payload in
    let r = taken-Received p3 ts sized (omega (arith, k, small)) in
    let body : Runs p3 ts p4 =
      taken-Runs p3 ts refl (omega (arith, k, some)) (omega (arith, k)) small
        (timed-Paced clock 2 payload steady) in
    let last : p4.last_byte_ms ≡ clock (2 + n) = r.time ∙ last_time-timed clock 2 payload in
    let sums : (p4.ca, p4.cb) ≡ sums_of payload =
      r.sums ∙ ap (checksum p3.ca p3.cb) (bytes_of-timed clock 3 payload) in
    let p5 = record p4 {
      cka = (sums_of payload).0;
      state = parse_ckb;
      last_byte_ms = clock (3 + n);
    } in
    let tail : List (ℕ × ℕ) = (clock (3 + n), (sums_of payload).0) ∷ [] in
    let z : 2 + n + 1 ≡ 3 + n = omega arith in
    let gap : since (clock (3 + n)) p4.last_byte_ms ≤ frame_gap_ms =
      subst (λ t. since (clock (3 + n)) t ≤ frame_gap_ms) (sym last)
        (subst (λ i. since (clock i) (clock (2 + n)) ≤ frame_gap_ms) z (steady (2 + n))) in
    let sum : parse_at (clock (3 + n)) p4 (sums_of payload).0 ≡ (p5, quiet) =
      parse_at-parse (clock (3 + n)) p4 (sums_of payload).0 gap ∙ rw (parse, r.in_cka) refl in
    (
      p5,
      Runs-append p p3 p5 (timed clock 0 (magic_0 ∷ magic_1 ∷ n ∷ [])) (ts ++ tail)
          (header-Runs p clock n e some small steady)
          (Runs-append p3 p4 p5 ts tail body (p5, sum, refl)),
      record {
        at_end = refl;
        first_sum = sym (ap (λ s. s.0) sums);
        sums = sums;
        whole =
            let w : 0 + length ts ≡ n = omega (arith, k) in
            ap (λ i. take i p4.buf) (sym w) ∙ r.stored ∙ bytes_of-timed clock 3 payload;
        len_kept = r.len_kept;
        time = refl;
      },
    )

-- The bytes of bus_send(), in time.
timed-bus_send :
    {Q : Type 0} (now : ℕ) (s : Bus Q) (clock : ℕ → ℕ) (payload : List ℕ)
    → length payload ≤ mtu
    → timed clock 0 (bus_send now s payload).1
      ≡ front_of clock payload ++ ((clock (4 + length payload), (sums_of payload).1) ∷ [])
unfolding bus_send
timed-bus_send now s clock payload small =
    let n = length payload in
    let z : u8 n ≡ n = omega arith in
    let y : 3 + n + 1 ≡ 4 + n = omega arith in
    let ca = (sums_of payload).0 in
    let cb = (sums_of payload).1 in
    let rest : List ℕ → List (ℕ × ℕ) = λ sums. timed clock 3 (payload ++ sums) in
    let front = timed clock 3 payload in
    let body : rest (ca ∷ cb ∷ [])
        ≡ (front ++ ((clock (3 + n), ca) ∷ [])) ++ ((clock (4 + n), cb) ∷ []) =
      timed-append clock 3 payload (ca ∷ cb ∷ [])
      ∙ ap (λ i. front ++ ((clock (3 + n), ca) ∷ (clock i, cb) ∷ [])) y
      ∙ sym (append_assoc front ((clock (3 + n), ca) ∷ []) ((clock (4 + n), cb) ∷ [])) in
    let framed : ℕ → List (ℕ × ℕ) = λ m.
      (clock 0, magic_0)
      ∷ (clock 1, magic_1)
      ∷ (clock 2, m)
      ∷ rest ((checksum 0 0 (m ∷ payload)).0 ∷ (checksum 0 0 (m ∷ payload)).1 ∷ []) in
    ap framed z ∙ ap (λ l. (clock 0, magic_0) ∷ (clock 1, magic_1) ∷ (clock 2, n) ∷ l) body

module _ {Q : Type 0} (mq : Msgq Q) where
  -- What one element writes to the bus for a payload of the gossip frame's size, another one hands to
  -- its queue, and then hunts for the next frame; bytes of the payload may look like a preamble.  The
  -- receiver was hunting, the bytes come without a gap, and the frame does not look like an echo of
  -- one that the receiver itself sent.
  pub uart_rx-bus_send :
      (now : ℕ) (s b : Bus Q) (payload : List ℕ) (clock : ℕ → ℕ)
      → 0 < length payload
      → length payload ≤ mtu
      → b.parser.state ≡ parse_magic1
      → length b.parser.buf ≡ mtu
      → IsSteady clock
      → (let (ca, cb) = sums_of payload in
          echo_match (clock (4 + length payload)) b.echo (signature ca cb) ≡ false)
      → let b' = uart_rx mq (length payload) b (timed clock 0 (bus_send now s payload).1) in
        (b'.queue ≡ (mq.put b.queue payload).0) × (b'.parser.state ≡ parse_magic1)
  unfolding uart_rx
  uart_rx-bus_send now s b payload clock some small hunting sized steady echo =
      let n = length payload in
      let (p, runs, due) = front-Runs b.parser clock payload hunting sized some small steady in
      let b1 = uart_rx mq n b (front_of clock payload) in
      let quietly = uart_rx-Quietly mq n b (front_of clock payload) p runs in
      let z : 3 + n + 1 ≡ 4 + n = omega arith in
      let gap : since (clock (4 + n)) p.last_byte_ms ≤ frame_gap_ms =
        subst (λ t. since (clock (4 + n)) t ≤ frame_gap_ms) (sym due.time)
          (subst (λ i. since (clock i) (clock (3 + n)) ≤ frame_gap_ms) z (steady (3 + n))) in
      let no_echo : echo_match (clock (4 + n)) b1.echo (signature p.ca p.cb) ≡ false =
        ap (λ e. echo_match (clock (4 + n)) e (signature p.ca p.cb)) quietly.2
        ∙ ap (λ (s : ℕ × ℕ). echo_match (clock (4 + n)) b.echo (signature s.0 s.1)) due.sums
        ∙ echo in
      let last =
        bus_rx_byte-intact mq n (clock (4 + n)) b1 p quietly.0 due.at_end due.first_sum due.len_kept
          gap no_echo in
      let arrived : uart_rx mq n b (timed clock 0 (bus_send now s payload).1)
          ≡ counted mq n (bus_rx_byte mq n (clock (4 + n)) b1 p.cb) =
        ap (uart_rx mq n b) (timed-bus_send now s clock payload small)
        ∙ uart_rx-append mq n b (front_of clock payload) ((clock (4 + n), (sums_of payload).1) ∷ [])
        ∙ ap (λ (s : ℕ × ℕ). counted mq n (bus_rx_byte mq n (clock (4 + n)) b1 s.1))
            (sym due.sums) in
      (
        ap (λ b. b.queue) arrived
            ∙ last.0
            ∙ ap (λ q. (mq.put q (take n p.buf)).0) quietly.1
            ∙ ap (λ x. (mq.put b.queue x).0) due.whole,
        ap (λ b. b.parser.state) arrived ∙ last.1,
      )
