-- ===== src/Uart/Bus.antt =====
-- transceiver_uart.c: framing, the byte-wise parser, echo suppression, and the entries of the vtable.
use tapestry.Prelude.{
  ℕ, ◌+◌, ◌-◌, ◌*◌, ◌%◌, ◌^◌, Bool, true, false, not, ◌&&◌, ◌||◌, List, [], ◌∷◌, ◌++◌, Option, none,
  some, ltb, leb, ◌==◌, if◌then◌else◌, length, set, take, u8, u32,
}

-- UART_BUS_MAGIC_0, 'T', and UART_BUS_MAGIC_1, 'P'
abbrev pub magic_0 : ℕ
magic_0 = 84

abbrev pub magic_1 : ℕ
magic_1 = 80

-- UART_BUS_MTU
abbrev pub mtu : ℕ
mtu = 64

abbrev pub echo_ring_depth : ℕ
echo_ring_depth = 4

abbrev pub echo_window_ms : ℕ
echo_window_ms = 250

abbrev pub frame_gap_ms : ℕ
frame_gap_ms = 20

-- The kernel's message queue: whether a message was put, and the message taken out.
pub record Msgq (Q : Type 0) : Type 0 where
  pub put : Q → List ℕ → Q × Bool
  pub get : Q → Q × Option (List ℕ)

-- parse_state_t
pub data ParseState : Type 0 where
  parse_magic1 parse_magic2 parse_len parse_data parse_cka parse_ckb : ParseState

pub record Parser : Type 0 where
  pub state : ParseState
  pub len : ℕ
  pub pos : ℕ
  pub buf : List ℕ
  pub ca : ℕ
  pub cb : ℕ
  pub cka : ℕ
  pub last_byte_ms : ℕ

pub record Echo : Type 0 where
  pub cksum : ℕ
  pub sent_ms : ℕ

-- The static storage of the file.
pub record Bus (Q : Type 0) : Type 0 where
  pub parser : Parser
  pub echo : List Echo
  pub echo_head : ℕ
  pub queue : Q
  pub rx_bytes : ℕ
  pub rx_frames : ℕ
  pub tx_frames : ℕ
  pub ck_fail : ℕ
  pub len_bad : ℕ
  pub q_drop : ℕ
  pub echo_drop : ℕ
  pub resync : ℕ

-- `ca += c; cb += ca` on bytes.
abbrev pub add_ca : ℕ → ℕ → ℕ
add_ca ca c = u8 (ca + c)

abbrev pub add_cb : ℕ → ℕ → ℕ → ℕ
add_cb ca cb c = u8 (cb + add_ca ca c)

-- Both checksums over a sequence of bytes.
unfoldable pub checksum : ℕ → ℕ → List ℕ → ℕ × ℕ
checksum ca cb [] = (ca, cb)
checksum ca cb (c ∷ cs) = checksum (add_ca ca c) (add_cb ca cb c) cs

-- The milliseconds from one uptime to a later one, on 32 bits.
abbrev pub since : ℕ → ℕ → ℕ
since now before = u32 (now + 2 ^ 32 - before)

-- What a byte tells the receiver.
pub data Event : Type 0 where
  quiet bad_length corrupt intact : Event

-- The length byte.
abbrev pub begin_frame : Parser → ℕ → Parser
begin_frame p c = record p { len = c; pos = 0; ca = add_ca 0 c; cb = add_cb 0 0 c }

-- A byte of the payload.
abbrev pub take_byte : Parser → ℕ → Parser
take_byte p c = record p {
  buf = set p.buf p.pos c;
  pos = u8 (p.pos + 1);
  ca = add_ca p.ca c;
  cb = add_cb p.ca p.cb c;
}

-- The switch of bus_rx_byte().
unfoldable pub parse : Parser → ℕ → Parser × Event
parse p c = elim p.state [
  | parse_magic1 ↦ (if c == magic_0 then record p { state = parse_magic2 } else p, quiet)
  | parse_magic2 ↦ (
    if c == magic_1
        then record p { state = parse_len }
        else if not (c == magic_0)
        then record p { state = parse_magic1 }
        else p,
    quiet,
  )
  | parse_len ↦
      if c == 0 || ltb mtu c
      then (record (begin_frame p c) { state = parse_magic1 }, bad_length)
      else (record (begin_frame p c) { state = parse_data }, quiet)
  | parse_data ↦ (
    record (take_byte p c) {
      state = if leb p.len (take_byte p c).pos then parse_cka else parse_data;
    },
    quiet,
  )
  | parse_cka ↦ (record p { cka = c; state = parse_ckb }, quiet)
  | parse_ckb ↦
      (record p { state = parse_magic1 }, if p.cka == p.ca && c == p.cb then intact else corrupt)
]

abbrev pub is_hunting : ParseState → Bool
is_hunting parse_magic1 = true
is_hunting _ = false

-- Whether the gap before a byte abandons the frame.
unfoldable pub is_stale : ℕ → Parser → Bool
is_stale now p = not (is_hunting p.state) && ltb frame_gap_ms (since now p.last_byte_ms)

-- The parser's part of bus_rx_byte().
unfoldable pub parse_at : ℕ → Parser → ℕ → Parser × Event
parse_at now p c =
    parse
      (if is_stale now p
        then record p { state = parse_magic1; last_byte_ms = now }
        else record p { last_byte_ms = now })
      c

unfoldable pub echo_match : ℕ → List Echo → ℕ → Bool
echo_match now [] cksum = false
echo_match now (e ∷ es) cksum =
    (e.cksum == cksum && leb (since now e.sent_ms) echo_window_ms) || echo_match now es cksum

-- `(uint16_t)ca << 8 | cb`, of two bytes.
abbrev pub signature : ℕ → ℕ → ℕ
signature ca cb = ca * 256 + cb

module _ {Q : Type 0} where
  unfoldable pub echo_record : ℕ → Bus Q → ℕ → Bus Q
  echo_record now b cksum = record b {
    echo = set b.echo b.echo_head (record { cksum = cksum; sent_ms = now });
    echo_head = u8 ((b.echo_head + 1) % echo_ring_depth);
  }

  -- What bus_rx_byte() does about an event; `wire_size` is TAPESTRY_GOSSIP_WIRE_SIZE.
  unfoldable pub react : Msgq Q → ℕ → ℕ → Bus Q → Event → Bus Q
  react mq wire_size now b quiet = b
  react mq wire_size now b bad_length = record b { len_bad = u32 (b.len_bad + 1) }
  react mq wire_size now b corrupt = record b { ck_fail = u32 (b.ck_fail + 1) }
  react mq wire_size now b intact =
      let p = b.parser in
      let (queue, done) = mq.put b.queue (take wire_size p.buf) in
      if echo_match now b.echo (signature p.ca p.cb)
      then record b { echo_drop = u32 (b.echo_drop + 1) }
      else if not (p.len == wire_size)
      then record b { len_bad = u32 (b.len_bad + 1) }
      else if done
      then record b { queue = queue; rx_frames = u32 (b.rx_frames + 1) }
      else record b { queue = queue; q_drop = u32 (b.q_drop + 1) }

  unfoldable pub bus_rx_byte : Msgq Q → ℕ → ℕ → Bus Q → ℕ → Bus Q
  bus_rx_byte mq wire_size now b c =
      let (p, event) = parse_at now b.parser c in
      react mq wire_size now
        (record b {
          parser = p;
          resync = if is_stale now b.parser then u32 (b.resync + 1) else b.resync;
        })
        event

  -- The loop of uart_rx_cb(), over bytes with the uptime of each.
  unfoldable pub uart_rx : Msgq Q → ℕ → Bus Q → List (ℕ × ℕ) → Bus Q
  uart_rx mq wire_size b [] = b
  uart_rx mq wire_size b ((now, c) ∷ bytes) =
      let b' = bus_rx_byte mq wire_size now b c in
      uart_rx mq wire_size (record b' { rx_bytes = u32 (b'.rx_bytes + 1) }) bytes

  -- bus_send(): the bytes on the bus.
  unfoldable pub bus_send : ℕ → Bus Q → List ℕ → Bus Q × List ℕ
  bus_send now b payload =
      let n = u8 (length payload) in
      let (ca, cb) = checksum 0 0 (n ∷ payload) in
      (echo_record now b (signature ca cb), magic_0 ∷ magic_1 ∷ n ∷ (payload ++ (ca ∷ cb ∷ [])))

  -- uart_bus_tx(); `none` is -EMSGSIZE.
  unfoldable pub uart_bus_tx : ℕ → Bus Q → List ℕ → Option (Bus Q × List ℕ)
  uart_bus_tx now b payload =
      if ltb mtu (length payload)
      then none
      else (let (b', bytes) = bus_send now b payload in
          some (record b' { tx_frames = u32 (b'.tx_frames + 1) }, bytes))

  -- uart_bus_rx(); the outer `none` is -ENOMEM, the inner one 0.
  unfoldable pub uart_bus_rx : Msgq Q → ℕ → ℕ → Bus Q → Option (Bus Q × Option (List ℕ))
  uart_bus_rx mq wire_size max_len b =
      if ltb max_len wire_size
      then none
      else (let (queue, got) = mq.get b.queue in some (record b { queue = queue }, got))
