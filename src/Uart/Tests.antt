-- ===== src/Uart/Tests.antt =====
-- transceiver_uart.c: the theorems on a queue of eight messages.
use tapestry.Prelude.{
  ℕ, ◌+◌, ◌*◌, ◌≡◌, refl, true, false, List, [], ◌∷◌, ◌++◌, Option, none, some, arith, ltb,
  if◌then◌else◌, length, replicate,
}
use tapestry.Uart.Bus.{Msgq, parse_magic1, Bus, checksum, echo_match, uart_rx, bus_send}
use tapestry.Uart.Bounds.{IsParser, uart_rx-IsParser}
use tapestry.Uart.Delivery.{timed, uart_rx-bus_send}

abbrev take_first : List (List ℕ) → List (List ℕ) × Option (List ℕ)
take_first [] = ([], none)
take_first (m ∷ ms) = (ms, some m)

abbrev eight : Msgq (List (List ℕ))
eight = record {
  put = λ q m. if ltb (length q) 8 then (q ++ (m ∷ []), true) else (q, false);
  get = take_first;
}

abbrev idle : Bus (List (List ℕ))
idle = record {
  parser = record {
    state = parse_magic1;
    len = 0;
    pos = 0;
    buf = replicate 64 0;
    ca = 0;
    cb = 0;
    cka = 0;
    last_byte_ms = 0;
  };
  echo = replicate 4 (record { cksum = 0; sent_ms = 0 });
  echo_head = 0;
  queue = [];
  rx_bytes = 0;
  rx_frames = 0;
  tx_frames = 0;
  ck_fail = 0;
  len_bad = 0;
  q_drop = 0;
  echo_drop = 0;
  resync = 0;
}

-- A payload with a preamble in it.
abbrev tricky : List ℕ
tricky = 84 ∷ 80 ∷ 7 ∷ []

no_echo : let (ca, cb) = checksum 0 0 (3 ∷ tricky) in echo_match 5 idle.echo (ca * 256 + cb) ≡ false
unfolding checksum echo_match
no_echo = refl

uart_rx-bus_send_example :
    let b' = uart_rx eight 3 idle (timed (λ i. 5) 0 (bus_send 4 idle tricky).1) in
    (b'.queue ≡ (eight.put idle.queue tricky).0) × (b'.parser.state ≡ parse_magic1)
uart_rx-bus_send_example =
    uart_rx-bus_send eight 4 idle idle tricky (λ i. 5) (omega arith) (omega arith) refl refl
      (λ i. omega arith) no_echo

-- A frame that breaks off, and noise.
abbrev noise : List (ℕ × ℕ)
noise = (1, 84) ∷ (2, 80) ∷ (3, 52) ∷ (4, 9) ∷ (90, 200) ∷ []

uart_rx-IsParser_example : IsParser (uart_rx eight 48 idle noise).parser
uart_rx-IsParser_example = uart_rx-IsParser eight 48 idle noise (refl, tt)
