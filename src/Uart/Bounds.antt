-- ===== src/Uart/Bounds.antt =====
-- The parser writes inside its buffer, whatever bytes arrive and whenever they do.
use mathlib.Core.Path.{subst}
use tapestry.Prelude.{
  ℕ, ◌+◌, ◌<◌, ◌≤◌, ◌≡◌, refl, sym, ◌∙◌, inl, inr, not, ◌||◌, List, [], ◌∷◌, arith, ltb, leb, ◌==◌,
  Bool-cases, length, length-set, u32,
}
use tapestry.Uart.Bus.{
  magic_0, magic_1, mtu, Msgq, ParseState, parse_magic1, parse_magic2, parse_len, parse_data,
  parse_cka, parse_ckb, Parser, Bus, Event, quiet, bad_length, corrupt, intact, take_byte, parse,
  is_stale, parse_at, react, bus_rx_byte, uart_rx,
}

-- Inside a frame the length is at most the buffer's, and while bytes are outstanding the next one's
-- place is below it.
abbrev pub InFrame : ParseState → ℕ → ℕ → Type 0
InFrame parse_data len pos = (pos < len) × (len ≤ mtu)
InFrame parse_cka len pos = len ≤ mtu
InFrame parse_ckb len pos = len ≤ mtu
InFrame _ len pos = Unit

abbrev pub IsParser : Parser → Type 0
IsParser p = (length p.buf ≡ mtu) × InFrame p.state p.len p.pos

parse-IsParser : (p : Parser) (c : ℕ) → IsParser p → IsParser (parse p c).0
unfolding parse
parse-IsParser p c (n, f) = at_state p.state refl
  where
    at_state : (s : ParseState) → p.state ≡ s → IsParser (parse p c).0
    at_state parse_magic1 e = elim (Bool-cases (c == magic_0)) [
      | inl m ↦ rw (parse, e, m) (n, tt)
      | inr m ↦ rw (parse, e, m) (n, f)
    ]
    at_state parse_magic2 e = elim (Bool-cases (c == magic_1)) [
      | inl m ↦ rw (parse, e, m) (n, tt)
      | inr m ↦
          rw (parse, e, m)
            (elim (Bool-cases (not (c == magic_0))) [ inl k ↦ rw k (n, tt) | inr k ↦ rw k (n, f) ])
    ]
    at_state parse_len e = elim (Bool-cases (c == 0 || ltb mtu c)) [
      | inl m ↦ rw (parse, e, m) (n, tt)
      | inr m ↦ let k : (0 < c) × (c ≤ mtu) = ground arith in rw (parse, e, m) (n, k)
    ]
    at_state parse_data e =
        let g : (p.pos < p.len) × (p.len ≤ mtu) = subst (λ s. InFrame s p.len p.pos) e f in
        let n' = length-set p.buf p.pos c ∙ n in
        elim (Bool-cases (leb p.len (take_byte p c).pos)) [
          | inl m ↦ rw (parse, e, m) (n', g.1)
          | inr m ↦ rw (parse, e, m) (n', (ground arith, g.1))
        ]
    at_state parse_cka e =
        let g : p.len ≤ mtu = subst (λ s. InFrame s p.len p.pos) e f in rw (parse, e) (n, g)
    at_state parse_ckb e = rw (parse, e) (n, tt)

parse_at-IsParser : (now : ℕ) (p : Parser) (c : ℕ) → IsParser p → IsParser (parse_at now p c).0
unfolding parse_at
parse_at-IsParser now p c ok = elim (Bool-cases (is_stale now p)) [
  | inl e ↦
      rw (parse_at, e)
        (parse-IsParser (record p { state = parse_magic1; last_byte_ms = now }) c (ok.0, tt))
  | inr e ↦ rw (parse_at, e) (parse-IsParser (record p { last_byte_ms = now }) c ok)
]

module _ {Q : Type 0} where
  parser-react :
      (mq : Msgq Q) (wire_size now : ℕ) (b : Bus Q) (event : Event)
      → (react mq wire_size now b event).parser ≡ b.parser
  unfolding react
  parser-react mq wire_size now b quiet = refl
  parser-react mq wire_size now b bad_length = refl
  parser-react mq wire_size now b corrupt = refl
  parser-react mq wire_size now b intact = ground arith

  -- Whatever bytes the bus clocks in, whenever and in whatever number, the parser stays within its
  -- buffer: that keeps its 64 bytes, the length of a frame under way is at most 64, and while payload
  -- is outstanding the place of the next byte is below the length.
  pub uart_rx-IsParser :
      (mq : Msgq Q) (wire_size : ℕ) (b : Bus Q) (bytes : List (ℕ × ℕ))
      → IsParser b.parser
      → IsParser (uart_rx mq wire_size b bytes).parser
  unfolding uart_rx bus_rx_byte
  uart_rx-IsParser mq wire_size b [] ok = ok
  uart_rx-IsParser mq wire_size b ((now, c) ∷ bytes) ok =
      let b' = bus_rx_byte mq wire_size now b c in
      uart_rx-IsParser mq wire_size (record b' { rx_bytes = u32 (b'.rx_bytes + 1) }) bytes
        (subst IsParser (sym (parser-react mq wire_size now _ (parse_at now b.parser c).1))
          (parse_at-IsParser now b.parser c ok))
