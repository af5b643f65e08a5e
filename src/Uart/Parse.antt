-- ===== src/Uart/Parse.antt =====
-- The parser on the bytes of a whole frame.
use mathlib.Core.List.{append_assoc}
use tapestry.Prelude.{
  ℕ, zero, suc, ◌+◌, ◌<◌, ◌≤◌, ◌≡◌, refl, sym, ap, ◌∙◌, Bool, true, false, List, [], ◌∷◌, ◌++◌,
  arith, leb, if◌then◌else◌, length, set, length-set, take, append_nil, u8,
}
use tapestry.Uart.Bus.{
  mtu, frame_gap_ms, parse_data, parse_cka, Parser, quiet, checksum, since, take_byte, parse,
  is_stale, parse_at,
}

take-set :
    (xs : List ℕ) (i c : ℕ) → i < length xs → take (i + 1) (set xs i c) ≡ take i xs ++ (c ∷ [])
take-set [] i c h = absurd (omega arith)
take-set (x ∷ xs) zero c h = refl
take-set (x ∷ xs) (suc i) c h =
    let z : suc i + 1 ≡ suc (i + 1) = omega arith in
    rw z (ap (λ l. x ∷ l) (take-set xs i c (omega arith)))

-- No byte comes more than the gap after the one before it.
abbrev pub Paced : ℕ → List (ℕ × ℕ) → Type 0
Paced last [] = Unit
Paced last ((now, c) ∷ bytes) = (since now last ≤ frame_gap_ms) × Paced now bytes

abbrev pub bytes_of : List (ℕ × ℕ) → List ℕ
bytes_of [] = []
bytes_of ((now, c) ∷ bytes) = c ∷ bytes_of bytes

-- The parser takes the bytes one by one, and none of them is an event.
abbrev pub Runs : Parser → List (ℕ × ℕ) → Parser → Type 0
Runs p [] q = p ≡ q
Runs p ((now, c) ∷ bytes) q = (p' : Parser) × (parse_at now p c ≡ (p', quiet)) × Runs p' bytes q

-- A byte in time goes to the switch.
pub parse_at-parse :
    (now : ℕ) (p : Parser) (c : ℕ)
    → since now p.last_byte_ms ≤ frame_gap_ms
    → parse_at now p c ≡ parse (record p { last_byte_ms = now }) c
unfolding parse_at is_stale
parse_at-parse now p c h = let e : is_stale now p ≡ false = ground arith in rw (parse_at, e) refl

-- The payload phase: a byte of it in time, and then all of them.
abbrev pub taken_one : Parser → ℕ → ℕ → Parser
taken_one p now c = record (take_byte (record p { last_byte_ms = now }) c) { state = parse_data }

abbrev pub taken : Parser → List (ℕ × ℕ) → Parser
taken p [] = record p { state = parse_cka }
taken p ((now, c) ∷ bytes) = taken (taken_one p now c) bytes

parse_data_step :
    (now : ℕ) (p : Parser) (c : ℕ) (more : Bool)
    → p.state ≡ parse_data
    → p.pos < mtu
    → since now p.last_byte_ms ≤ frame_gap_ms
    → leb p.len (p.pos + 1) ≡ more
    → parse_at now p c
      ≡ (record (taken_one p now c) { state = if more then parse_cka else parse_data }, quiet)
unfolding parse
parse_data_step now p c more e small h m =
    let z : u8 (p.pos + 1) ≡ p.pos + 1 = omega arith in
    let m' : leb p.len (u8 (p.pos + 1)) ≡ more = ap (leb p.len) z ∙ m in
    parse_at-parse now p c h ∙ rw (parse, e, m') refl

pub taken-Runs :
    (p : Parser) (bytes : List (ℕ × ℕ))
    → p.state ≡ parse_data
    → 0 < length bytes
    → p.pos + length bytes ≡ p.len
    → p.len ≤ mtu
    → Paced p.last_byte_ms bytes
    → Runs p bytes (taken p bytes)
taken-Runs p [] e some n small h = absurd (omega arith)
taken-Runs p ((now, c) ∷ []) e some n small h =
    (taken p ((now, c) ∷ []), parse_data_step now p c true e (omega arith) h.0 (ground arith), refl)
taken-Runs p ((now, c) ∷ b ∷ bytes) e some n small h =
    let z : u8 (p.pos + 1) ≡ p.pos + 1 = omega arith in
    (
      taken_one p now c,
      parse_data_step now p c false e (omega arith) h.0 (ground arith),
      taken-Runs (taken_one p now c) (b ∷ bytes) refl (omega arith) (omega (arith, z, n)) small h.1,
    )

abbrev pub last_time : ℕ → List (ℕ × ℕ) → ℕ
last_time last [] = last
last_time last ((now, c) ∷ bytes) = last_time now bytes

-- What the payload phase leaves.
pub record Received (p : Parser) (bytes : List (ℕ × ℕ)) (q : Parser) : Type 0 where
  pub in_cka : q.state ≡ parse_cka
  pub len_kept : q.len ≡ p.len
  pub sums : (q.ca, q.cb) ≡ checksum p.ca p.cb (bytes_of bytes)
  pub stored : take (p.pos + length bytes) q.buf ≡ take p.pos p.buf ++ bytes_of bytes
  pub time : q.last_byte_ms ≡ last_time p.last_byte_ms bytes

pub taken-Received :
    (p : Parser) (bytes : List (ℕ × ℕ))
    → length p.buf ≡ mtu
    → p.pos + length bytes ≤ mtu
    → Received p bytes (taken p bytes)
unfolding checksum
taken-Received p [] n small = record {
  in_cka = refl;
  len_kept = refl;
  sums = refl;
  stored =
      let z : p.pos + 0 ≡ p.pos = omega arith in
      ap (λ k. take k p.buf) z ∙ sym (append_nil (take p.pos p.buf));
  time = refl;
}
taken-Received p ((now, c) ∷ bytes) n small =
    let p' = taken_one p now c in
    let z : u8 (p.pos + 1) ≡ p.pos + 1 = omega arith in
    let r = taken-Received p' bytes (length-set p.buf p.pos c ∙ n) (omega (arith, z, small)) in
    record {
      in_cka = r.in_cka;
      len_kept = r.len_kept;
      sums = r.sums;
      stored =
          let k : p.pos + suc (length bytes) ≡ p'.pos + length bytes = omega (arith, z) in
          let front : take p'.pos p'.buf ≡ take p.pos p.buf ++ (c ∷ []) =
            ap (λ i. take i p'.buf) z ∙ take-set p.buf p.pos c (omega (arith, n, small)) in
          ap (λ i. take i (taken p' bytes).buf) k
          ∙ r.stored
          ∙ ap (λ xs. xs ++ bytes_of bytes) front
          ∙ append_assoc (take p.pos p.buf) (c ∷ []) (bytes_of bytes);
      time = r.time;
    }
