-- ===== src/Gossip/Replay.antt =====
-- The replay defence of directives as a gate.
use tapestry.Prelude.{
  ℕ, zero, suc, ◌+◌, ◌≤◌, ◌<◌, ◌≡◌, refl, sym, ap, ◌∙◌, inl, inr, Bool, true, false, List, [], ◌∷◌,
  Option, none, some, arith, if◌then◌else◌, Bool-cases, length, set, length-set, get_elem?-set_self,
}
use tapestry.Facts.Types.{max_elements}
use tapestry.Wire.Frames.{DirectiveFrame}
use tapestry.Wire.Layout.{FloatBits}
use tapestry.Gossip.Types.{Build, Gossip}
use tapestry.Gossip.Gate.{Gate, passed, StampsGrow, passed-StampsGrow}
use tapestry.Gossip.Directive.{
  flag_at, value_at, is_for, is_replay, accepts, note_seq, directive_in, poll_buf, poll_bufs,
  poll_directive,
}

-- The least sequence number that is not a replay.
abbrev pub next_seq : Bool → ℕ → ℕ
next_seq seen last = if seen then last + 1 else 0

abbrev pub next_at : List Bool → List ℕ → ℕ → ℕ
next_at seen last k = next_seq (flag_at seen k) (value_at last k)

next_at-set :
    (seen : List Bool) (last : List ℕ) (id seq k : ℕ)
    → next_at seen last id ≤ seq
    → length seen ≡ length last
    → next_at seen last k ≤ next_at (set seen id true) (set last id seq) k
next_at-set [] [] id seq k h n = omega arith
next_at-set [] (l ∷ ls) id seq k h n = absurd (omega arith)
next_at-set (s ∷ ss) [] id seq k h n = absurd (omega arith)
next_at-set (s ∷ ss) (l ∷ ls) zero seq zero h n = ground arith
next_at-set (s ∷ ss) (l ∷ ls) zero seq (suc k) h n = omega arith
next_at-set (s ∷ ss) (l ∷ ls) (suc id) seq zero h n = omega arith
next_at-set (s ∷ ss) (l ∷ ls) (suc id) seq (suc k) h n = next_at-set ss ls id seq k h (omega arith)

next_at-set_self :
    (seen : List Bool) (last : List ℕ) (id seq : ℕ)
    → id < length seen
    → id < length last
    → next_at (set seen id true) (set last id seq) id ≡ seq + 1
next_at-set_self seen last id seq h k =
    rw (flag_at, value_at, get_elem?-set_self seen id true h, get_elem?-set_self last id seq k) refl

module _ {F : Type 0} where
  pub is_new :
      (own_id : ℕ) (g : Gossip F) (d : DirectiveFrame F)
      → accepts own_id g d ≡ true
      → (d.src_id < max_elements) × (next_at g.dir_seq_seen g.dir_last_seq d.src_id ≤ d.seq)
  unfolding accepts is_for is_replay
  is_new own_id g d e = (ground arith, ground arith)

  -- A flag and a number for each element.
  abbrev pub HasSeqs : Gossip F → Type 0
  HasSeqs g = (length g.dir_seq_seen ≡ max_elements) × (length g.dir_last_seq ≡ max_elements)

  pub note_seq-HasSeqs : (g : Gossip F) (d : DirectiveFrame F) → HasSeqs g → HasSeqs (note_seq g d)
  note_seq-HasSeqs g d (n, m) =
      (length-set g.dir_seq_seen d.src_id true ∙ n, length-set g.dir_last_seq d.src_id d.seq ∙ m)

  abbrev pub mark : Gossip F → ℕ → ℕ
  mark g k = next_at g.dir_seq_seen g.dir_last_seq k

  -- What a frame, or none, does to the tables.
  abbrev pub poll_frame : ℕ → Gossip F → Option (DirectiveFrame F) → Gossip F
  poll_frame own_id g none = g
  poll_frame own_id g (some d) = if accepts own_id g d then note_seq g d else g

  abbrev pub may_pass : ℕ → Gossip F → Option (DirectiveFrame F) → Bool
  may_pass own_id g none = false
  may_pass own_id g (some d) = accepts own_id g d

  abbrev pub source_of : Option (DirectiveFrame F) → ℕ
  source_of none = 0
  source_of (some d) = d.src_id

  abbrev pub seq_of : Option (DirectiveFrame F) → ℕ
  seq_of none = 0
  seq_of (some d) = d.seq

  pub poll_frame-HasSeqs :
      (own_id : ℕ) (g : Gossip F) (o : Option (DirectiveFrame F))
      → HasSeqs g
      → HasSeqs (poll_frame own_id g o)
  poll_frame-HasSeqs own_id g none n = n
  poll_frame-HasSeqs own_id g (some d) n = elim (Bool-cases (accepts own_id g d)) [
    | inl e ↦ rw e (note_seq-HasSeqs g d n)
    | inr e ↦ rw e n
  ]

  pub may_pass_new :
      (own_id : ℕ) (g : Gossip F) (o : Option (DirectiveFrame F))
      → may_pass own_id g o ≡ true
      → mark g (source_of o) ≤ seq_of o
  may_pass_new own_id g none e = ground arith
  may_pass_new own_id g (some d) e = (is_new own_id g d e).1

  pub mark-poll_frame :
      (own_id : ℕ) (g : Gossip F) (o : Option (DirectiveFrame F)) (k : ℕ)
      → HasSeqs g
      → mark g k ≤ mark (poll_frame own_id g o) k
  mark-poll_frame own_id g none k n = omega arith
  mark-poll_frame own_id g (some d) k n = elim (Bool-cases (accepts own_id g d)) [
    | inl e ↦ rw e (
        next_at-set g.dir_seq_seen g.dir_last_seq d.src_id d.seq k (is_new own_id g d e).1
          (n.0 ∙ sym n.1))
    | inr e ↦ rw e (omega arith)
  ]

  pub mark_passed :
      (own_id : ℕ) (g : Gossip F) (o : Option (DirectiveFrame F))
      → HasSeqs g
      → may_pass own_id g o ≡ true
      → seq_of o < mark (poll_frame own_id g o) (source_of o)
  mark_passed own_id g none n e = ground arith
  mark_passed own_id g (some d) n e =
      let small = (is_new own_id g d e).0 in
      let at_src =
        next_at-set_self g.dir_seq_seen g.dir_last_seq d.src_id d.seq (omega (arith, n.0, small))
          (omega (arith, n.1, small)) in
      rw e (omega (arith, at_src))

module _ {F : Type 0} ⦃fb : FloatBits F⦄ where
  -- A received buffer's source is the sender of the frame in it, and its stamp the sequence number.
  abbrev pub replay_gate : Build → ℕ → Gate (Gossip F) (List ℕ)
  replay_gate b own_id = record {
    step = λ g buf. poll_frame own_id g (directive_in b buf);
    passes = λ g buf. may_pass own_id g (directive_in b buf);
    source = λ buf. source_of {F = F} (directive_in b buf);
    stamp = λ buf. seq_of {F = F} (directive_in b buf);
    mark = mark;
    IsSized = HasSeqs;
    step_sized = λ g buf n. poll_frame-HasSeqs own_id g (directive_in b buf) n;
    passes_new = λ g buf e. may_pass_new own_id g (directive_in b buf) e;
    mark_grows = λ g buf k n. mark-poll_frame own_id g (directive_in b buf) k n;
    mark_passed = λ g buf n e. mark_passed own_id g (directive_in b buf) n e;
  }

  -- The directive in the last of some buffers.
  abbrev pub latest : Build → Option (DirectiveFrame F) → List (List ℕ) → Option (DirectiveFrame F)
  latest b polled [] = polled
  latest b polled (buf ∷ bufs) = latest b (directive_in b buf) bufs

  poll_bufs-latest :
      (b : Build) (own_id : ℕ) (g : Gossip F) (polled : Option (DirectiveFrame F))
      (bufs : List (List ℕ))
      → (poll_bufs b own_id g polled bufs).1
        ≡ latest b polled (passed (replay_gate b own_id) g bufs)
  unfolding poll_bufs poll_buf passed
  poll_bufs-latest b own_id g polled [] = refl
  poll_bufs-latest b own_id g polled (buf ∷ bufs) =
      look (directive_in b buf) refl (λ g' o. poll_bufs-latest b own_id g' o bufs)
    where
      look :
          (o : Option (DirectiveFrame F))
          → directive_in b buf ≡ o
          → ((g' : Gossip F) (p : Option (DirectiveFrame F))
              → (poll_bufs b own_id g' p bufs).1
                ≡ latest b p (passed (replay_gate b own_id) g' bufs))
          → (poll_bufs b own_id g polled (buf ∷ bufs)).1
            ≡ latest b polled (passed (replay_gate b own_id) g (buf ∷ bufs))
      look none e rest = rw (poll_bufs, passed, poll_buf, e) (rest g polled)
      look (some d) e rest = elim (Bool-cases (accepts own_id g d)) [
        | inl a ↦
            rw (poll_bufs, passed, poll_buf, e, a)
              (rest (note_seq g d) (some d)
                ∙ ap (λ p. latest b p (passed (replay_gate b own_id) (note_seq g d) bufs)) (sym e))
        | inr a ↦ rw (poll_bufs, passed, poll_buf, e, a) (rest g polled)
      ]

  -- Whatever buffers a poll receives, it hands out the last directive of those that pass, if any
  -- passes, and among those that pass the sequence numbers of each sender grow strictly: no frame is
  -- accepted twice.  There is a flag and a number for each element.
  pub poll_directive_lem :
      (b : Build) (own_id : ℕ) (g : Gossip F) (bufs : List (List ℕ))
      → HasSeqs g
      → let accepted = passed (replay_gate b own_id) g bufs in
        ((poll_directive b own_id g bufs).1 ≡ latest b none accepted)
        × StampsGrow (replay_gate b own_id) accepted
  unfolding poll_directive
  poll_directive_lem b own_id g bufs n =
      (poll_bufs-latest b own_id g none bufs, passed-StampsGrow (replay_gate b own_id) g bufs n)
