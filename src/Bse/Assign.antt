-- ===== src/Bse/Assign.antt =====
-- bse.c: form_assign_slot(), which gives each participant a slot (shortest augmenting paths).
use tapestry.Prelude.{
  ℕ, zero, suc, ◌+◌, ◌-◌, Bool, true, false, List, Option, none, some, ◌==◌, if◌then◌else◌,
  get_elem?, set, replicate,
}
use tapestry.Prelude.Floats.{FloatOps}
use tapestry.Facts.Types.{Position}
use tapestry.Bse.Types.{TrigOps, zero_f, distance3}

-- An array's place, which is in range wherever the code reads it; the first argument stands for what
-- is not there.
abbrev pub or_else : {A : Type 0} → A → Option A → A
or_else a none = a
or_else a (some b) = b

abbrev pub at : {A : Type 0} → A → List A → ℕ → A
at a xs i = or_else a (get_elem? xs i)

-- The arrays of the function, with the places 0 to n.
pub record Matching (F : Type 0) : Type 0 where
  pub u : List F
  pub v : List F
  pub minv : List F
  pub p : List ℕ
  pub way : List ℕ
  pub used : List Bool

-- What the scan for the least reduced cost has found.
pub record Scan (F : Type 0) : Type 0 where
  pub matching : Matching F
  pub delta : F
  pub j1 : ℕ

-- `j0 = way[j0]` until j0 is 0: the path is turned over.
unfoldable pub augment : List ℕ → ℕ → List ℕ → ℕ → List ℕ
augment way zero p j0 = p
augment way (suc fuel) p j0 =
    let j1 = at 0 way j0 in
    let p' = set p j0 (at 0 p j1) in
    let rest = augment way fuel p' j1 in if j1 == 0 then p' else rest

-- The last loop, from `j` on; the last case is the fall-back.
unfoldable pub slot_of : List ℕ → ℕ → ℕ → ℕ → ℕ
slot_of p who zero j = who
slot_of p who (suc more) j =
    let rest = slot_of p who more (j + 1) in if at 0 p j == who + 1 then j - 1 else rest

module _ {F : Type 0} ⦃fl : FloatOps F⦄ where
  abbrev nowhere : Position F
  nowhere = record { x = zero_f; y = zero_f; z = zero_f }

module _ {F : Type 0} ⦃fl : FloatOps F⦄ (trig : TrigOps F)
    (positions slots : List (Position F)) where
  -- `cur`, of row i0 and column j.
  unfoldable pub reduced_cost : Matching F → ℕ → ℕ → F
  reduced_cost m i0 j =
      fl.sub
        (fl.sub (distance3 (at nowhere positions (i0 - 1)) (at nowhere slots (j - 1)))
          (at zero_f m.u i0))
        (at zero_f m.v j)

  -- `cur < minv[j]`
  abbrev pub relax : Matching F → ℕ → ℕ → F → Matching F
  relax m j0 j cur =
      if fl.lt cur (at zero_f m.minv j)
      then record m { minv = set m.minv j cur; way = set m.way j j0 }
      else m

  -- `minv[j] < delta`
  abbrev pub note_least : Scan F → ℕ → Scan F
  note_least s j =
      let least = at zero_f s.matching.minv j in
      if fl.lt least s.delta then record s { delta = least; j1 = j } else s

  -- The loop over j, from `j` on.
  unfoldable pub scan : ℕ → ℕ → ℕ → ℕ → Scan F → Scan F
  scan i0 j0 zero j s = s
  scan i0 j0 (suc more) j s = scan i0 j0 more (j + 1) (
      if at false s.matching.used j
      then s
      else note_least (record s { matching = relax s.matching j0 j (reduced_cost s.matching i0 j) })
          j)

  -- The loop that takes `delta` into the potentials, from `j` on.
  unfoldable pub reprice : F → ℕ → ℕ → Matching F → Matching F
  reprice delta zero j m = m
  reprice delta (suc more) j m = reprice delta more (j + 1) (
      if at false m.used j
      then (let i = at 0 m.p j in
          record m {
            u = set m.u i (fl.add (at zero_f m.u i) delta);
            v = set m.v j (fl.sub (at zero_f m.v j) delta);
          })
      else record m { minv = set m.minv j (fl.sub (at zero_f m.minv j) delta) })

  -- One pass of the first `do` loop, with the column it goes to.
  unfoldable pub visit : ℕ → Matching F → ℕ → Matching F × ℕ
  visit n m j0 =
      let m' = record m { used = set m.used j0 true } in
      let s =
        scan (at 0 m'.p j0) j0 n 1 (record { matching = m'; delta = trig.infinity; j1 = 0 }) in
      (reprice s.delta (n + 1) 0 s.matching, s.j1)

  -- `while (p[j0] != 0)`: each pass uses up one more column, so n + 1 passes are enough.
  unfoldable pub search_path : ℕ → ℕ → Matching F → ℕ → Matching F × ℕ
  search_path n zero m j0 = (m, j0)
  search_path n (suc fuel) m j0 =
      let (m', j) = visit n m j0 in
      let rest = search_path n fuel m' j in if at 0 m'.p j == 0 then (m', j) else rest

  -- The body of the loop over the participants, for the participant i.
  unfoldable pub add_participant : ℕ → ℕ → Matching F → Matching F
  add_participant n i m =
      let (m', j0) =
        search_path n (n + 1)
          (record m {
            p = set m.p 0 i;
            minv = replicate (n + 1) trig.infinity;
            used = replicate (n + 1) false;
          })
          0 in
      record m' { p = augment m'.way (n + 1) m'.p j0 }

  unfoldable pub add_participants : ℕ → ℕ → ℕ → Matching F → Matching F
  add_participants n zero i m = m
  add_participants n (suc more) i m = add_participants n more (i + 1) (add_participant n i m)

  -- The arrays after the loop over the participants.
  unfoldable pub match_slots : ℕ → Matching F
  match_slots n = add_participants n n 1 (record {
    u = replicate (n + 1) zero_f;
    v = replicate (n + 1) zero_f;
    minv = replicate (n + 1) zero_f;
    p = replicate (n + 1) 0;
    way = replicate (n + 1) 0;
    used = replicate (n + 1) false;
  })

  -- form_assign_slot()
  unfoldable pub form_assign_slot : ℕ → ℕ → ℕ
  form_assign_slot n who = slot_of (match_slots n).p who n 1
