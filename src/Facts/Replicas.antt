-- ===== src/Facts/Replicas.antt =====
-- wm_fact_receive() for keys that are held: what the table answers afterwards, and that replicas
-- converge.
use mathlib.Core.Option
use tapestry.Prelude.{
  ℕ, ◌<◌, ◌≡◌, refl, sym, ◌∙◌, ap, ◌≢◌, Bool, true, false, ◌||◌, List, [], ◌∷◌, Option, none, some,
  arith, leb, ◌==◌, if◌then◌else◌, All, All-get, get_elem?, set, get_elem?-set_self, lt-length,
}
use tapestry.Prelude.Floats.{FloatOps}
use tapestry.Facts.Types.{Config, Fact, FactKey, FactSlot, Facts, type_none, max_elements}
use tapestry.Facts.Table.{find_slot}
use tapestry.Facts.Keys.{Found, find_slot-Found, find_slot_at, Distinct}
use tapestry.Facts.Invariant.{IsValid, Holds}
use tapestry.Facts.Trickle.{trickle_reset}
use tapestry.Facts.Merge.{merge_held, apply_outcome, lamport, merge_present, merge_record, receive}
use tapestry.Facts.Query.{get}
use tapestry.Facts.Preservation.{WellFormed, receive-WellFormed}
use tapestry.Facts.Convergence.{merged, In, AllAgree, deliver, deliver_converges}

module _ {F : Type 0} where
  -- A lookup that answers comes from a used slot with the key.
  pub get-some :
      (t : Facts F) (key : FactKey) (h : Fact F)
      → get t key ≡ some h
      → (i : ℕ) × (s : FactSlot F) × (find_slot t.slots key ≡ some (i, s))
        × (get_elem? t.slots i ≡ some s)
        × (s.used ≡ true)
        × (s.fact ≡ h)
        × (h.key ≡ key)
  unfolding get
  get-some t key h e = seek (find_slot t.slots key) (find_slot-Found t.slots key) e
    where
      seek :
          (r : Option (ℕ × FactSlot F))
          → Found key t.slots r
          → Option.map (λ (p : ℕ × FactSlot F). p.1.fact) r ≡ some h
          → (i : ℕ) × (s : FactSlot F) × (r ≡ some (i, s))
            × (get_elem? t.slots i ≡ some s)
            × (s.used ≡ true)
            × (s.fact ≡ h)
            × (h.key ≡ key)
      seek none f e = ground arith
      seek (some (i, s)) (g, k) e =
          let p : s.fact ≡ h = ground arith in
          (i, s, refl, g, ground arith, p, rw (← p) (ground arith))

  pub get_at :
      (t : Facts F) (i : ℕ) (s : FactSlot F)
      → get_elem? t.slots i ≡ some s
      → s.used ≡ true
      → Distinct t.slots
      → get t s.fact.key ≡ some s.fact
  unfolding get
  get_at t i s g u d = rw (find_slot_at t.slots i s g u d)

  outcome-merged :
      (s : FactSlot F) (f : Fact F)
      → (apply_outcome (merge_held s.fact f) s f).fact ≡ merged s.fact f
  unfolding apply_outcome merged
  outcome-merged s f = ground arith

  pub slots-trickle_reset : (cfg : Config) (t : Facts F) → (trickle_reset cfg t).slots ≡ t.slots
  unfolding trickle_reset
  slots-trickle_reset cfg t = ground arith

  outcome-held :
      (s : FactSlot F) (f : Fact F)
      → s.used ≡ true
      → s.fact.key ≡ f.key
      → let v = apply_outcome (merge_held s.fact f) s f in (v.used ≡ true) × (v.fact.key ≡ f.key)
  unfolding apply_outcome merge_held
  outcome-held s f u k = ground arith

module _ {F : Type 0} ⦃fl : FloatOps F⦄ where
  slots-receive :
      (cfg : Config) (t : Facts F) (f : Fact F)
      → (receive cfg t f).0.slots ≡ (merge_record cfg t f).0.slots
  unfolding receive
  slots-receive cfg t f = go (merge_record cfg t f)
    where
      go :
          (r : Facts F × Bool)
          → let (t', changed) = r in
            let out : Facts F × Bool =
              if changed then (trickle_reset cfg t', true) else (t', false) in
            out.0.slots ≡ t'.slots
      go (t', true) = slots-trickle_reset cfg t'
      go (t', false) = refl

  merge_record_held :
      (cfg : Config) (t : Facts F) (f : Fact F) (i : ℕ) (s : FactSlot F)
      → f.key.type ≢ type_none
      → f.key.origin < max_elements
      → find_slot t.slots f.key ≡ some (i, s)
      → merge_record cfg t f ≡ merge_present (lamport t f) i s f
  unfolding merge_record
  merge_record_held cfg t f i s ty og e =
      let guard : (f.key.type == type_none || leb max_elements f.key.origin) ≡ false =
        ground arith in
      rw (guard, e)

  -- After a version of a held fact is received, the table answers its key with the version that the
  -- merge rules choose.
  pub get-receive_held :
      (cfg : Config) (t : Facts F) (f h : Fact F)
      → 0 < cfg.max_per_origin
      → WellFormed cfg t
      → get t f.key ≡ some h
      → get (receive cfg t f).0 f.key ≡ some (merged h f)
  unfolding merge_present
  get-receive_held cfg t f h pos ok e =
      let (i, s, found, g, u, sh, hk) = get-some t f.key h e in
      let old : IsValid t.clock s.fact = All-get (Holds t.clock) t.slots i s ok.valid g u in
      let k : s.fact.key ≡ f.key = ground arith in
      let v = apply_outcome (merge_held s.fact f) s f in
      let t' = (receive cfg t f).0 in
      let p : t'.slots ≡ set t.slots i v =
        slots-receive cfg t f
        ∙ ap (λ (r : Facts F × Bool). r.0.slots)
            (merge_record_held cfg t f i s (rw (← k) old.typed) (rw (← k) old.origin_in) found) in
      let (vu, vk) = outcome-held s f u k in
      let g' : get_elem? t'.slots i ≡ some v =
        rw p (get_elem?-set_self t.slots i v (lt-length t.slots i s g)) in
      let w = get_at t' i v g' vu (receive-WellFormed cfg t f pos ok).distinct in
      ap (get t') (sym vk) ∙ w ∙ ap some (outcome-merged s f ∙ ap (λ x. merged x f) sh)

  -- A replica that receives records one after another.
  unfoldable pub receive_all : Config → Facts F → List (Fact F) → Facts F
  receive_all cfg t [] = t
  receive_all cfg t (f ∷ fs) = receive_all cfg (receive cfg t f).0 fs

  pub receive_all-WellFormed :
      (cfg : Config) (t : Facts F) (fs : List (Fact F))
      → 0 < cfg.max_per_origin
      → WellFormed cfg t
      → WellFormed cfg (receive_all cfg t fs)
  unfolding receive_all
  receive_all-WellFormed cfg t [] pos ok = ok
  receive_all-WellFormed cfg t (f ∷ fs) pos ok =
      receive_all-WellFormed cfg (receive cfg t f).0 fs pos (receive-WellFormed cfg t f pos ok)

  pub get-receive_all :
      (cfg : Config) (t : Facts F) (key : FactKey) (h : Fact F) (fs : List (Fact F))
      → 0 < cfg.max_per_origin
      → WellFormed cfg t
      → get t key ≡ some h
      → All (λ f. f.key ≡ key) fs
      → get (receive_all cfg t fs) key ≡ some (deliver h fs)
  unfolding receive_all deliver
  get-receive_all cfg t key h [] pos ok e k = e
  get-receive_all cfg t key h (f ∷ fs) pos ok e k =
      get-receive_all cfg (receive cfg t f).0 key (merged h f) fs pos
        (receive-WellFormed cfg t f pos ok)
        (ap (get (receive cfg t f).0) (sym k.0)
          ∙ get-receive_held cfg t f h pos ok (ap (get t) k.0 ∙ e))
        k.1

  -- Convergence.  Two well-formed tables hold versions h and g of one fact, and receive the lists fs
  -- and gs of versions of it.  If the versions in h, fs are those in g, gs, in whatever order and
  -- with whatever repetitions, and they agree (one immutability; one record to a stamp among the
  -- live ones, and among the retracted ones), both tables answer the key with the same record.
  pub receive_converges :
      (cfg cfg' : Config) (t u : Facts F) (key : FactKey) (h g : Fact F) (fs gs : List (Fact F))
      → 0 < cfg.max_per_origin
      → 0 < cfg'.max_per_origin
      → WellFormed cfg t
      → WellFormed cfg' u
      → get t key ≡ some h
      → get u key ≡ some g
      → All (λ f. f.key ≡ key) fs
      → All (λ f. f.key ≡ key) gs
      → AllAgree (h ∷ fs)
      → ((x : Fact F) → In x (h ∷ fs) → In x (g ∷ gs))
      → ((x : Fact F) → In x (g ∷ gs) → In x (h ∷ fs))
      → get (receive_all cfg t fs) key ≡ get (receive_all cfg' u gs) key
  receive_converges cfg cfg' t u key h g fs gs pos pos' ok ok' e e' k k' agree to from =
      get-receive_all cfg t key h fs pos ok e k
      ∙ ap some (deliver_converges h g fs gs agree to from)
      ∙ sym (get-receive_all cfg' u key g gs pos' ok' e' k')
