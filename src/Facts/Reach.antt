-- ===== src/Facts/Reach.antt =====
-- facts.c: any sequence of operations, as a step relation from wm_facts_init().
use tapestry.Prelude.{ℕ, ◌<◌, ◌+◌, ◌^◌, Option}
use tapestry.Prelude.Floats.{FloatOps}
use tapestry.Facts.Types.{Config, Fact, FactKey, Facts, Position, facts_init}
use tapestry.Facts.Keys.{Absent}
use tapestry.Facts.Publish.{publish, retract, new_key, tick, set_epoch}
use tapestry.Facts.Merge.{receive}
use tapestry.Facts.Preservation.{WellFormed, receive-WellFormed}
use tapestry.Facts.Trickle.{trickle_tick}
use tapestry.Facts.Query.{pack, heard_digest}
use tapestry.Facts.Upkeep.{
  SameTable-WellFormed, trickle_tick-SameTable, pack-SameTable, heard_digest-WellFormed,
}
use tapestry.Facts.Local.{
  publish-WellFormed, retract-WellFormed, tick-WellFormed, facts_init-WellFormed,
}

module _ {F : Type 0} ⦃fl : FloatOps F⦄ where
  -- What the program may do to a fact table.
  pub data Step (cfg : Config) (t : Facts F) : Facts F → Type 0 where
    published :
        (owner type : ℕ) (pos : Option (Position F)) (attr flags : ℕ)
        → t.clock + 1 < 2 ^ 32
        → Absent (new_key t owner type) t.slots
        → Step cfg t (publish cfg t owner type pos attr flags).0
    retracted : (key : FactKey) → t.clock + 1 < 2 ^ 32 → Step cfg t (retract cfg t key).0
    received : (f : Fact F) → Step cfg t (receive cfg t f).0
    ticked : (ms : ℕ) → Step cfg t (tick cfg t ms)
    epoch_set : (epoch : ℕ) → Step cfg t (set_epoch t epoch)
    trickled : (dt rnd : ℕ) → Step cfg t (trickle_tick cfg t dt rnd).0
    heard : (d : ℕ) → Step cfg t (heard_digest cfg t d)
    packed : Step cfg t (pack t).0

  pub data Reach (cfg : Config) : Facts F → Type 0 where
    start : Reach cfg (facts_init cfg)
    next : {t t' : Facts F} → Reach cfg t → Step cfg t t' → Reach cfg t'

  Step-WellFormed :
      {cfg : Config} {t t' : Facts F}
      → 0 < cfg.max_per_origin
      → Step cfg t t'
      → WellFormed cfg t
      → WellFormed cfg t'
  unfolding set_epoch
  Step-WellFormed {cfg = cfg} {t = t} m (published owner type pos attr flags small a) ok =
      publish-WellFormed cfg t owner type pos attr flags m small a ok
  Step-WellFormed {cfg = cfg} {t = t} m (retracted key small) ok =
      retract-WellFormed cfg t key small ok
  Step-WellFormed {cfg = cfg} {t = t} m (received f) ok = receive-WellFormed cfg t f m ok
  Step-WellFormed {cfg = cfg} {t = t} m (ticked ms) ok = tick-WellFormed cfg t ms ok
  Step-WellFormed m (epoch_set epoch) ok = ok
  Step-WellFormed {cfg = cfg} {t = t} m (trickled dt rnd) ok =
      SameTable-WellFormed cfg t (trickle_tick cfg t dt rnd).0 (trickle_tick-SameTable cfg t dt rnd)
        ok
  Step-WellFormed {cfg = cfg} {t = t} m (heard d) ok = heard_digest-WellFormed cfg t d ok
  Step-WellFormed {cfg = cfg} {t = t} m packed ok =
      SameTable-WellFormed cfg t (pack t).0 (pack-SameTable t) ok

  -- Every table that the program reaches from wm_facts_init() by publishing, retracting, receiving any
  -- records and digests, ticking, sending and setting the epoch is well formed, if the clock does not wrap and a published fact's key is not
  -- yet in the table: the table has its size, no two held records have one key, what is held is valid
  -- and stamped no later than the clock, and no origin holds more than its share.
  pub Reach-WellFormed :
      {cfg : Config} {t : Facts F} → 0 < cfg.max_per_origin → Reach cfg t → WellFormed cfg t
  Reach-WellFormed {cfg = cfg} m start = facts_init-WellFormed cfg
  Reach-WellFormed m (next r s) = Step-WellFormed m s (Reach-WellFormed m r)
