-- ===== src/WorldModel/Reach.antt =====
-- world_model.c: any sequence of operations, as a step relation from wm_init().
use tapestry.Prelude.{ℕ, ◌≡◌, List}
use tapestry.Prelude.Floats.{FloatOps}
use tapestry.Facts.Types.{Config}
use tapestry.WorldModel.Types.{ElementState, Entry, WorldModel}
use tapestry.WorldModel.Ops.{update_self, receive_gossip}
use tapestry.WorldModel.Cycle.{wm_init, wm_tick, reconcile}
use tapestry.WorldModel.Invariant.{IsModel, receive_gossip-IsModel}
use tapestry.WorldModel.Kept.{update_self-IsModel, wm_tick-IsModel, reconcile-IsModel}
use tapestry.WorldModel.Init.{wm_init-IsModel}

module _ {F : Type 0} ⦃fl : FloatOps F⦄ where
  -- What the program may do to a world model.
  pub data Step (cfg : Config) (wm : WorldModel F) : WorldModel F → Type 0 where
    received : (s : ElementState F) → Step cfg wm (receive_gossip wm s).0
    updated : (own : ElementState F) → own.id ≡ wm.owner_id → Step cfg wm (update_self wm own).0
    ticked : (ms : ℕ) → Step cfg wm (wm_tick cfg wm ms)
    reconciled : (es : List (Entry F)) → Step cfg wm (reconcile wm es)

  pub data Reach (cfg : Config) : WorldModel F → Type 0 where
    start :
        (owner : ℕ) (own : ElementState F) (bias : F)
        → own.id ≡ owner
        → Reach cfg (wm_init cfg owner own bias)
    next : {wm wm' : WorldModel F} → Reach cfg wm → Step cfg wm wm' → Reach cfg wm'

  Step-IsModel : {cfg : Config} {wm wm' : WorldModel F} → Step cfg wm wm' → IsModel wm → IsModel wm'
  Step-IsModel {wm = wm} (received s) m = receive_gossip-IsModel wm s m
  Step-IsModel {wm = wm} (updated own h) m = update_self-IsModel wm own h m
  Step-IsModel {cfg = cfg} {wm = wm} (ticked ms) m = wm_tick-IsModel cfg wm ms m
  Step-IsModel {wm = wm} (reconciled es) m = reconcile-IsModel wm es m

  -- Every world model that the program reaches is well formed: from wm_init() with the own state
  -- under the own id, valid or not, by any sequence of gossip received, updates of the own state
  -- under its id, ticks, and reconciliations with any entries.  The table has an entry for each
  -- element, each entry is blank or of its place's element, the own one alone is marked as such, and
  -- the count of known elements is right.
  pub Reach-IsModel : {cfg : Config} {wm : WorldModel F} → Reach cfg wm → IsModel wm
  Reach-IsModel {cfg = cfg} (start owner own bias h) = wm_init-IsModel cfg owner own bias h
  Reach-IsModel (next r s) = Step-IsModel s (Reach-IsModel r)
