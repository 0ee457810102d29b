-- ===== src/Worker/Runs.antt =====
-- The runs of the agent that a pass makes.
use magent.Prelude.{◌≡◌, refl, ◌∙◌, ◌⊎◌, inr, Bool, none, List, [], ◌∷◌, arith, Text}
use magent.Prelude.Exec.{Result, return}
use magent.Worker.{Envelope, Env, Worker}
use magent.Worker.Retry.{run_and_stream_with_retry}
use magent.Worker.Claims.{already_processed, mark_processed, acquire_lock, release_lock}

-- What a run can see or change is the same: only the claims may differ.
pub record SameRun {W : Type 0} (w w' : Worker W) : Type 0 where
  pub agent_name : w'.agent_name ≡ w.agent_name
  pub world : w'.world ≡ w.world
  pub metrics : w'.metrics ≡ w.metrics

-- `served` is some of the envelopes, in their order.
abbrev pub Picked : (served : List Envelope) → List (Result Envelope) → Type 0
Picked [] results = Unit
Picked (e ∷ served) [] = ⊥
Picked (e ∷ served) (r ∷ results) =
    ((r ≡ return e) × Picked served results) ⊎ Picked (e ∷ served) results

-- From `w` to `w'` the agent ran on each envelope once and in order, each run returned, and nothing
-- but these runs changed the world or the metrics.
abbrev pub Runs : {W : Type 0} → Env W → (served : List Envelope) → Worker W → Worker W → Type 0
Runs env [] w w' = SameRun w w'
Runs {W} env (e ∷ served) w w' =
    (u : Worker W) × (done : Bool) × (v : Worker W) × SameRun w u
    × (run_and_stream_with_retry env e u ≡ (return done, v))
    × Runs env served v w'

pub Picked-skip :
    (served : List Envelope) (r : Result Envelope) (results : List (Result Envelope))
    → Picked served results
    → Picked served (r ∷ results)
Picked-skip [] r results h = tt
Picked-skip (e ∷ served) r results h = inr h

module _ {W : Type 0} where
  pub SameRun-refl : (w : Worker W) → SameRun w w
  SameRun-refl w = record { agent_name = refl; world = refl; metrics = refl }

  pub SameRun-trans : {u v w : Worker W} → SameRun u v → SameRun v w → SameRun u w
  SameRun-trans a b = record {
    agent_name = b.agent_name ∙ a.agent_name;
    world = b.world ∙ a.world;
    metrics = b.metrics ∙ a.metrics;
  }

module _ {W : Type 0} (env : Env W) where
  pub Runs-from :
      (served : List Envelope) (w u w' : Worker W)
      → SameRun w u
      → Runs env served u w'
      → Runs env served w w'
  Runs-from [] w u w' same runs = SameRun-trans same runs
  Runs-from (e ∷ served) w u w' same (x, done, v, begins, run, rest) =
      (x, done, v, SameRun-trans same begins, run, rest)

  pub Runs-to :
      (served : List Envelope) (w v w' : Worker W)
      → Runs env served w v
      → SameRun v w'
      → Runs env served w w'
  Runs-to [] w v w' runs same = SameRun-trans runs same
  Runs-to (e ∷ served) w v w' (x, done, y, begins, run, rest) same =
      (x, done, y, begins, run, Runs-to served y v w' rest same)

  module _ (in_memory : env.client ≡ none) where
    pub seen-SameRun :
        (cid id : Text) (w : Worker W) → SameRun w (already_processed env.client cid id w).1
    unfolding already_processed
    seen-SameRun cid id w = rw in_memory (ground arith)

    pub lock-SameRun : (cid : Text) (w : Worker W) → SameRun w (acquire_lock env.client cid w).1
    unfolding acquire_lock
    lock-SameRun cid w = rw in_memory (ground arith)

    pub claims-SameRun :
        (cid id : Text) (w : Worker W)
        → SameRun w (release_lock env.client cid (mark_processed env.client cid id w))
    unfolding release_lock mark_processed
    claims-SameRun cid id w = rw in_memory (ground arith)
