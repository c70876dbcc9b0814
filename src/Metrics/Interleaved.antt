-- ===== src/Metrics/Interleaved.antt =====
-- Calls of EnableMetrics by several goroutines, taken apart behind their check of `db.hooks.observed()`: another call
-- may run between the check and the rest.
use hellnet_lib_database.Prelude.{ℕ, Bool, true, false, Option, List, [], ◌∷◌}
use hellnet_lib_database.World.{Handle, Trace, Reply, Env, World, Outcome}
use hellnet_lib_database.Metrics.{PoolStats, MetricsHandle, enable_checked}

-- where a call stands: not begun, past its check, with what that found, or at its end
pub data Stage : Type 0 where
  called : Stage
  looked : Option ℕ → Stage
  returned : Outcome (Reply MetricsHandle) → Stage

-- a call with its registerer, if any, and the pointer of the collector that it allocates
pub record Call : Type 0 where
  pub reg : Option ℕ
  pub mc : ℕ
  pub stage : Stage

abbrev pub new_call : Option ℕ → ℕ → Call
new_call reg m = record { reg = reg; mc = m; stage = called }

module _ (env : Env) (stat : Trace → PoolStats) (default_registerer p : ℕ) (pool : Handle) where
  -- the next step of a call on the DB with the registry `p`
  unfoldable pub enable_step : Call → Stage → World → Call × World
  enable_step c called w = (record c { stage = looked (w.registry p).met }, w)
  enable_step c (looked seen) w =
      let r = enable_checked env stat default_registerer p pool c.reg c.mc seen w in
      (record c { stage = returned r.0 }, r.1)
  enable_step c (returned r) w = (c, w)

  -- two calls under a schedule that says whose step is next, `true` for the first
  unfoldable pub run_calls : List Bool → Call → Call → World → (Call × Call) × World
  unfolding enable_step
  run_calls [] a b w = ((a, b), w)
  run_calls (true ∷ s) a b w = let (a', v) = enable_step a a.stage w in run_calls s a' b v
  run_calls (false ∷ s) a b w = let (b', v) = enable_step b b.stage w in run_calls s a b' v
