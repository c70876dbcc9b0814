-- ===== src/Metrics.antt =====
-- database/metrics.go: a collector, its registration with a Prometheus registerer, its observations, and
-- its life in a DB. A collector is named by its pointer `m`, a registerer by `reg`.
pub mod Registration
pub mod Interleaved
pub mod Lifetime
pub mod Described
pub mod Shared
use hellnet_lib_database.Prelude.{
  ℕ, zero, suc, Bool, true, false, ◌||◌, String, Option, none, some, List, [], ◌∷◌, ◌++◌, ◌==◌,
  if◌then◌else◌,
}
use hellnet_lib_database.Prelude.Int.{ℤ}
use hellnet_lib_database.Errors.{Err, errorf, wrapf, is, canceled, deadline_exceeded}
use hellnet_lib_database.World.{
  Handle, Op, QueryInfo, Metric, queries_total, query_duration, pool_acquire_total, tx_total,
  rollback_compensations, pool_in_use, pool_idle, pool_max, collector, register_metric,
  unregister_metric, inc_query, observe_duration, pool_stat, set_gauge, start_sampler, stop_sampler,
  tick, Trace, Reply, ok, err, Env, Registry, World, Outcome, ret, no_fuel,
}
use hellnet_lib_database.World.Exec.{M, pure, ◌>>=◌, ◌>>◌, emit, ask}
use hellnet_lib_database.Hooks.{add, remove, set_observed}

-- statusLabel
unfoldable pub status_label : Option Err → String
status_label none = "ok"
status_label (some e) = if is e canceled || is e deadline_exceeded then "canceled" else "error"

-- PoolStats
pub record PoolStats : Type 0 where
  pub in_use : ℤ
  pub idle : ℤ
  pub max : ℤ

-- Collect
abbrev pub collect : List Metric
collect =
    queries_total ∷ query_duration ∷ pool_acquire_total ∷ tx_total ∷ rollback_compensations
    ∷ pool_in_use ∷ pool_idle ∷ pool_max ∷ []

-- AfterHook, of a collector that is not nil
unfoldable pub after_hook_of : ℕ → QueryInfo → M (Unit {0})
unfolding status_label
after_hook_of m info = do
  emit (inc_query m info.op (status_label info.err))
  emit (observe_duration m info.op info.duration)

-- samplePool
unfoldable pub sample_pool : ℕ → PoolStats → M (Unit {0})
sample_pool m s = do
  emit (set_gauge m pool_in_use s.in_use)
  emit (set_gauge m pool_idle s.idle)
  emit (set_gauge m pool_max s.max)

-- the registry that a DB's connection points to, after a method of it
abbrev pub update_registry : ℕ → (Registry → Registry) → M (Unit {0})
update_registry p f w =
    (ret tt, record w { registry = λ q. if q == p then f (w.registry p) else w.registry q })

unfoldable pub unregister_each : ℕ → ℕ → List Metric → M (Unit {0})
unregister_each reg m [] = pure tt
unregister_each reg m (c ∷ cs) =
    let rest = unregister_each reg m cs in emit (unregister_metric reg m c) >> rest

-- unregister
unfoldable pub unregister : ℕ → ℕ → M (Unit {0})
unfolding unregister_each
unregister reg m = unregister_each reg m collect

module _ (env : Env) (reg m : ℕ) where
  -- Register answered, when `registered` had been registered before it
  unfoldable pub register_answered : List Metric → M (Option Err) → Option Err → M (Option Err)
  unfolding unregister_each
  register_answered registered next none = next
  register_answered registered next (some e) = do
    unregister_each reg m registered
    pure (some (wrapf "database: registering metrics: %w" [] e))

  unfoldable pub register_each : List Metric → List Metric → M (Option Err)
  unfolding register_answered
  register_each registered [] = pure none
  register_each registered (c ∷ cs) =
      let next = register_each (registered ++ c ∷ []) cs in
      ask (λ w. env.failure w.trace) (register_metric reg m c) >>= register_answered registered next

  -- register
  unfoldable pub register : M (Option Err)
  unfolding register_each
  register = register_each [] collect

-- MetricsHandle, which is `spent` when its `once` has run
pub record MetricsHandle : Type 0 where
  pub mc : ℕ
  pub target : ℕ
  pub hooks : ℕ
  pub spent : Bool

module _ (env : Env) (stat : Trace → PoolStats) (default_registerer : ℕ) where
  -- pollLoop, where `done` says when a select finds the handle's context done
  unfoldable pub poll_loop : (Trace → Bool) → ℕ → ℕ → Handle → M (Unit {0})
  unfolding sample_pool
  poll_loop done zero m pool w = (no_fuel, w)
  poll_loop done (suc fuel) m pool w =
      let next = poll_loop done fuel m pool in
      if done w.trace
      then (ret tt, w)
      else (emit (tick m)
            >> (ask (λ v. stat v.trace) (pool_stat pool) >>= λ s. sample_pool m s >> next))
          w

  abbrev pub target_of : Option ℕ → ℕ
  target_of none = default_registerer
  target_of (some reg) = reg

  -- the attachment of a registered collector to the registry `p`, with its first sample
  unfoldable pub attach : ℕ → Handle → ℕ → ℕ → M (Reply MetricsHandle)
  unfolding add sample_pool
  attach p pool reg m = do
    update_registry p (λ r. add r (collector m))
    update_registry p (λ r. set_observed r (some m))
    s ← ask (λ w. stat w.trace) (pool_stat pool)
    sample_pool m s
    emit (start_sampler m)
    pure (ok (record { mc = m; target = reg; hooks = p; spent = false }))

  unfoldable pub registered : ℕ → Handle → ℕ → ℕ → Option Err → M (Reply MetricsHandle)
  unfolding attach
  registered p pool reg m none = attach p pool reg m
  registered p pool reg m (some e) = pure (err e)

  unfoldable pub enable_checked : ℕ → Handle → Option ℕ → ℕ → Option ℕ → M (Reply MetricsHandle)
  unfolding register registered
  enable_checked p pool reg m (some other) =
      pure (err (errorf "database: metrics already enabled for this DB" []))
  enable_checked p pool reg m none =
      register env (target_of reg) m >>= registered p pool (target_of reg) m

  -- EnableMetrics, with the pointer of the collector that it allocates
  unfoldable pub enable_metrics : ℕ → Handle → Option ℕ → ℕ → M (Reply MetricsHandle)
  unfolding enable_checked
  enable_metrics p pool reg m w = enable_checked p pool reg m (w.registry p).met w

-- Close, of a handle that is not nil
unfoldable pub close_once : MetricsHandle → Bool → M MetricsHandle
unfolding remove unregister
close_once h true = pure h
close_once h false = do
  emit (stop_sampler h.mc)
  update_registry h.hooks (λ r. remove r h.mc)
  update_registry h.hooks (λ r. set_observed r none)
  unregister h.target h.mc
  pure (record h { spent = true })

unfoldable pub close_metrics : MetricsHandle → M MetricsHandle
unfolding close_once
close_metrics h = close_once h h.spent
