-- ===== src/PoolMetrics.antt =====
-- database/pool_metrics.go: the gauges of the pool that a DB hands to OpenTelemetry, and the pool's statistics
-- of database/database.go. The meter is not code of the repository: its calls are events, and what they
-- return is an answer of the environment.
use hellnet_lib_database.Prelude.{
  ◌≡◌, refl, ◌⊎◌, inl, inr, String, Option, none, some, List, [], ◌∷◌, ◌++◌, ap, Option-cases,
}
use hellnet_lib_database.Prelude.Int.{ℤ}
use hellnet_lib_database.Errors.{Err}
use hellnet_lib_database.World.{
  Handle, Event, create_gauge, register_callback, observe_gauge, log_error, nil_meter, Trace, Reply,
  ok, err, Reply-cases, Env, World, Outcome, ret, push,
}
use hellnet_lib_database.World.Exec.{M, pure, throw, ◌>>=◌, ◌>>◌, emit, ask}
use hellnet_lib_database.Core.{Observability, unset, attached}
use hellnet_lib_database.Metrics.{PoolStats}

-- what pgxpool.Stat tells
pub record Stat : Type 0 where
  pub acquired_conns : ℤ
  pub idle_conns : ℤ
  pub max_conns : ℤ
  pub empty_acquire_wait_time : ℤ

-- Stat, of poolStatsAdapter
abbrev pub adapted_stat : Stat → PoolStats
adapted_stat s = record { in_use = s.acquired_conns; idle = s.idle_conns; max = s.max_conns }

abbrev pub count_gauge : String
count_gauge = "db.client.connection.count"

abbrev pub max_gauge : String
max_gauge = "db.client.connection.max"

abbrev pub wait_gauge : String
wait_gauge = "db.client.connection.wait_time"

-- the callback, with the time in nanoseconds
unfoldable pub observe_pool : Stat → M (Unit {0})
observe_pool stat = do
  emit (observe_gauge count_gauge "used" stat.acquired_conns)
  emit (observe_gauge count_gauge "idle" stat.idle_conns)
  emit (observe_gauge max_gauge "" stat.max_conns)
  emit (observe_gauge wait_gauge "" stat.empty_acquire_wait_time)

abbrev pub callback_call : Event
callback_call = register_callback (count_gauge ∷ max_gauge ∷ wait_gauge ∷ [])

abbrev pub pool_calls : List Event
pool_calls =
    create_gauge count_gauge ∷ create_gauge max_gauge ∷ create_gauge wait_gauge ∷ callback_call ∷ []

module _ (env : Env) where
  unfoldable pub gauge_created : M (Option Handle) → Option Err → M (Option Handle)
  gauge_created next none = next
  gauge_created next (some e) = emit (log_error "database pool metric creation failed") >> pure none

  unfoldable pub with_gauge : String → M (Option Handle) → M (Option Handle)
  unfolding gauge_created
  with_gauge name next = ask (λ w. env.failure w.trace) (create_gauge name) >>= gauge_created next

  unfoldable pub callback_registered : Reply Handle → M (Option Handle)
  callback_registered (ok registration) = pure (some registration)
  callback_registered (err e) =
      emit (log_error "database pool metric callback registration failed") >> pure none

  unfoldable pub with_callback : M (Option Handle)
  unfolding callback_registered
  with_callback = ask (λ w. env.handle w.trace) callback_call >>= callback_registered

  -- registerPoolMetrics
  unfoldable pub register_pool_metrics : Observability → M (Option Handle)
  unfolding with_gauge with_callback
  register_pool_metrics unset = throw nil_meter
  register_pool_metrics attached =
      with_gauge count_gauge (with_gauge max_gauge (with_gauge wait_gauge with_callback))

  -- the meter refused the call on top of `t`
  abbrev pub Refused : Trace → Type 0
  Refused [] = ⊥
  Refused (create_gauge name ∷ t) = (e : Err) × (env.failure (create_gauge name ∷ t) ≡ some e)
  Refused (register_callback names ∷ t) =
      (e : Err) × (env.handle (register_callback names ∷ t) ≡ err e)
  Refused (_ ∷ t) = ⊥

  -- the calls `es` on top of `t`
  abbrev pub called : List Event → Trace → Trace
  called [] t = t
  called (e ∷ es) t = called es (e ∷ t)

  -- Between `t` and `u` the calls `es` were made, and the last of them answered with the registration `m`; or
  -- they were made up to one that the meter refused, an error was logged, and there is none.
  abbrev pub Measured : List Event → Trace → Option Handle → Trace → Type 0
  Measured es t m u =
      ((h : Handle) × (m ≡ some h) × (u ≡ called es t) × (env.handle u ≡ ok h))
      ⊎ ((pre : List Event) × (post : List Event) × (message : String) × (es ≡ pre ++ post)
          × (m ≡ none)
          × (u ≡ log_error message ∷ called pre t)
          × Refused (called pre t))

  -- The call, begun in `w`, returned what was so measured.
  abbrev pub Registered : List Event → World → Outcome (Option Handle) × World → Type 0
  Registered es w r =
      (m : Option Handle) × (r.0 ≡ ret m)
      × (r.1.registry ≡ w.registry)
      × Measured es w.trace m r.1.trace

  with_callback-Registered : (w : World) → Registered (callback_call ∷ []) w (with_callback w)
  unfolding with_callback callback_registered
  with_callback-Registered w =
      let v = push callback_call w in
      elim (Reply-cases (env.handle v.trace)) [
        | inl (h, e) ↦ rw e (some h, refl, refl, inl (h, refl, refl, e))
        | inr (x, e) ↦
            rw e (none, refl, refl, inr (callback_call ∷ [], [], _, refl, refl, refl, (x, e)))
      ]

  with_gauge-Registered :
      (name : String) (es : List Event) (next : M (Option Handle))
      → ((w : World) → Registered es w (next w))
      → (w : World) → Registered (create_gauge name ∷ es) w (with_gauge name next w)
  unfolding with_gauge gauge_created
  with_gauge-Registered name es next h w =
      let v = push (create_gauge name) w in
      elim (Option-cases (env.failure v.trace)) [
        | inl e ↦ rw e (deeper (h v))
        | inr (x, e) ↦
            rw e (none, refl, refl, inr (create_gauge name ∷ [], es, _, refl, refl, refl, (x, e)))
      ]
    where
      deeper :
          {r : Outcome (Option Handle) × World}
          → Registered es (push (create_gauge name) w) r
          → Registered (create_gauge name ∷ es) w r
      deeper (m, q, g, inl s) = (m, q, g, inl s)
      deeper (m, q, g, inr (pre, post, message, e, r, t, x)) = (
        m,
        q,
        g,
        inr (create_gauge name ∷ pre, post, message, ap (◌∷◌ (create_gauge name)) e, r, t, x),
      )

  -- With its providers, a DB creates three gauges and then registers one callback for them, and keeps the
  -- registration that the meter answered; or the meter refused one of these calls, which was the last of
  -- them, an error was logged and there is no registration. It always returns.
  pub register_pool_metrics_lem :
      (w : World) → Registered pool_calls w (register_pool_metrics attached w)
  unfolding register_pool_metrics
  register_pool_metrics_lem =
      with_gauge-Registered count_gauge _
        (with_gauge max_gauge (with_gauge wait_gauge with_callback))
        (with_gauge-Registered max_gauge _ (with_gauge wait_gauge with_callback)
          (with_gauge-Registered wait_gauge _ with_callback with_callback-Registered))
