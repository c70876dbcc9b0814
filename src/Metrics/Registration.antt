-- ===== src/Metrics/Registration.antt =====
-- Registering the collectors of a MetricsCollector, all of them or none.
use hellnet_lib_database.Prelude.{
  ℕ, ◌≡◌, refl, ap, ◌⊎◌, inl, inr, Option, none, some, List, [], ◌∷◌, ◌++◌, Option-cases,
}
use hellnet_lib_database.Errors.{Err, wrapf}
use hellnet_lib_database.World.{
  queries_total, query_duration, pool_acquire_total, tx_total, rollback_compensations, pool_in_use,
  pool_idle, pool_max, Metric, Event, register_metric, unregister_metric, Trace, Env, World,
  Outcome, ret, push,
}
use hellnet_lib_database.Metrics.{
  collect, unregister_each, register_answered, register_each, register,
}

-- the metrics of a collector
abbrev pub eight_metrics : List Metric
eight_metrics =
    queries_total ∷ query_duration ∷ pool_acquire_total ∷ tx_total ∷ rollback_compensations
    ∷ pool_in_use ∷ pool_idle ∷ pool_max ∷ []

-- one event for each collector, in their order
abbrev pub log : (Metric → Event) → List Metric → Trace → Trace
log f [] t = t
log f (c ∷ cs) t = log f cs (f c ∷ t)

abbrev pub log_in : (Metric → Event) → List Metric → World → World
log_in f cs w = record w { trace = log f cs w.trace }

pub unregister_each-log :
    (reg m : ℕ) (cs : List Metric) (w : World)
    → unregister_each reg m cs w ≡ (ret tt, log_in (unregister_metric reg m) cs w)
unfolding unregister_each
unregister_each-log reg m [] w = refl
unregister_each-log reg m (c ∷ cs) w =
    unregister_each-log reg m cs (push (unregister_metric reg m c) w)

module _ (env : Env) (reg m : ℕ) where
  -- the world in which `c` was registered, behind the collectors `pre`
  abbrev pub tried : List Metric → Metric → World → World
  tried pre c w = push (register_metric reg m c) (log_in (register_metric reg m) pre w)

  -- `cs` were all registered, or one of them failed and everything registered was unregistered.
  abbrev pub AllOrNone : List Metric → List Metric → World → Outcome (Option Err) × World → Type 0
  AllOrNone done cs w r =
      (r ≡ (ret none, log_in (register_metric reg m) cs w))
      ⊎ ((pre : List Metric) × (c : Metric) × (post : List Metric) × (e : Err) × (cs
            ≡ pre ++ c ∷ post)
          × (env.failure (tried pre c w).trace ≡ some e)
          × (r ≡ (
            ret (some (wrapf "database: registering metrics: %w" [] e)),
            log_in (unregister_metric reg m) (done ++ pre) (tried pre c w),
          )))

  append_nil : (xs : List Metric) → xs ++ [] ≡ xs
  append_nil [] = refl
  append_nil (x ∷ xs) = ap (λ l. x ∷ l) (append_nil xs)

  append_one : (xs ys : List Metric) (c : Metric) → (xs ++ c ∷ []) ++ ys ≡ xs ++ c ∷ ys
  append_one [] ys c = refl
  append_one (x ∷ xs) ys c = ap (λ l. x ∷ l) (append_one xs ys c)

  register_each-AllOrNone :
      (done cs : List Metric) (w : World) → AllOrNone done cs w (register_each env reg m done cs w)
  unfolding register_each register_answered
  register_each-AllOrNone done [] w = inl refl
  register_each-AllOrNone done (c ∷ cs) w =
      let v = push (register_metric reg m c) w in
      elim (Option-cases (env.failure v.trace)) [
        | inr (e, h) ↦
            inr (
              [],
              c,
              cs,
              e,
              refl,
              h,
              rw (h, unregister_each-log reg m done v, append_nil done) refl,
            )
        | inl h ↦ elim (register_each-AllOrNone (done ++ c ∷ []) cs v) [
          | inl r ↦ inl (rw h r)
          | inr (pre, c', post, e, s, f, r) ↦
              inr
                (c ∷ pre, c', post, e, ap (λ l. c ∷ l) s, f, rw h (rw (append_one done pre c) at r))
        ]
      ]

  -- Registering a collector registers its eight metrics in their order; or, when the registerer refuses one
  -- of them, it returns the wrapped error and has unregistered exactly those that it had registered before.
  pub register-AllOrNone : (w : World) → AllOrNone [] eight_metrics w (register env reg m w)
  unfolding register
  register-AllOrNone w = register_each-AllOrNone [] collect w
