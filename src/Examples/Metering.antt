-- ===== src/Examples/Metering.antt =====
-- Metrics on a DB without a collector, with a registerer that refuses the third metric and one that takes all.
use hellnet_lib_database.Prelude.{
  ℕ, Bool, true, false, String, Bool-cases, inl, inr, ◌∙◌, if◌then◌else◌, ◌≡◌, refl, ◌⊎◌, Option,
  none, some, [], ◌∷◌, ◌++◌,
}
use hellnet_lib_database.Prelude.Int.{pos}
use hellnet_lib_database.Errors.{Err, pg_error, wrapf}
use hellnet_lib_database.World.{
  Trace, Env, World, user, collector, register_metric, unregister_metric, pool_acquire_total,
  stop_sampler, ret, ok, err,
}
use hellnet_lib_database.Metrics.{
  PoolStats, MetricsHandle, collect, register, register_each, enable_metrics, close_metrics,
}
use hellnet_lib_database.Metrics.Registration.{log, AllOrNone, register-AllOrNone}
use hellnet_lib_database.Metrics.Lifetime.{close_metrics-enable_metrics}
use hellnet_lib_database.Metrics.Interleaved.{returned, new_call, run_calls}
use hellnet_lib_database.Metrics.Lifetime.Race.{rest_of, enable_metrics-race}
use hellnet_lib_database.Metrics.Described.{desc}
use hellnet_lib_database.Metrics.Shared.{
  is_named, is_named_lem, held, RefusesDuplicates, refused, enable_metrics-shared,
}
use hellnet_lib_database.Examples.{healthy}

abbrev third_refused : Trace → Option Err
third_refused (register_metric _ _ pool_acquire_total ∷ _) = some (pg_error "duplicate")
third_refused _ = none

abbrev partly : Env
partly = record healthy { failure = third_refused }

abbrev unmetered : World
unmetered = record { trace = []; registry = λ _. record { hs = user 3 false ∷ []; met = none } }

abbrev stats : Trace → PoolStats
stats _ = record { in_use = pos 2; idle = pos 3; max = pos 10 }

register-AllOrNone_example :
    AllOrNone partly 1 4 [] collect unmetered (register partly 1 4 unmetered)
register-AllOrNone_example = register-AllOrNone partly 1 4 unmetered

close_metrics-enable_metrics_example :
    let r = enable_metrics healthy stats 1 0 7 none 4 unmetered in
    ((e : Err) × (r.0 ≡ ret (err e)) × (r.1.registry ≡ unmetered.registry))
    ⊎ ((h : MetricsHandle) × (h' : MetricsHandle) × (r.0 ≡ ret (ok h))
        × ((unmetered.registry 0).met ≡ none)
        × ((v : World)
            → v.registry ≡ r.1.registry
            → ((close_metrics h v).0 ≡ ret h')
              × ((q : ℕ) → (close_metrics h v).1.registry q ≡ unmetered.registry q)
              × ((close_metrics h v).1.trace
                  ≡ log (unregister_metric 1 4) collect (stop_sampler 4 ∷ v.trace)))
        × ((u : World) → close_metrics h' u ≡ (ret h', u)))
close_metrics-enable_metrics_example =
    close_metrics-enable_metrics healthy stats 1 0 7 none 4 unmetered refl

-- on registerers 1, 2 and 3
enable_metrics-race_example :
    let r =
      run_calls healthy stats 1 0 7
        (true ∷ false ∷ true ∷ false ∷ [])
        (new_call none 4)
        (new_call (some 2) 5)
        unmetered in
    let z = (close_metrics (record { mc = 4; target = 1; hooks = 0; spent = false }) r.1).1 in
    (r.0.0.stage ≡ returned (ret (ok (record { mc = 4; target = 1; hooks = 0; spent = false }))))
    × (r.0.1.stage ≡ returned (ret (ok (record { mc = 5; target = 2; hooks = 0; spent = false }))))
    × ((r.1.registry 0).hs ≡ (unmetered.registry 0).hs ++ collector 4 ∷ collector 5 ∷ [])
    × ((z.registry 0).hs ≡ (unmetered.registry 0).hs ++ collector 5 ∷ [])
    × ((z.registry 0).met ≡ none)
    × (enable_metrics healthy stats 1 0 7 (some 3) 6 z ≡ rest_of healthy stats 1 0 7 (some 3) 6 z)
unfolding register register_each
enable_metrics-race_example =
    enable_metrics-race healthy stats 1 0 7 none (some 2) (some 3) 4 5 6 unmetered refl refl refl
      refl

-- whether the events of a trace registered the name, with a registerer that refuses what it holds
abbrev holds : ℕ → String → Trace → Bool
holds reg name [] = false
holds reg name (register_metric r m c ∷ t) =
    let before = holds reg name t in if is_named reg name r c then true else before
holds reg name (unregister_metric r m c ∷ t) =
    let before = holds reg name t in if is_named reg name r c then false else before
holds reg name (_ ∷ t) = holds reg name t

abbrev duplicate : Err
duplicate = pg_error "duplicate"

abbrev answers : Trace → Option Err
answers (register_metric r m c ∷ t) = if holds r (desc c).name t then some duplicate else none
answers _ = none

abbrev prometheus : Env
prometheus = record healthy { failure = answers }

held-holds : (reg : ℕ) (name : String) (t : Trace) → held prometheus reg name t ≡ holds reg name t
held-holds reg name [] = refl
held-holds reg name (register_metric r m c ∷ t) = elim (Bool-cases (is_named reg name r c)) [
  | inr n ↦ rw (n, held-holds reg name t) refl
  | inl y ↦
      let (e, g) = is_named_lem reg name r c y in
      rw y (elim (Bool-cases (holds r (desc c).name t)) [
        | inl h ↦ rw h (held-holds reg name t ∙ rw (← e) (rw (← g) h))
        | inr n ↦ rw n refl
      ])
]
held-holds reg name (unregister_metric r m c ∷ t) = rw (held-holds reg name t) refl
held-holds reg name (_ ∷ t) = held-holds reg name t

prometheus-RefusesDuplicates : (reg : ℕ) → RefusesDuplicates prometheus reg duplicate
prometheus-RefusesDuplicates reg m c t = rw (held-holds reg (desc c).name t) refl

enable_metrics-shared_example :
    let v = (register prometheus 1 4 unmetered).1 in
    let r = enable_metrics prometheus stats 1 2 8 (some 1) 5 v in
    (r.0 ≡ ret (err (wrapf "database: registering metrics: %w" [] duplicate)))
    × (r.1.registry ≡ v.registry)
    × (r.1.trace ≡ (refused 1 5 v).trace)
    × ((name : String) → held prometheus 1 name r.1.trace ≡ held prometheus 1 name v.trace)
unfolding register
enable_metrics-shared_example =
    enable_metrics-shared prometheus 1 duplicate (prometheus-RefusesDuplicates 1) stats 1 4 5 2 8
      unmetered refl refl
