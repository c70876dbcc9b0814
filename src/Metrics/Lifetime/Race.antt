-- ===== src/Metrics/Lifetime/Race.antt =====
-- Two calls of EnableMetrics that interleave behind their checks.
use hellnet_lib_database.Prelude.{
  ℕ, ◌≡◌, refl, ap, ◌∙◌, true, false, Option, none, List, [], ◌∷◌, ◌++◌, any, arith,
}
use hellnet_lib_database.World.{
  Handle, Hook, user, collector, Trace, Reply, ok, Env, Registry, World, ret,
}
use hellnet_lib_database.World.Exec.{M, bind_ret}
use hellnet_lib_database.Hooks.{add, without, remove}
use hellnet_lib_database.Hooks.Order.{is_collector}
use hellnet_lib_database.Metrics.{
  PoolStats, MetricsHandle, target_of, register, registered, enable_checked, enable_metrics,
  close_metrics,
}
use hellnet_lib_database.Metrics.Interleaved.{Call, returned, new_call, enable_step, run_calls}
use hellnet_lib_database.Metrics.Lifetime.{
  same_pointer, register_keeps, attached_to, detached_from, attach_lem, close_once_lem,
}

without-middle :
    (m : ℕ) (hs rest : List Hook)
    → any (is_collector m) hs ≡ false
    → without m (hs ++ collector m ∷ rest) ≡ hs ++ rest
unfolding without
without-middle m [] rest h = ground arith
without-middle m (user i b ∷ hs) rest h = ap (λ l. user i b ∷ l) (without-middle m hs rest h)
without-middle m (collector i ∷ hs) rest h = ground (arith, without-middle m hs rest)

append_two : (hs : List Hook) (a b : Hook) → (hs ++ a ∷ []) ++ b ∷ [] ≡ hs ++ a ∷ b ∷ []
append_two [] a b = refl
append_two (x ∷ hs) a b = ap (λ l. x ∷ l) (append_two hs a b)

module _ (env : Env) (stat : Trace → PoolStats) (default_registerer p : ℕ) (pool : Handle) where
  abbrev target : Option ℕ → ℕ
  target = target_of env stat default_registerer

  abbrev handle : Option ℕ → ℕ → MetricsHandle
  handle reg m = record { mc = m; target = target reg; hooks = p; spent = false }

  -- EnableMetrics from behind its check, which found no collector
  abbrev pub rest_of : Option ℕ → ℕ → M (Reply MetricsHandle)
  rest_of reg m = enable_checked env stat default_registerer p pool reg m none

  rest_of-attached :
      (reg : Option ℕ) (m : ℕ) (w : World)
      → (register env (target reg) m w).0 ≡ ret none
      → let r = rest_of reg m w in
        (r.0 ≡ ret (ok (handle reg m))) × (r.1.registry p ≡ attached_to (w.registry p) m)
  unfolding enable_checked registered
  rest_of-attached reg m w h =
      let v = (register env (target reg) m w).1 in
      let (o, g) = attach_lem env stat default_registerer p pool (target reg) m v in
      let at_p = g p in
      rw
        (bind_ret (register env (target reg) m)
          (registered env stat default_registerer p pool (target reg) m) w h)
        (
          o,
          at_p
              ∙ rw (same_pointer p) (
                  ap (λ (k : ℕ → Registry). attached_to (k p) m)
                    (register_keeps env (target reg) m w)),
        )

  after_race :
      (reg m n : ℕ) (w v u : World)
      → any (is_collector m) (w.registry p).hs ≡ false
      → v.registry p ≡ attached_to (w.registry p) m
      → u.registry p ≡ attached_to (v.registry p) n
      → let z = (close_metrics (record { mc = m; target = reg; hooks = p; spent = false }) u).1 in
        ((u.registry p).hs ≡ (w.registry p).hs ++ collector m ∷ collector n ∷ [])
        × ((z.registry p).hs ≡ (w.registry p).hs ++ collector n ∷ [])
        × ((z.registry p).met ≡ none)
  unfolding add remove
  after_race reg m n w v u fresh a b =
      let z = (close_metrics (record { mc = m; target = reg; hooks = p; spent = false }) u).1 in
      let c : z.registry p ≡ detached_from (u.registry p) m =
        (close_once_lem p reg m u).1 p ∙ rw (same_pointer p) refl in
      let both : (u.registry p).hs ≡ (w.registry p).hs ++ collector m ∷ collector n ∷ [] =
        ap (λ r. r.hs) b
        ∙ ap (λ r. r.hs ++ collector n ∷ []) a
        ∙ append_two (w.registry p).hs (collector m) (collector n) in
      (
        both,
        ap (λ r. r.hs) c
            ∙ ap (without m) both
            ∙ without-middle m (w.registry p).hs (collector n ∷ []) fresh,
        ap (λ r. r.met) c,
      )

  -- a call whose two steps nothing comes between is EnableMetrics
  uninterrupted :
      (reg : Option ℕ) (m : ℕ) (other : Call) (w : World)
      → let r =
          run_calls env stat default_registerer p pool
            (true ∷ true ∷ [])
            (new_call reg m)
            other
            w in
        let e = enable_metrics env stat default_registerer p pool reg m w in
        (r.0.0.stage ≡ returned e.0) × (r.1 ≡ e.1)
  unfolding run_calls enable_step enable_metrics
  uninterrupted reg m other w = (refl, refl)

  -- Two calls of EnableMetrics on a DB without a collector in use, with collectors `m` and `n` of their own: where
  -- the first checks, then the second, then the first goes on and then the second, and their registerers
  -- take them, both return a handle, and both collectors are attached. The Close of the first handle leaves
  -- the second collector attached with none in use, and a third call is then let through to its
  -- registration.
  pub enable_metrics-race :
      (reg reg' reg'' : Option ℕ) (m n k : ℕ) (w : World)
      → (w.registry p).met ≡ none
      → any (is_collector m) (w.registry p).hs ≡ false
      → (register env (target reg) m w).0 ≡ ret none
      → (register env (target reg') n (rest_of reg m w).1).0 ≡ ret none
      → let r =
          run_calls env stat default_registerer p pool
            (true ∷ false ∷ true ∷ false ∷ [])
            (new_call reg m)
            (new_call reg' n)
            w in
        let z = (close_metrics (handle reg m) r.1).1 in
        (r.0.0.stage ≡ returned (ret (ok (handle reg m))))
        × (r.0.1.stage ≡ returned (ret (ok (handle reg' n))))
        × ((r.1.registry p).hs ≡ (w.registry p).hs ++ collector m ∷ collector n ∷ [])
        × ((z.registry p).hs ≡ (w.registry p).hs ++ collector n ∷ [])
        × ((z.registry p).met ≡ none)
        × (enable_metrics env stat default_registerer p pool reg'' k z ≡ rest_of reg'' k z)
  unfolding run_calls enable_step enable_metrics
  enable_metrics-race reg reg' reg'' m n k w unused fresh first second =
      let v = (rest_of reg m w).1 in
      let (o, a) = rest_of-attached reg m w first in
      let (o', b) = rest_of-attached reg' n v second in
      let (x, y, z) = after_race (target reg) m n w v (rest_of reg' n v).1 fresh a b in
      rw unused (ap returned o, ap returned o', x, y, z, rw z refl)
