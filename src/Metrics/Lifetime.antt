-- ===== src/Metrics/Lifetime.antt =====
-- Enabling metrics for a DB and closing their handle: the registry of hooks is as it was before.
pub mod Race
use hellnet_lib_database.Prelude.{
  ℕ, ◌≡◌, refl, ap, ◌∙◌, sym, ◌⊎◌, inl, inr, true, false, ◌==◌, ==_iff, Option, none, some, List,
  [], ◌∷◌, ◌++◌, any, Bool-cases, Option-cases, arith, if◌then◌else◌,
}
use hellnet_lib_database.Errors.{Err, errorf}
use hellnet_lib_database.World.{
  Handle, Hook, user, collector, register_metric, Trace, Reply, ok, err, Env, Registry, World,
  Outcome, ret, unregister_metric, stop_sampler,
}
use hellnet_lib_database.Hooks.{add, without, remove, set_observed}
use hellnet_lib_database.Hooks.Order.{is_collector, without-append}
use hellnet_lib_database.Metrics.{
  PoolStats, collect, sample_pool, unregister, register, MetricsHandle, target_of, attach,
  registered, enable_checked, enable_metrics, close_once, close_metrics,
}
use hellnet_lib_database.Metrics.Registration.{log, log_in, register-AllOrNone}

pub same_pointer : (p : ℕ) → (p == p) ≡ true
same_pointer p = (==_iff p p).1 refl

-- the registry with the collector attached and in use, and without it again
abbrev pub attached_to : Registry → ℕ → Registry
attached_to r m = set_observed (add r (collector m)) (some m)

abbrev pub detached_from : Registry → ℕ → Registry
detached_from r m = set_observed (remove r m) none

detached_from-attached_to :
    (r : Registry) (m : ℕ)
    → r.met ≡ none
    → any (is_collector m) r.hs ≡ false
    → detached_from (attached_to r m) m ≡ r
unfolding add remove
detached_from-attached_to r m n h =
    ap (λ hs. record { hs = hs; met = none }) (without-append m r.hs h)
    ∙ ap (λ x. record { hs = r.hs; met = x }) (sym n)

module _ (p m : ℕ) (w v : World)
    (after : (q : ℕ)
      → v.registry q ≡ (if q == p then attached_to (w.registry p) m else w.registry q)) where
  attached_at : v.registry p ≡ attached_to (w.registry p) m
  attached_at = let e = after p in rw (same_pointer p) at e

  detached_at :
      (w.registry p).met ≡ none
      → any (is_collector m) (w.registry p).hs ≡ false
      → (q : ℕ) → (if q == p then detached_from (v.registry p) m else v.registry q) ≡ w.registry q
  detached_at n fresh q = elim (Bool-cases (q == p)) [
    | inl y ↦
        let here : detached_from (v.registry p) m ≡ w.registry p =
          ap (λ r. detached_from r m) attached_at
          ∙ detached_from-attached_to (w.registry p) m n fresh in
        rw y (here ∙ ap w.registry (sym ((==_iff q p).0 y)))
    | inr f ↦ let e = after q in rw f (rw f at e)
  ]

-- no call of a registerer touches the registries of hooks
pub register_keeps :
    (env : Env) (reg m : ℕ) (w : World) → (register env reg m w).1.registry ≡ w.registry
register_keeps env reg m w = elim (register-AllOrNone env reg m w) [
  | inl r ↦ ap (λ x. x.1.registry) r
  | inr (pre, c, post, e, s, f, r) ↦ ap (λ x. x.1.registry) r
]

module _ (env : Env) (stat : Trace → PoolStats) (default_registerer : ℕ) where
  abbrev handle_at : ℕ → ℕ → ℕ → MetricsHandle
  handle_at p reg m = record { mc = m; target = reg; hooks = p; spent = false }

  pub attach_lem :
      (p : ℕ) (pool : Handle) (reg m : ℕ) (w : World)
      → let r = attach env stat default_registerer p pool reg m w in
        (r.0 ≡ ret (ok (handle_at p reg m)))
        × ((q : ℕ)
            → r.1.registry q ≡ (if q == p then attached_to (w.registry p) m else w.registry q))
  unfolding attach sample_pool
  attach_lem p pool reg m w = (
    refl,
    λ q. elim (Bool-cases (q == p)) [ inl y ↦ rw (y, same_pointer p) refl | inr f ↦ rw f refl ],
  )

-- Close detaches the collector from its registry, whatever happened to that since.
pub close_once_lem :
    (p reg m : ℕ) (w : World)
    → let r = close_metrics (record { mc = m; target = reg; hooks = p; spent = false }) w in
      (r.0 ≡ ret (record { mc = m; target = reg; hooks = p; spent = true }))
      × ((q : ℕ)
          → r.1.registry q ≡ (if q == p then detached_from (w.registry p) m else w.registry q))
      × (r.1.trace ≡ log (unregister_metric reg m) collect (stop_sampler m ∷ w.trace))
unfolding close_metrics close_once unregister
close_once_lem p reg m w = (
  refl,
  λ q. elim (Bool-cases (q == p)) [ inl y ↦ rw (y, same_pointer p) refl | inr f ↦ rw f refl ],
  refl,
)

module _ (env : Env) (stat : Trace → PoolStats) (default_registerer : ℕ) (p : ℕ) (pool : Handle)
    (reg : Option ℕ) (m : ℕ) where
  abbrev Enabled : World → Outcome (Reply MetricsHandle) × World → Type 0
  Enabled w r =
      ((e : Err) × (r.0 ≡ ret (err e)) × (r.1.registry ≡ w.registry))
      ⊎ ((h : MetricsHandle) × (r.0 ≡ ret (ok h))
          × (h
              ≡ handle_at env stat default_registerer p (target_of env stat default_registerer reg)
                  m)
          × ((w.registry p).met ≡ none)
          × ((q : ℕ)
              → r.1.registry q ≡ (if q == p then attached_to (w.registry p) m else w.registry q)))

  abbrev target : ℕ
  target = target_of env stat default_registerer reg

  -- once no collector is in use, the call goes on from what `register` returned
  enable_unused :
      (w : World) (o : Option Err) (v : World)
      → (w.registry p).met ≡ none
      → register env target m w ≡ (ret o, v)
      → enable_metrics env stat default_registerer p pool reg m w
        ≡ registered env stat default_registerer p pool target m o v
  unfolding enable_metrics enable_checked
  enable_unused w o v h r = rw (h, r) refl

  enable_refused :
      (w : World) (other : ℕ)
      → (w.registry p).met ≡ some other
      → enable_metrics env stat default_registerer p pool reg m w
        ≡ (ret (err (errorf "database: metrics already enabled for this DB" [])), w)
  unfolding enable_metrics enable_checked
  enable_refused w other h = rw h refl

  enable_metrics-Enabled :
      (w : World) → Enabled w (enable_metrics env stat default_registerer p pool reg m w)
  unfolding registered
  enable_metrics-Enabled w = elim (Option-cases (w.registry p).met) [
    | inr (other, h) ↦
        let s = enable_refused w other h in inl (_, ap (λ x. x.0) s, ap (λ x. x.1.registry) s)
    | inl h ↦ elim (register-AllOrNone env target m w) [
      | inl r ↦
          let s = enable_unused w _ _ h r in
          let a =
            attach_lem env stat default_registerer p pool target m
              (log_in (register_metric target m) collect w) in
          inr (_, ap (λ x. x.0) s ∙ a.0, refl, h, λ q. ap (λ x. x.1.registry q) s ∙ a.1 q)
      | inr (pre, c, post, e, _, _, r) ↦
          let s = enable_unused w _ _ h r in inl (_, ap (λ x. x.0) s, ap (λ x. x.1.registry) s)
    ]
  ]

  -- For a fresh collector `m`: EnableMetrics returns an error and leaves the registries of hooks alone; or no
  -- collector was in use, and whenever the handle that it returns is closed while the registries are as it
  -- left them, each registry is afterwards what it was before EnableMetrics, the eight metrics are
  -- unregistered, and a second Close does nothing.
  pub close_metrics-enable_metrics :
      (w : World)
      → any (is_collector m) (w.registry p).hs ≡ false
      → let r = enable_metrics env stat default_registerer p pool reg m w in
        ((e : Err) × (r.0 ≡ ret (err e)) × (r.1.registry ≡ w.registry))
        ⊎ ((h : MetricsHandle) × (h' : MetricsHandle) × (r.0 ≡ ret (ok h))
            × ((w.registry p).met ≡ none)
            × ((v : World)
                → v.registry ≡ r.1.registry
                → ((close_metrics h v).0 ≡ ret h')
                  × ((q : ℕ) → (close_metrics h v).1.registry q ≡ w.registry q)
                  × ((close_metrics h v).1.trace
                      ≡ log (unregister_metric target m) collect (stop_sampler m ∷ v.trace)))
            × ((u : World) → close_metrics h' u ≡ (ret h', u)))
  unfolding close_metrics close_once
  close_metrics-enable_metrics w fresh = elim (enable_metrics-Enabled w) [
    | inl e ↦ inl e
    | inr (h, r, s, n, g) ↦ inr (
      handle_at env stat default_registerer p target m,
      record { mc = m; target = target; hooks = p; spent = true },
      rw s at r,
      n,
      λ v k.
          let (a, b, c) = close_once_lem p target m v in
          (a, λ q. b q ∙ detached_at p m w v (λ q. ap (λ f. f q) k ∙ g q) n fresh q, c),
      λ u. refl,
    )
  ]
