-- ===== src/Database/Rounds.antt =====
-- What the hooks and the spans see of an operation of DB: every attempt of its retry policy.
pub mod Operations
pub mod Requests
pub mod Paging
use hellnet_lib_database.Prelude.{
  ℕ, zero, suc, ◌+◌, ◌≤◌, ◌≡◌, refl, sym, ap, ◌∙◌, ◌≢◌, Bool, true, false, Option, none, some, List,
  [], ◌∷◌, arith, Bool-cases, inl, inr, ◌⊎◌, if◌then◌else◌, String,
}
use hellnet_lib_database.Prelude.Int.{ℤ, pos_part}
use hellnet_lib_database.Text.{Text}
use hellnet_lib_database.Errors.{Err, wrapf, join}
use hellnet_lib_database.World.{
  Value, Ctx, Op, Hook, Event, Trace, Env, World, Panic, Outcome, ret, panics, no_fuel, push,
  start_span, span_error, span_status, end_span, observe_operation,
}
use hellnet_lib_database.World.Exec.{M}
use hellnet_lib_database.Hooks.{snapshot}
use hellnet_lib_database.Resilience.{RetryPolicy, should_retry, do_retry}
use hellnet_lib_database.Resilience.Retry.{
  Attempts, succeeded, gave_up, unwound, interrupted, again, calls, slept, do_retry-Attempts,
}
use hellnet_lib_database.Core.{Conn, registry_of}
use hellnet_lib_database.Core.HookCalls.{marks, observed_run, Observed}
use hellnet_lib_database.Core.HookCalls.Passes.{same_hooks}
use hellnet_lib_database.Database.Attempts.{allowed}

-- what an attempt told the hooks, beside the error that the operation returns: the same, or the error that an
-- ended context was joined to
abbrev pub Told : Option Err → Option Err → Type 0
Told told returned =
    (told ≡ returned)
    ⊎ ((e : Err) × (s : Err) × (told ≡ some e)
        × (returned ≡ some (join e (wrapf "database: retry aborted: %w" [] s))))

module _ (p : RetryPolicy) (c : Conn) (op : Op) (sql : Text) (args : List Value) (hs : List Hook)
    (statement : Event) where
  -- `Failed n t u`: between `t` and `u`, `n` runs told the hooks of an error that the policy retries.
  pub data Failed : ℕ → Trace → Trace → Type 0 where
    here : {t : Trace} → Failed zero t t
    next :
        {n : ℕ} {t u v : Trace} (d : ℕ) (e : Err) (rows : ℤ)
        → Failed n t u
        → should_retry p (some e) n ≡ true
        → v ≡ observed_run c op sql args hs statement d (some e) rows u
        → Failed (suc n) t v

  -- From `t` on, the operation ran `n` times and returned: after the failed runs came one that told the hooks
  -- of its result.
  abbrev pub Rounds :
      {T : Type 0}
      → (T × Option Err → ℤ)
      → ℕ
      → Trace
      → Outcome (T × Option Err) × World
      → Trace
      → T × Option Err
      → Type 0
  Rounds rows_of n t r u out =
      (r.0 ≡ ret out)
      × ((m : ℕ) × (suc m ≡ n)
          × (v : Trace) × Failed m t v
          × ((d : ℕ) × (told : Option Err) × Told told out.1
              × (u ≡ observed_run c op sql args hs statement d told (rows_of out) v)))

module _ (env : Env) (c : Conn) (op : Op) (sql : Text) (args : List Value) (statement : Event)
    {T : Type 0} (rows_of : T × Option Err → ℤ)
    (blind : (out : T) (e s : Err) → rows_of (out, some e) ≡ rows_of (out, some s))
    (p : RetryPolicy) (ctx : Ctx) (fn : M (T × Option Err))
    (observes : (w : World)
      → (out : T × Option Err) × Observed c op sql args statement
          (fn w)
          w
          out
          out.1
          (rows_of out)) where
  never_panics : (w w' : World) (x : Panic) → fn w ≢ (panics x, w')
  never_panics w w' x h = let (out, (r, _, _)) = observes w in cc (ap (λ q. q.0) h, r)

  one_run :
      (w w' : World) (q : T × Option Err)
      → fn w ≡ (ret q, w')
      → ((d : ℕ) × (marks w'.trace
            ≡ observed_run c op sql args
                (snapshot (registry_of c w))
                statement
                d
                q.1
                (rows_of q)
                (marks w.trace)))
        × (w'.registry ≡ w.registry)
  one_run w w' q h =
      let (out, (r, (d, m), g)) = observes w in
      let e : out ≡ q = cc (ap (λ x. x.0) h, r) in
      (
        (
          d,
          ap (λ x. marks x.1.trace) (sym h)
              ∙ m
              ∙ ap
                  (λ (x : T × Option Err).
                    observed_run c op sql args (snapshot (registry_of c w)) statement d x.1
                      (rows_of x) (marks w.trace))
                  e,
        ),
        ap (λ x. x.1.registry) (sym h) ∙ g,
      )

  slept-marks : (a : ℕ) (w : World) → marks (slept env p ctx fn a w).trace ≡ marks w.trace
  slept-marks a w = elim (Bool-cases p.counted) [ inl y ↦ rw y refl | inr n ↦ rw n refl ]

  slept-registry : (a : ℕ) (w : World) → (slept env p ctx fn a w).registry ≡ w.registry
  slept-registry a w = elim (Bool-cases p.counted) [ inl y ↦ rw y refl | inr n ↦ rw n refl ]

  module _ (w0 : World) (t : Trace) where
    abbrev hs : List Hook
    hs = snapshot (registry_of c w0)

    run_hooks :
        (w w' : World) (q : T × Option Err)
        → w.registry ≡ w0.registry
        → fn w ≡ (ret q, w')
        → ((d : ℕ) × (marks w'.trace
              ≡ observed_run c op sql args hs statement d q.1 (rows_of q) (marks w.trace)))
          × (w'.registry ≡ w0.registry)
    run_hooks w w' q g h =
        let ((d, m), k) = one_run w w' q h in
        (
          (
            d,
            m
                ∙ ap (λ l. observed_run c op sql args l statement d q.1 (rows_of q) (marks w.trace))
                    (same_hooks c w w0 g),
          ),
          k ∙ g,
        )

    Attempts-Rounds :
        {a : ℕ} {w : World} {r : Outcome (T × Option Err) × World}
        (run : Attempts env p ctx fn a w r)
        → w.registry ≡ w0.registry
        → Failed p c op sql args hs statement a t (marks w.trace)
        → (out : T × Option Err) × Rounds p c op sql args hs statement rows_of
            (calls env p ctx fn run + a)
            t
            r
            (marks r.1.trace)
            out
    unfolding calls
    Attempts-Rounds {a = a} {w = w} (succeeded {w' = w'} {out = out} h) g f =
        let ((d, m), _) = run_hooks w w' (out, none) g h in
        ((out, none), (refl, (a, omega arith, marks w.trace, f, (d, none, inl refl, m))))
    Attempts-Rounds {a = a} {w = w} (gave_up {w' = w'} {out = out} {e = e} h _) g f =
        let ((d, m), _) = run_hooks w w' (out, some e) g h in
        ((out, some e), (refl, (a, omega arith, marks w.trace, f, (d, some e, inl refl, m))))
    Attempts-Rounds {w = w} (unwound {w' = w'} {x = x} h) g f = absurd (never_panics w w' x h)
    Attempts-Rounds {a = a} {w = w} (interrupted {w' = w'} {out = out} {e = e} {s = s} h _ _) g f =
        let ((d, m), _) = run_hooks w w' (out, some e) g h in
        let e' = join e (wrapf "database: retry aborted: %w" [] s) in
        (
          (out, some e'),
          (
            refl,
            (
              a,
              omega arith,
              marks w.trace,
              f,
              (
                d,
                some e,
                inr (e, s, refl, refl),
                slept-marks a w'
                    ∙ m
                    ∙ ap (λ k. observed_run c op sql args hs statement d (some e) k (marks w.trace))
                        (blind out e e'),
              ),
            ),
          ),
        )
    Attempts-Rounds {a = a} {w = w} (again {w' = w'} {out = out} {e = e} h y _ rest) g f =
        let ((d, m), k) = run_hooks w w' (out, some e) g h in
        let f' = Failed.next d e (rows_of (out, some e)) f y (slept-marks a w' ∙ m) in
        let (o, (r, (n, l, u, f'', told))) = Attempts-Rounds rest (slept-registry a w' ∙ k) f' in
        (o, (r, (n, omega arith, u, f'', told)))

  ends : (w : World) → (fn w).0 ≢ no_fuel
  ends w h = let (out, (r, _, _)) = observes w in cc (h, r)

  -- The retry loop runs the operation once, and at most as often as its policy allows.
  pub do_retry-Rounds :
      (w : World)
      → (n : ℕ) × (n ≤ allowed p)
        × ((out : T × Option Err) × Rounds p c op sql args
              (snapshot (registry_of c w))
              statement
              rows_of
              n
              (marks w.trace)
              (do_retry env p ctx fn w)
              (marks (do_retry env p ctx fn w).1.trace)
              out)
  do_retry-Rounds w = elim (Bool-cases p.enabled) [
    | inl on ↦
        let (run, bound) = do_retry-Attempts env p ctx fn ends w on in
        let (out, found) = Attempts-Rounds w (marks w.trace) run refl Failed.here in
        (calls env p ctx fn run + 0, simp on (omega (arith, bound)), (out, found))
    | inr off ↦
        let (out, (r, (d, m), g)) = observes w in
        let e : do_retry env p ctx fn w ≡ fn w = unfold do_retry in simp off in
        (
          1,
          simp off (omega arith),
          (out, rw e (r, (0, refl, marks w.trace, Failed.here, (d, out.1, inl refl, m)))),
        )
  ]
