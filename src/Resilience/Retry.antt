-- ===== src/Resilience/Retry.antt =====
-- What `do` does, against a relation of its own: the rounds that the policy allows.
use hellnet_lib_database.Prelude.{
  ℕ, zero, suc, ◌+◌, ◌≤◌, ◌≡◌, refl, ap, ◌≢◌, ◌∙◌, true, false, Option, none, some, [], arith,
  if◌then◌else◌, Bool-cases, inl, inr,
}
use hellnet_lib_database.Prelude.Int.{pos_part}
use hellnet_lib_database.Errors.{Err, wrapf, join}
use hellnet_lib_database.World.{
  World, Env, Ctx, Panic, Outcome, ret, panics, no_fuel, push, log_warn, retry_count, wait,
}
use hellnet_lib_database.World.Exec.{M, continue}
use hellnet_lib_database.Resilience.{
  RetryPolicy, should_retry, backoff, settle, resume, do_loop, do_retry,
}

-- A policy allows a retry after attempt `a` only if `a` is below its maximum.
should_retry-lt :
    (p : RetryPolicy) (e : Err) (a : ℕ)
    → should_retry p (some e) a ≡ true
    → suc a ≤ pos_part p.max_count
unfolding should_retry
should_retry-lt p e a h = ground arith

module _ (env : Env) {T : Type 0} (p : RetryPolicy) (ctx : Ctx) (fn : M (T × Option Err)) where
  -- the world in which the backoff starts, after a failed attempt left `w`
  abbrev pub warned : World → World
  warned w =
      let w' = push (log_warn "database transient error, retrying") w in
      if p.counted then push retry_count w' else w'

  abbrev pub slept : ℕ → World → World
  slept a w = push (wait ctx (backoff p a)) (warned w)

  -- `Attempts a w r`: attempt `a`, made in `w`, and those after it end in `r`.
  pub data Attempts : ℕ → World → Outcome (T × Option Err) × World → Type 0 where
    succeeded :
        {a : ℕ} {w w' : World} {out : T}
        → fn w ≡ (ret (out, none), w')
        → Attempts a w (ret (out, none), w')
    gave_up :
        {a : ℕ} {w w' : World} {out : T} {e : Err}
        → fn w ≡ (ret (out, some e), w')
        → should_retry p (some e) a ≡ false
        → Attempts a w (ret (out, some e), w')
    unwound :
        {a : ℕ} {w w' : World} {x : Panic} → fn w ≡ (panics x, w') → Attempts a w (panics x, w')
    interrupted :
        {a : ℕ} {w w' : World} {out : T} {e s : Err}
        → fn w ≡ (ret (out, some e), w')
        → should_retry p (some e) a ≡ true
        → env.failure (slept a w').trace ≡ some s
        → Attempts a w
            (ret (out, some (join e (wrapf "database: retry aborted: %w" [] s))), slept a w')
    again :
        {a : ℕ} {w w' : World} {out : T} {e : Err} {r : Outcome (T × Option Err) × World}
        → fn w ≡ (ret (out, some e), w')
        → should_retry p (some e) a ≡ true
        → env.failure (slept a w').trace ≡ none
        → Attempts (suc a) (slept a w') r
        → Attempts a w r

  -- how often a run calls the operation
  unfoldable pub calls :
      {a : ℕ} {w : World} {r : Outcome (T × Option Err) × World} → Attempts a w r → ℕ
  calls (succeeded _) = 1
  calls (gave_up _ _) = 1
  calls (unwound _) = 1
  calls (interrupted _ _ _) = 1
  calls (again _ _ _ rest) = suc (calls rest)

  calls_bound :
      {a : ℕ} {w : World} {r : Outcome (T × Option Err) × World} (run : Attempts a w r)
      → a ≤ pos_part p.max_count
      → calls run + a ≤ suc (pos_part p.max_count)
  unfolding calls
  calls_bound (succeeded _) h = omega arith
  calls_bound (gave_up _ _) h = omega arith
  calls_bound (unwound _) h = omega arith
  calls_bound (interrupted _ _ _) h = omega arith
  calls_bound {a = a} (again {e = e} _ t _ rest) h =
      omega (arith, should_retry-lt p e a t, calls_bound rest)

  settle_retries :
      (next : M (T × Option Err)) (out : T) (e : Err) (a : ℕ) (w : World)
      → should_retry p (some e) a ≡ true
      → settle env p ctx fn a next out (some e) w
        ≡ resume env p ctx fn next out e (env.failure (slept a w).trace) (slept a w)
  unfolding settle
  settle_retries next out e a w t = elim (Bool-cases p.counted) [
    | inl c ↦ rw (t, c)
    | inr c ↦ rw (t, c)
  ]

  module _ (ends : (w : World) → (fn w).0 ≢ no_fuel) where
    resume-Attempts :
        (next : M (T × Option Err)) (a : ℕ) (w w' : World) (out : T) (e : Err) (s : Option Err)
        → fn w ≡ (ret (out, some e), w')
        → should_retry p (some e) a ≡ true
        → env.failure (slept a w').trace ≡ s
        → Attempts (suc a) (slept a w') (next (slept a w'))
        → Attempts a w (resume env p ctx fn next out e s (slept a w'))
    unfolding resume
    resume-Attempts next a w w' out e none h t f rest = again h t f rest
    resume-Attempts next a w w' out e (some s) h t f rest = interrupted h t f

    settle-Attempts :
        (next : M (T × Option Err)) (a : ℕ) (w : World) (o : Outcome (T × Option Err)) (w' : World)
        → fn w ≡ (o, w')
        → ((v : World) → suc a ≤ pos_part p.max_count → Attempts (suc a) v (next v))
        → Attempts a w (continue o (λ r. settle env p ctx fn a next r.0 r.1) w')
    settle-Attempts next a w no_fuel w' h ih = absurd (ends w (ap (λ r. r.0) h))
    settle-Attempts next a w (panics x) w' h ih = unwound h
    settle-Attempts next a w (ret (out, none)) w' h ih = unfold settle in succeeded h
    settle-Attempts next a w (ret (out, some e)) w' h ih =
        elim (Bool-cases (should_retry p (some e) a)) [
          | inr n ↦ unfold settle in rw n (gave_up h n)
          | inl t ↦ rw (settle_retries next out e a w' t) (
              resume-Attempts next a w w' out e _ h t refl
                (ih (slept a w') (should_retry-lt p e a t)))
        ]

    do_loop-Attempts :
        (fuel a : ℕ) (w : World)
        → a ≤ pos_part p.max_count
        → a + fuel ≡ suc (pos_part p.max_count)
        → Attempts a w (do_loop env p ctx fn fuel a w)
    unfolding do_loop
    do_loop-Attempts zero a w l h = absurd (omega arith)
    do_loop-Attempts (suc fuel) a w l h =
        settle-Attempts (do_loop env p ctx fn fuel (suc a)) a w (fn w).0 (fn w).1 refl
          (λ v m. do_loop-Attempts fuel (suc a) v m (omega arith))

    -- With retries enabled, and an operation that itself ends, `do` ends as the relation says: it
    -- returns the first success, the first error that the policy does not retry, or the last error
    -- joined with that of a context that ended the backoff, and an operation's panic passes
    -- through. It calls the operation once, and at most max_count times more.
    pub do_retry-Attempts :
        (w : World)
        → p.enabled ≡ true
        → (run : Attempts 0 w (do_retry env p ctx fn w)) × (calls run ≤ suc (pos_part p.max_count))
    unfolding do_retry
    do_retry-Attempts w h =
        let run = do_loop-Attempts (suc (pos_part p.max_count)) 0 w (omega arith) (omega arith) in
        let bound = calls_bound run (omega arith) in simp h (run, omega arith)

  do_loop_unique :
      {a : ℕ} {w : World} {r : Outcome (T × Option Err) × World}
      → Attempts a w r
      → (fuel : ℕ) → a ≤ pos_part p.max_count
      → a + fuel ≡ suc (pos_part p.max_count)
      → do_loop env p ctx fn fuel a w ≡ r
  unfolding do_loop
  do_loop_unique _ zero l k = absurd (omega arith)
  do_loop_unique (succeeded h) (suc fuel) l k = unfold settle in rw h
  do_loop_unique (gave_up h n) (suc fuel) l k = unfold settle in rw (h, n)
  do_loop_unique (unwound h) (suc fuel) l k = rw h
  do_loop_unique {a = a} (interrupted {w' = w'} {out = out} {e = e} h t f) (suc fuel) l k =
      rw h (settle_retries _ out e a w' t ∙ unfold settle in rw f)
  do_loop_unique {a = a} (again {w' = w'} {out = out} {e = e} h t f rest) (suc fuel) l k =
      let ih = do_loop_unique {a = suc a} rest fuel (should_retry-lt p e a t) (omega arith) in
      rw h (settle_retries _ out e a w' t ∙ (unfold settle in rw f refl) ∙ ih)

  -- With retries enabled, `do` ends in whatever the relation of attempts allows: so the relation
  -- leaves no choice, and allows nothing that `do` does not do.
  pub do_retry_unique :
      (w : World) (r : Outcome (T × Option Err) × World)
      → p.enabled ≡ true
      → Attempts 0 w r
      → do_retry env p ctx fn w ≡ r
  unfolding do_retry
  do_retry_unique w r h run =
      let e = do_loop_unique run (suc (pos_part p.max_count)) (omega arith) (omega arith) in
      simp h e

  -- A panic of the first attempt passes through, whatever the policy.
  pub do_retry-unwound :
      (w w' : World) (x : Panic) → fn w ≡ (panics x, w') → do_retry env p ctx fn w ≡ (panics x, w')
  do_retry-unwound w w' x h = elim (Bool-cases p.enabled) [
    | inl on ↦ do_retry_unique w (panics x, w') on (unwound h)
    | inr off ↦ unfold do_retry in simp off h
  ]
