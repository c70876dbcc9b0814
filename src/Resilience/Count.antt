-- ===== src/Resilience/Count.antt =====
-- How often the retry loop causes what its operation causes.
use hellnet_lib_database.Prelude.{
  ℕ, suc, ◌+◌, ◌≤◌, ◌≡◌, ap, ◌≢◌, String, Bool, false, Option, [], ◌∷◌, arith, if◌then◌else◌,
  Bool-cases, inl, inr,
}
use hellnet_lib_database.Prelude.Int.{ℤ, pos_part}
use hellnet_lib_database.Errors.{Err}
use hellnet_lib_database.World.{
  World, Env, Event, Ctx, Outcome, no_fuel, Trace, log_warn, retry_count, wait,
}
use hellnet_lib_database.World.Exec.{M}
use hellnet_lib_database.Resilience.{RetryPolicy, backoff, do_retry}
use hellnet_lib_database.Resilience.Retry.{
  Attempts, succeeded, gave_up, unwound, interrupted, again, calls, slept, do_retry-Attempts,
}

-- How many events of a trace pass the test.
abbrev pub count : (Event → Bool) → Trace → ℕ
count q [] = 0
count q (e ∷ t) = let rest = count q t in if q e then suc rest else rest

-- The test passes over what the retry loop itself does.
abbrev pub IsQuiet : (Event → Bool) → Type 0
IsQuiet q =
    ((s : String) → q (log_warn s) ≡ false)
    × (q retry_count ≡ false)
    × ((c : Ctx) (d : ℤ) → q (wait c d) ≡ false)

module _ (env : Env) {T : Type 0} (p : RetryPolicy) (ctx : Ctx) (fn : M (T × Option Err)) where
  quiet :
      (q : Event → Bool)
      → IsQuiet q
      → (a : ℕ) (w : World) → count q (slept env p ctx fn a w).trace ≡ count q w.trace
  quiet q h a w = elim (Bool-cases p.counted) [
    | inl c ↦
        rw c (ground (arith, h.0 "database transient error, retrying", h.1, h.2 ctx (backoff p a)))
    | inr c ↦
        rw c (ground (arith, h.0 "database transient error, retrying", h.1, h.2 ctx (backoff p a)))
  ]

  module _ (q : Event → Bool) (silent : IsQuiet q)
      (once : (w : World) → count q (fn w).1.trace ≤ suc (count q w.trace)) where
    after_call :
        {o : Outcome (T × Option Err)} (w w' : World)
        → fn w ≡ (o, w')
        → count q w'.trace ≤ suc (count q w.trace)
    after_call w w' h = let e = ap (λ r. count q r.1.trace) h in omega (arith, once w, e)

    Attempts-count :
        {a : ℕ} {w : World} {r : Outcome (T × Option Err) × World}
        (run : Attempts env p ctx fn a w r)
        → count q r.1.trace ≤ count q w.trace + calls env p ctx fn run
    unfolding calls
    Attempts-count {w = w} (succeeded {w' = w'} h) = omega (arith, after_call w w' h)
    Attempts-count {w = w} (gave_up {w' = w'} h _) = omega (arith, after_call w w' h)
    Attempts-count {w = w} (unwound {w' = w'} h) = omega (arith, after_call w w' h)
    Attempts-count {a = a} {w = w} (interrupted {w' = w'} h _ _) =
        omega (arith, after_call w w' h, quiet q silent a w')
    Attempts-count {a = a} {w = w} (again {w' = w'} h _ _ rest) =
        omega (arith, after_call w w' h, quiet q silent a w', Attempts-count rest)

    -- Whatever kind of event the operation causes at most once a call (a statement sent to the
    -- server, say), `do` causes it at most max_count + 1 times, and at most once when retries are
    -- disabled.
    pub count-do_retry :
        ((w : World) → (fn w).0 ≢ no_fuel)
        → (w : World)
        → count q (do_retry env p ctx fn w).1.trace
          ≤ count q w.trace + (if p.enabled then suc (pos_part p.max_count) else 1)
    count-do_retry ends w = elim (Bool-cases p.enabled) [
      | inr off ↦ unfold do_retry in simp off (omega (arith, once w))
      | inl on ↦
          let (run, bound) = do_retry-Attempts env p ctx fn ends w on in
          simp on (omega (arith, Attempts-count run, bound))
    ]
