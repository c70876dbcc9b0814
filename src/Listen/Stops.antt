-- ===== src/Listen/Stops.antt =====
-- The loop of a listener comes to its end once a stop is requested, whatever the server does.
pub mod Loop
use hellnet_lib_database.Prelude.{
  ℕ, zero, suc, ◌+◌, ◌≤◌, ◌<◌, ◌≡◌, ◌≢◌, refl, inl, inr, Bool, true, false, ◌||◌, Option, none,
  some, List, [], leb, leb→le, length, Bool-cases, arith,
}
use hellnet_lib_database.Prelude.Int.{ℤ, pos, leb_ℤ}
use hellnet_lib_database.Text.{Text}
use hellnet_lib_database.Errors.{Err, is, canceled, deadline_exceeded}
use hellnet_lib_database.World.{
  Handle, with_timeout, wait_notification, sleep_backoff, log_warn, go_handler, Ctx, Trace, Reply,
  ok, err, Env, World, push, Outcome, ret, panics, no_fuel,
}
use hellnet_lib_database.World.Exec.{M, continue}
use hellnet_lib_database.Core.{Conn, derive}
use hellnet_lib_database.Core.Operations.{execute_context}
use hellnet_lib_database.Core.Once.{execute_context-Runs}
use hellnet_lib_database.Core.Growth.{Growth}
use hellnet_lib_database.Listen.{
  ListenOptions, Surroundings, Session, listen_sql, swap, fresh_listened, fresh_resolved,
  fresh_acquired, relisten_on_fresh, resolve_listen_backend,
}
use hellnet_lib_database.Listen.Loop.{
  next_backoff, on_fresh, reacquire, relisten_answered, sleep_answered, relisten, resumed, failed,
  received, round, listen_loop,
}
use hellnet_lib_database.Listen.Kept.{Kept, held, Left, relisten_on_fresh-Kept}
use hellnet_lib_database.Listen.Returns.{release_old-ret, free_Rule}
use hellnet_lib_database.Listen.Invariant.{relisten-Kept}

-- At least `m` events are on the trace.
abbrev pub Long : ℕ → Trace → Type 0
Long m t = m ≤ length t

abbrev longer : (m : ℕ) → Growth (λ _ t u. (hs : List Handle) → Long m t → Long m u)
longer m = record {
  here = λ t hs p. p;
  chain = λ j k t u v a b hs p. b hs (a hs p);
  more = λ j k t u a hs p. a hs p;
  quiet = λ e t q hs p. omega (arith, p);
  sent = λ e t q hs p. omega (arith, p);
}

pub long-Kept : (env : Env) (l : Surroundings) (m : ℕ) → Kept env l (λ _. Unit) (λ hs t. Long m t)
long-Kept env l m = record {
  grow = longer m;
  informed = λ s hs t p. omega (arith, p);
  slept = λ d hs t ok_delay p. omega (arith, p);
  silent = λ h ctx hs t e p. omega (arith, p);
  delivered = λ h ctx payload hs t e p. omega (arith, p);
  refused = λ pool ctx hs t e p. omega (arith, p);
  borrowed = λ pool ctx h hs t e p. omega (arith, p);
  returned = λ h hs t p. omega (arith, p);
  replaced = λ h q hs t p. omega (arith, p);
}

pub Left-long :
    {A : Type 0} (m : ℕ) (f : A → List Handle) (o : Outcome A) (t : Trace)
    → Left (λ hs t. Long m t) f o t
    → Long m t
Left-long m f (ret a) t p = p
Left-long m f (panics x) t p = p.1
Left-long m f no_fuel t p = p.1

pub continue_ends :
    {A B : Type 0} (o : Outcome A) (k : A → M B) (w : World)
    → o ≢ no_fuel
    → ((a : A) → (k a w).0 ≢ no_fuel)
    → (continue o k w).0 ≢ no_fuel
continue_ends (ret a) k w n h = h a
continue_ends (panics x) k w n h = λ e. cc e
continue_ends no_fuel k w n h = absurd (n refl)

module _ (env : Env) (l : Surroundings) (channel : Text) where
  -- a statement ends, and takes nothing off the trace
  pub execute_ends :
      (c : Conn) (w : World)
      → let r = execute_context env c.ctx c (listen_sql channel) [] w in
        (r.0 ≢ no_fuel) × (length w.trace ≤ length r.1.trace)
  execute_ends c w =
      let r =
        (execute_context-Runs (longer (length w.trace)) env c.ctx c (listen_sql channel) []).ended
          w in
      (r.0, r.1 [] (omega arith))

  module _ (s : Session) where
    fresh_listened_ends :
        (fresh : Conn) (waiter : Handle) (r : ℤ × Option Err) (w : World)
        → (fresh_listened env l channel s fresh waiter r w).0 ≢ no_fuel
    unfolding fresh_listened swap
    fresh_listened_ends fresh waiter (n, some e) w = λ e. cc e
    fresh_listened_ends fresh waiter (n, none) w = rw (release_old-ret s.replacement w) (λ e. cc e)

    fresh_resolved_ends :
        (fresh : Conn) (reply : Reply Handle) (w : World)
        → (fresh_resolved env l channel s fresh reply w).0 ≢ no_fuel
    unfolding fresh_resolved
    fresh_resolved_ends fresh (err e) w = λ e. cc e
    fresh_resolved_ends fresh (ok waiter) w =
        let r = execute_context env fresh.ctx fresh (listen_sql channel) [] w in
        continue_ends r.0 (fresh_listened env l channel s fresh waiter) r.1 (execute_ends fresh w).0
          (λ a. fresh_listened_ends fresh waiter a r.1)

    fresh_acquired_ends :
        (from : Conn) (reply : Reply Handle) (w : World)
        → (fresh_acquired env l channel s from reply w).0 ≢ no_fuel
    unfolding fresh_acquired
    fresh_acquired_ends from (err e) w = λ e. cc e
    fresh_acquired_ends from (ok h) w =
        fresh_resolved_ends (derive from h) (resolve_listen_backend l.kind h) w

    pub fresh_ends :
        (from : Conn) (pool : Handle) (w : World)
        → let r = relisten_on_fresh env l channel s from pool w in
          (r.0 ≢ no_fuel) × (length w.trace ≤ length r.1.trace)
    fresh_ends from pool w =
        let r = relisten_on_fresh env l channel s from pool w in
        (
          unfold relisten_on_fresh in fresh_acquired_ends from _ _,
          Left-long (length w.trace) (λ (r : Bool × Session). held r.1.replacement) r.0 r.1.trace
              ((relisten_on_fresh-Kept (long-Kept env l (length w.trace)) channel s from pool).kept
                w (omega arith)),
        )
