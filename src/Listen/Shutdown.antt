-- ===== src/Listen/Shutdown.antt =====
-- A listener that is stopped returns, and has given back what it borrowed.
use hellnet_lib_database.Prelude.{
  ℕ, ◌+◌, ◌<◌, ◌≤◌, ◌≡◌, ◌≢◌, refl, sym, ◌∙◌, Bool, true, Option, none, some, List, [], length,
  arith,
}
use hellnet_lib_database.Prelude.Int.{ℤ}
use hellnet_lib_database.Text.{Text}
use hellnet_lib_database.Errors.{Err}
use hellnet_lib_database.World.{
  Handle, Trace, Reply, ok, err, Env, World, Outcome, ret, panics, no_fuel,
}
use hellnet_lib_database.Core.{attached}
use hellnet_lib_database.Core.Operations.{execute_context}
use hellnet_lib_database.Core.Observed.{execute-Observed}
use hellnet_lib_database.Connection.{Pinned}
use hellnet_lib_database.Listen.{
  ListenOptions, Surroundings, Session, listen_sql, listen_checked, listen_answered, listen_allowed,
  listen, release_replacement, stop,
}
use hellnet_lib_database.Listen.Loop.{listen_loop, listened, run_listener}
use hellnet_lib_database.Listen.Kept.{Left}
use hellnet_lib_database.Listen.Returns.{Rule, Sound, free_Rule, release_old-ret}
use hellnet_lib_database.Listen.Stops.{continue_ends, execute_ends}
use hellnet_lib_database.Listen.Stops.Loop.{listen_loop-ends}
use hellnet_lib_database.Listen.Loans.{loans, returns, Balanced, Balanced-Kept}
use hellnet_lib_database.Listen.Run.{run_listener-Kept, run_listener-Sound}

settled :
    {A : Type 0} (P : List Handle → Trace → Type 0) (o : Outcome A) (t : Trace) (a : A)
    → o ≡ ret a
    → Left P (λ _. []) o t
    → P [] t
settled P (ret b) t a h p = p
settled P (panics x) t a h p = cc h
settled P no_fuel t a h p = cc h

module _ (env : Env) (l : Surroundings) (channel : Text) (opts : ListenOptions) where
  -- a statement on a connection that has its logger does not panic
  attached_Rule : Rule env opts ⊥ (λ _. Unit) (λ c. c.obs ≡ attached)
  attached_Rule = record {
    first = tt;
    doubled = λ b d. tt;
    derived = λ c h g. g;
    safe = λ c sql w x g e.
        let (out, observed) = execute-Observed env c.ctx c sql [] g w in
        let q = sym observed.0 ∙ e in cc q;
  }

  module _ (reconnect : Bool) (n fuel : ℕ) (c : Pinned)
      (stopping : (t : Trace) → n ≤ length t → l.stopped t ≡ true) (enough : n < fuel) where
    stop_ends : (s : Session) (w : World) → (stop env l channel c s w).0 ≢ no_fuel
    unfolding stop release_replacement
    stop_ends s w = rw (release_old-ret s.replacement _) (λ e. cc e)

    listened_ends :
        (reply : Reply Session) (w : World)
        → (listened env l channel opts reconnect fuel c reply w).0 ≢ no_fuel
    unfolding listened
    listened_ends (err e) w = λ h. cc h
    listened_ends (ok s) w =
        let r = listen_loop env l channel opts reconnect fuel opts.retry_delay s w in
        continue_ends r.0 _ r.1
          (listen_loop-ends env l channel opts n stopping reconnect fuel opts.retry_delay s w
            (omega (arith, enough)) (omega (arith, enough)))
          (λ s'.
            let q = stop env l channel c s' r.1 in
            continue_ends q.0 _ q.1 (stop_ends s' r.1) (λ a. λ h. cc h))

    listen_answered_ends :
        (waiter : Handle) (r : ℤ × Option Err) (w : World)
        → (listen_answered env l channel c.conn waiter r w).0 ≢ no_fuel
    unfolding listen_answered
    listen_answered_ends waiter (k, some e) w = λ h. cc h
    listen_answered_ends waiter (k, none) w = λ h. cc h

    listen_allowed_ends :
        (reply : Reply Handle) (w : World)
        → (listen_allowed env l channel c.conn reply w).0 ≢ no_fuel
    unfolding listen_allowed
    listen_allowed_ends (err e) w = λ h. cc h
    listen_allowed_ends (ok waiter) w =
        let r = execute_context env c.conn.ctx c.conn (listen_sql channel) [] w in
        continue_ends r.0 (listen_answered env l channel c.conn waiter) r.1
          (execute_ends env l channel c.conn w).0 (λ a. listen_answered_ends waiter a r.1)

    run_listener_ends :
        (handled : Bool) (w : World)
        → (run_listener env l channel opts reconnect fuel c handled w).0 ≢ no_fuel
    unfolding run_listener listen
    run_listener_ends handled w =
        let reply = listen_checked env l channel c handled w in
        let r = listen_allowed env l channel c.conn reply w in
        continue_ends r.0 (listened env l channel opts reconnect fuel c) r.1
          (listen_allowed_ends reply w) (λ a. listened_ends a r.1)

    -- An outcome that is no panic and no lack of fuel.
    returned :
        {A : Type 0} (o : Outcome A) → o ≢ no_fuel → Sound ⊥ (λ _. Unit) o → (a : A) × (o ≡ ret a)
    unfolding Sound
    returned (ret a) e s = (a, refl)
    returned (panics x) e s = absurd s
    returned no_fuel e s = absurd (e refl)

    -- If every select finds stopCh closed once the trace has `n` events, a listener on a connection with
    -- its logger returns, on a fuel above `n`, whatever the server, the hooks and the clock do, and has by
    -- then given each connection back as often as it borrowed it.
    pub run_listener-returns :
        c.conn.obs ≡ attached
        → (handled : Bool) (w : World) (x : Handle)
        → let r = run_listener env l channel opts reconnect fuel c handled w in
          ((e : Option Err) × (r.0 ≡ ret e))
          × (loans env x r.1.trace + returns x w.trace ≡ returns x r.1.trace + loans env x w.trace)
    run_listener-returns g handled w x =
        let r = run_listener env l channel opts reconnect fuel c handled w in
        let (e, h) =
          returned r.0 (run_listener_ends handled w)
            (run_listener-Sound attached_Rule l channel reconnect fuel c g handled w) in
        let k =
          (run_listener-Kept (free_Rule env opts) l channel reconnect fuel c tt
              (Balanced-Kept env l x w.trace) handled).kept
            w (omega arith) in
        let b = settled (Balanced env x w.trace) r.0 r.1.trace e h k in ((e, h), omega (arith, b))
