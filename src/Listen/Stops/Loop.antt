-- ===== src/Listen/Stops/Loop.antt =====
-- The inner and the outer loop of a listener end once a stop is requested.
use hellnet_lib_database.Prelude.{
  ℕ, zero, suc, ◌+◌, ◌≤◌, ◌<◌, ◌≡◌, ◌≢◌, inl, inr, Bool, true, false, ◌||◌, Option, none, some, [],
  leb, leb→le, length, Bool-cases, arith,
}
use hellnet_lib_database.Prelude.Int.{ℤ, pos, leb_ℤ}
use hellnet_lib_database.Text.{Text}
use hellnet_lib_database.Errors.{Err, is, canceled, deadline_exceeded}
use hellnet_lib_database.World.{
  Handle, with_timeout, wait_notification, sleep_backoff, log_warn, go_handler, Ctx, Trace, Reply,
  ok, err, Env, World, push, no_fuel,
}
use hellnet_lib_database.World.Exec.{M}
use hellnet_lib_database.Core.{Conn}
use hellnet_lib_database.Core.Operations.{execute_context}
use hellnet_lib_database.Listen.{
  ListenOptions, Surroundings, Session, listen_sql, relisten_on_fresh,
}
use hellnet_lib_database.Listen.Loop.{
  next_backoff, on_fresh, reacquire, relisten_answered, sleep_answered, relisten, resumed, failed,
  received, round, listen_loop,
}
use hellnet_lib_database.Listen.Kept.{held}
use hellnet_lib_database.Listen.Returns.{free_Rule}
use hellnet_lib_database.Listen.Invariant.{relisten-Kept}
use hellnet_lib_database.Listen.Stops.{
  long-Kept, Left-long, continue_ends, execute_ends, fresh_ends,
}

module _ (env : Env) (l : Surroundings) (channel : Text) (opts : ListenOptions) (n : ℕ)
    (stopping : (t : Trace) → n ≤ length t → l.stopped t ≡ true) where
  going_on : (t : Trace) → l.stopped t ≡ false → length t < n
  going_on t h = elim (Bool-cases (leb n (length t))) [
    | inl y ↦ let c = stopping t (leb→le n (length t) y) in cc (c, h)
    | inr f ↦ ground arith
  ]

  -- a round of the inner loop that began with `m` events, before rounds that end
  module _ (next : ℕ → Session → M (Option ℤ × Session)) (c : Conn) (b : ℤ) (m : ℕ)
      (ih : (k : ℕ) (s : Session) (w : World) → m ≤ length w.trace → (next k s w).0 ≢ no_fuel) where
    on_fresh_ends :
        (r : Bool × Session) (w : World)
        → m ≤ length w.trace
        → (on_fresh env l channel opts next b r w).0 ≢ no_fuel
    unfolding on_fresh
    on_fresh_ends (true, s) w p = λ e. cc e
    on_fresh_ends (false, s) w p = ih 0 s w p

    reacquire_ends :
        (failures : ℕ) (s : Session) (pool : Option Handle) (w : World)
        → m ≤ length w.trace
        → (reacquire env l channel opts next c failures b s pool w).0 ≢ no_fuel
    unfolding reacquire
    reacquire_ends failures s none w p = ih failures s w p
    reacquire_ends failures s (some pool) w p =
        let (e, q) = fresh_ends env l channel s c pool w in
        elim (Bool-cases (leb_ℤ opts.reacquire_after (pos failures))) [
          | inl y ↦ rw y (
              continue_ends (relisten_on_fresh env l channel s c pool w).0
                (on_fresh env l channel opts next b) _ e
                (λ r. on_fresh_ends r _ (omega (arith, p, q))))
          | inr f ↦ rw f (ih failures s w p)
        ]

    relisten_answered_ends :
        (failures : ℕ) (s : Session) (r : ℤ × Option Err) (w : World)
        → m ≤ length w.trace
        → (relisten_answered env l channel opts next c failures b s r w).0 ≢ no_fuel
    unfolding relisten_answered
    relisten_answered_ends failures s (k, none) w p = λ e. cc e
    relisten_answered_ends failures s (k, some x) w p =
        reacquire_ends (suc failures) s l.pool
          (push (log_warn "database re-listen attempt failed") w) (omega (arith, p))

    slept_ends :
        (failures : ℕ) (s : Session) (w : World)
        → m ≤ length w.trace
        → (sleep_answered env l channel opts next c failures b s false w).0 ≢ no_fuel
    unfolding sleep_answered
    slept_ends failures s w p =
        let r = execute_context env c.ctx c (listen_sql channel) [] w in
        let (e, q) = execute_ends env l channel c w in
        continue_ends r.0 (relisten_answered env l channel opts next c failures b s) r.1 e
          (λ a. relisten_answered_ends failures s a r.1 (omega (arith, p, q)))

  relisten_ends :
      (fuel : ℕ) (c : Conn) (backoff : ℤ) (failures : ℕ) (s : Session) (w : World)
      → 1 ≤ fuel
      → n < fuel + length w.trace
      → (relisten env l channel opts fuel c backoff failures s w).0 ≢ no_fuel
  unfolding relisten sleep_answered
  relisten_ends zero c backoff failures s w one p = omega (arith, one)
  relisten_ends (suc fuel) c backoff failures s w one p =
      let b = next_backoff opts backoff in
      let v = push (sleep_backoff backoff) w in
      elim (Bool-cases (l.stopped v.trace)) [
        | inl y ↦ rw y (λ e. cc e)
        | inr f ↦
            let going = going_on v.trace f in
            rw f (
              slept_ends (relisten env l channel opts fuel c b) c b (length v.trace)
                (λ k s u q.
                  relisten_ends fuel c b k s u (omega (arith, going, p)) (omega (arith, p, q)))
                failures s v (omega arith))
      ]

  module _ (reconnect : Bool) where
    module _ (again : M (Option ℤ × Session)) (next : ℤ → Session → M Session) (s : Session)
        (backoff : ℤ) (m : ℕ)
        (ih : (b : ℤ) (s : Session) (w : World) → m ≤ length w.trace → (next b s w).0 ≢ no_fuel)
        (inner : (w : World)
          → m ≤ length w.trace
          → ((again w).0 ≢ no_fuel) × (length w.trace ≤ length (again w).1.trace)) where
      resumed_ends :
          (r : Option ℤ × Session) (w : World)
          → m ≤ length w.trace
          → (resumed env l channel opts reconnect next r w).0 ≢ no_fuel
      unfolding resumed
      resumed_ends (none, s) w p = λ e. cc e
      resumed_ends (some b, s) w p = ih b s w p

      failed_ends :
          (w : World)
          → m ≤ length w.trace
          → (failed env l channel opts reconnect again next s w).0 ≢ no_fuel
      unfolding failed
      failed_ends w p =
          let v = push (log_warn "database listen failed; scheduling re-listen") w in
          let (e, q) = inner v (omega (arith, p)) in
          elim (Bool-cases (l.stopped w.trace)) [
            | inl y ↦ rw y (λ e. cc e)
            | inr f ↦ rw f (elim (Bool-cases reconnect) [
              | inr off ↦ rw off (λ e. cc e)
              | inl on ↦ rw on (
                  continue_ends (again v).0 (resumed env l channel opts reconnect next) _ e
                    (λ r. resumed_ends r _ (omega (arith, p, q))))
            ])
          ]

      received_ends :
          (reply : Reply (Option Text)) (w : World)
          → m ≤ length w.trace
          → (received env l channel opts reconnect again next backoff s reply w).0 ≢ no_fuel
      unfolding received
      received_ends (ok (some payload)) w p =
          ih opts.retry_delay s (push (go_handler payload) w) (omega (arith, p))
      received_ends (ok none) w p = ih opts.retry_delay s w p
      received_ends (err x) w p = elim (Bool-cases (is x deadline_exceeded || is x canceled)) [
        | inl y ↦ rw y (ih backoff s w p)
        | inr f ↦ rw f (failed_ends w p)
      ]

    round_ends :
        (again : M (Option ℤ × Session)) (next : ℤ → Session → M Session) (s : Session)
        (backoff : ℤ) (stored : Option Err) (w : World)
        → (l.stopped w.trace ≡ false
            → (reply : Reply (Option Text)) (h : Handle) (ctx : Ctx)
            → (received env l channel opts reconnect again next backoff s reply
                (push (wait_notification h ctx) w)).0
              ≢ no_fuel)
        → (round env l channel opts reconnect again next backoff s stored w).0 ≢ no_fuel
    unfolding round
    round_ends again next s backoff (some x) w h = λ e. cc e
    round_ends again next s backoff none w h = elim (Bool-cases (l.stopped w.trace)) [
      | inl y ↦ rw y (λ e. cc e)
      | inr f ↦ rw f (h f _ s.waiter (with_timeout s.cur.ctx (pos 1000000000)))
    ]

    relisten_bounded :
        (fuel : ℕ) (backoff : ℤ) (s : Session) (w : World)
        → 1 ≤ fuel
        → n < fuel + length w.trace
        → let r = relisten env l channel opts fuel s.cur backoff 0 s w in
          (r.0 ≢ no_fuel) × (length w.trace ≤ length r.1.trace)
    relisten_bounded fuel backoff s w one p =
        let again = relisten env l channel opts fuel s.cur backoff 0 s in
        (
          relisten_ends fuel s.cur backoff 0 s w one p,
          Left-long (length w.trace) (λ (r : Option ℤ × Session). held r.1.replacement) (again w).0
              (again w).1.trace
              ((relisten-Kept (long-Kept env l (length w.trace)) (free_Rule env opts) channel fuel
                  s.cur backoff 0 s tt).kept
                w (omega arith)),
        )

    -- If every select finds stopCh closed once the trace has `n` events, the loop comes to its end before
    -- it has used more fuel than those events, whatever the server, the hooks and the clock do.
    pub listen_loop-ends :
        (fuel : ℕ) (backoff : ℤ) (s : Session) (w : World)
        → 1 ≤ fuel
        → n < fuel + length w.trace
        → (listen_loop env l channel opts reconnect fuel backoff s w).0 ≢ no_fuel
    unfolding listen_loop
    listen_loop-ends zero backoff s w one p = omega (arith, one)
    listen_loop-ends (suc fuel) backoff s w one p =
        let again = relisten env l channel opts fuel s.cur backoff 0 s in
        let next = listen_loop env l channel opts reconnect fuel in
        round_ends again next s backoff _ w (λ f reply h ctx.
          let going = going_on w.trace f in
          received_ends again next s backoff (suc (length w.trace))
            (λ b s u q. listen_loop-ends fuel b s u (omega (arith, going, p)) (omega (arith, p, q)))
            (λ u q.
              relisten_bounded fuel backoff s u (omega (arith, going, p)) (omega (arith, p, q)))
            reply (push (wait_notification h ctx) w) (omega arith))
