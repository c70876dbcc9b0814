-- ===== src/Listen/Run.antt =====
-- A whole listener, from `listen` to the end of stopFn: what it keeps, and that it returns.
use hellnet_lib_database.Prelude.{ℕ, refl, Bool, Option, none, some, List, []}
use hellnet_lib_database.Prelude.Int.{ℤ}
use hellnet_lib_database.Text.{Text}
use hellnet_lib_database.Errors.{Err}
use hellnet_lib_database.World.{
  Handle, Trace, exec, Reply, ok, err, Env, World, push, Outcome, ret, panics, no_fuel,
}
use hellnet_lib_database.World.Exec.{continue}
use hellnet_lib_database.Core.{Conn}
use hellnet_lib_database.Core.Operations.{execute_context}
use hellnet_lib_database.Connection.{Pinned}
use hellnet_lib_database.Transaction.{rollback_ctx}
use hellnet_lib_database.Listen.{
  ListenOptions, Surroundings, Session, listen_sql, unlisten_sql, release_old, release_replacement,
  listen_checked, listen_answered, listen_allowed, listen, stop,
}
use hellnet_lib_database.Listen.Loop.{listen_loop, listened, run_listener}
use hellnet_lib_database.Listen.Kept.{Kept, Keeps, Left, held, pure-Keeps, bind-Keeps, execute-Kept}
use hellnet_lib_database.Listen.Returns.{
  Rule, Sound, continue-Sound, execute-Sound, release_old-ret, Good,
}
use hellnet_lib_database.Listen.Returns.Loop.{listen_loop-Sound}
use hellnet_lib_database.Listen.Invariant.{session_held, listen_loop-Kept}

abbrev pub started_held : Reply Session → List Handle
started_held (ok s) = session_held s
started_held (err e) = []

module _ {env : Env} {l : Surroundings} {D : ℤ → Type 0} {P : List Handle → Trace → Type 0}
    (k : Kept env l D P) (channel : Text) where
  listen_answered-Kept :
      (c : Conn) (waiter : Handle) (r : ℤ × Option Err)
      → Keeps P [] started_held (listen_answered env l channel c waiter r)
  unfolding listen_answered
  listen_answered-Kept c waiter (n, some e) = pure-Keeps started_held _
  listen_answered-Kept c waiter (n, none) =
      pure-Keeps started_held (ok (record { cur = c; waiter = waiter; replacement = none }))

  listen_allowed-Kept :
      (c : Conn) (reply : Reply Handle)
      → Keeps P [] started_held (listen_allowed env l channel c reply)
  unfolding listen_allowed
  listen_allowed-Kept c (err e) = pure-Keeps started_held (err e)
  listen_allowed-Kept c (ok waiter) =
      bind-Keeps [] (λ _. []) started_held _ _ (execute-Kept k [] c (listen_sql channel))
        (listen_answered-Kept c waiter)

  release_replacement-Kept :
      (s : Session) → Keeps P (session_held s) (λ _. []) (release_replacement s)
  unfolding release_replacement
  release_replacement-Kept s =
      bind-Keeps (session_held s) (λ _. []) (λ _. []) _ _ (old s.replacement)
        (λ _. pure-Keeps (λ _. []) _)
    where
      old : (o : Option Handle) → Keeps P (held o) (λ _. []) (release_old o)
      old none = record { kept = λ w p. unfold release_old in p }
      old (some h) = record { kept = λ w p. unfold release_old in k.returned h [] w.trace p }

  stop-Kept :
      (c : Pinned) (s : Session) → Keeps P (session_held s) (λ _. []) (stop env l channel c s)
  unfolding stop
  stop-Kept c s = record {
    kept = λ w p.
        let ctx = rollback_ctx env c.conn.ctx c.conn.o w in
        let e = exec s.cur.r ctx (unlisten_sql channel) [] in
        (bind-Keeps (session_held s) (λ _. []) (λ _. []) (release_replacement s) _
            (release_replacement-Kept s) (λ s'. pure-Keeps (λ _. []) _)).kept
          (push e w) (k.grow.sent e w.trace refl (session_held s) p);
  }

module _ {env : Env} {opts : ListenOptions} {crash : Type 0} {D : ℤ → Type 0} {G : Conn → Type 0}
    (rule : Rule env opts crash D G) (l : Surroundings) (channel : Text) (reconnect : Bool)
    (fuel : ℕ) (c : Pinned) (good : G c.conn) where
  abbrev Started : Reply Session → Type 0
  Started (ok s) = G s.cur
  Started (err e) = Unit

  listen_answered-Sound :
      (waiter : Handle) (r : ℤ × Option Err) (w : World)
      → Sound crash Started (listen_answered env l channel c.conn waiter r w).0
  unfolding listen_answered Sound
  listen_answered-Sound waiter (n, some e) w = tt
  listen_answered-Sound waiter (n, none) w = good

  listen_allowed-Sound :
      (reply : Reply Handle) (w : World)
      → Sound crash Started (listen_allowed env l channel c.conn reply w).0
  unfolding listen_allowed Sound
  listen_allowed-Sound (err e) w = tt
  listen_allowed-Sound (ok waiter) w =
      let r = execute_context env c.conn.ctx c.conn (listen_sql channel) [] w in
      continue-Sound crash (λ _. Unit) Started r.0 (listen_answered env l channel c.conn waiter) r.1
        (execute-Sound rule l channel c.conn w good) (λ a _ v. listen_answered-Sound waiter a v)

  stop_returns : (s : Session) (w : World) → Sound crash (λ _. Unit) (stop env l channel c s w).0
  unfolding stop release_replacement Sound
  stop_returns s w = rw (release_old-ret s.replacement _) tt

  listened-Sound :
      (reply : Reply Session) (w : World)
      → Started reply
      → Sound crash (λ _. Unit) (listened env l channel opts reconnect fuel c reply w).0
  unfolding listened Sound
  listened-Sound (err e) w g = tt
  listened-Sound (ok s) w g =
      let r = listen_loop env l channel opts reconnect fuel opts.retry_delay s w in
      continue-Sound crash (Good rule l channel) (λ _. Unit) r.0 _ r.1
        (listen_loop-Sound rule l channel reconnect fuel opts.retry_delay s w rule.first g)
        (λ s' _ v.
          let q = stop env l channel c s' v in
          continue-Sound crash (λ _. Unit) (λ _. Unit) q.0 _ q.1 (stop_returns s' v) (λ a _ u. tt))

  pub run_listener-Sound :
      (handled : Bool) (w : World)
      → Sound crash (λ _. Unit) (run_listener env l channel opts reconnect fuel c handled w).0
  unfolding run_listener listen
  run_listener-Sound handled w =
      let reply = listen_checked env l channel c handled w in
      let r = listen_allowed env l channel c.conn reply w in
      continue-Sound crash Started (λ _. Unit) r.0 (listened env l channel opts reconnect fuel c)
        r.1 (listen_allowed-Sound reply w) (λ a g v. listened-Sound a v g)

  module _ {P : List Handle → Trace → Type 0} (k : Kept env l D P) where
    listened-Kept :
        (reply : Reply Session)
        → Started reply
        → Keeps P
            (started_held reply)
            (λ _. [])
            (listened env l channel opts reconnect fuel c reply)
    unfolding listened
    listened-Kept (err e) g = pure-Keeps (λ _. []) _
    listened-Kept (ok s) g =
        bind-Keeps _ session_held (λ _. []) _ _
          (listen_loop-Kept k rule channel reconnect fuel opts.retry_delay s rule.first g)
          (λ s'.
            bind-Keeps _ (λ _. []) (λ _. []) _ _ (stop-Kept k channel c s')
              (λ r. pure-Keeps (λ _. []) _))

    continued-Kept :
        (o : Outcome (Reply Session)) (w : World)
        → Left P started_held o w.trace
        → Sound crash Started o
        → let r = continue o (listened env l channel opts reconnect fuel c) w in
          Left P (λ _. []) r.0 r.1.trace
    unfolding Sound
    continued-Kept (ret reply) w p g = (listened-Kept reply g).kept w p
    continued-Kept (panics x) w p g = p
    continued-Kept no_fuel w p g = p

    -- a listener that holds nothing at its start holds nothing at its end
    pub run_listener-Kept :
        (handled : Bool)
        → Keeps P [] (λ _. []) (run_listener env l channel opts reconnect fuel c handled)
    unfolding run_listener listen
    run_listener-Kept handled = record {
      kept = λ w p.
          let reply = listen_checked env l channel c handled w in
          let r = listen_allowed env l channel c.conn reply w in
          continued-Kept r.0 r.1 ((listen_allowed-Kept k channel c.conn reply).kept w p)
            (listen_allowed-Sound reply w);
    }
