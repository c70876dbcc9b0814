-- ===== src/Listen/Setup.antt =====
-- What a listener sends before its loop starts, and when it is stopped twice.
use hellnet_lib_database.Prelude.{
  ◌≡◌, refl, ◌⊎◌, inl, inr, Bool, true, false, Option, none, some, [], ◌∷◌, Bool-cases,
}
use hellnet_lib_database.Prelude.Int.{ℤ}
use hellnet_lib_database.Text.{Text}
use hellnet_lib_database.Errors.{Err, errorf}
use hellnet_lib_database.World.{
  Handle, Ctx, exec, release_conn, Reply, ok, err, Reply-cases, Env, World, Outcome, ret, panics,
  no_fuel, push,
}
use hellnet_lib_database.World.Exec.{continue, ◌>>=◌}
use hellnet_lib_database.Core.{Conn}
use hellnet_lib_database.Core.Operations.{execute_context}
use hellnet_lib_database.Connection.{Pinned}
use hellnet_lib_database.Transaction.{rollback_ctx}
use hellnet_lib_database.Listen.{
  Surroundings, Session, RunnerKind, native, pooled, plain, is_channel, validate_channel,
  resolve_listen_backend, listen_sql, unlisten_sql, setup_checked, release_old, release_replacement,
  listen_checked, listen_answered, listen_allowed, listen, stop,
}

module _ (env : Env) (l : Surroundings) (channel : Text) where
  answered_world :
      (c : Conn) (waiter : Handle) (o : Outcome (ℤ × Option Err)) (w : World)
      → (continue o (listen_answered env l channel c waiter) w).1 ≡ w
  unfolding listen_answered
  answered_world c waiter (ret (n, some e)) w = refl
  answered_world c waiter (ret (n, none)) w = refl
  answered_world c waiter (panics x) w = refl
  answered_world c waiter no_fuel w = refl

  -- what `listen` needs before it sends anything
  abbrev Ready : Pinned → Bool → World → Type 0
  Ready c handled w =
      (is_channel channel ≡ true) × (handled ≡ true) × (env.ctx_err c.conn.ctx w.trace ≡ none)

  setup_checked-ok :
      (invalid : Option Err) (handled : Bool) (backend : Reply Handle) (done : Option Err)
      (waiter : Handle)
      → setup_checked env l channel invalid handled backend done ≡ ok waiter
      → (invalid ≡ none) × (handled ≡ true) × (backend ≡ ok waiter) × (done ≡ none)
  unfolding setup_checked
  setup_checked-ok (some e) _ _ _ waiter h = cc h
  setup_checked-ok none false _ _ waiter h = cc h
  setup_checked-ok none true (err e) _ waiter h = cc h
  setup_checked-ok none true (ok v) (some e) waiter h = cc h
  setup_checked-ok none true (ok v) none waiter h = (refl, refl, h, refl)

  validate_channel-none : validate_channel channel ≡ none → is_channel channel ≡ true
  unfolding validate_channel
  validate_channel-none h = elim (Bool-cases (is_channel channel)) [
    | inl y ↦ y
    | inr f ↦ let q = rw f at h in cc q
  ]

  -- the connection is one of pgx, or holds one, so that it can wait for notifications
  abbrev pub CanWait : RunnerKind → Type 0
  CanWait native = Unit {0}
  CanWait (pooled inner) = Unit {0}
  CanWait plain = ⊥

  resolved-CanWait :
      (r waiter : Handle) → resolve_listen_backend l.kind r ≡ ok waiter → CanWait (l.kind r)
  unfolding resolve_listen_backend
  resolved-CanWait r waiter h = by_kind (l.kind r) h
    where
      by_kind :
          (k : RunnerKind)
          → (elim k as (λ _. Reply Handle) [
            | native ↦ ok r
            | pooled inner ↦ ok inner
            | plain ↦ err (errorf "database: this connection does not support LISTEN" [])
          ])
            ≡ ok waiter
          → CanWait k
      by_kind native e = tt
      by_kind (pooled inner) e = tt
      by_kind plain e = absurd (cc e)

  -- A listener refuses an invalid channel, a nil handler, a connection that cannot wait for notifications
  -- and a context that is done, each with an error and with nothing sent; otherwise the channel is a word
  -- of letters, digits and _, the handler is not nil, the connection can wait, its context is not done,
  -- and what `listen` does is to execute LISTEN for the channel.
  pub listen-safe :
      (c : Pinned) (handled : Bool) (w : World)
      → ((e : Err) × (listen env l channel c handled w ≡ (ret (err e), w)))
        ⊎ ((is_channel channel ≡ true)
            × (handled ≡ true)
            × (env.ctx_err c.conn.ctx w.trace ≡ none)
            × CanWait (l.kind c.conn.r)
            × ((listen env l channel c handled w).1
                ≡ (execute_context env c.conn.ctx c.conn (listen_sql channel) [] w).1))
  unfolding listen listen_allowed listen_checked
  listen-safe c handled w = elim (Reply-cases (listen_checked env l channel c handled w)) [
    | inr (e, h) ↦ inl (e, rw h refl)
    | inl (waiter, h) ↦
        let (v, f, b, d) =
          setup_checked-ok (validate_channel channel) handled
            (resolve_listen_backend l.kind c.conn.r) (env.ctx_err c.conn.ctx w.trace) waiter h in
        inr (
          validate_channel-none v,
          f,
          d,
          resolved-CanWait c.conn.r waiter b,
          rw h (
              let r = execute_context env c.conn.ctx c.conn (listen_sql channel) [] w in
              answered_world c.conn waiter r.0 r.1),
        )
  ]

  -- When the loop of a listener moved to a replacement connection, its stopFn sends UNLISTEN there and
  -- gives the connection back; a second call of stopFn sends UNLISTEN on that connection again, which by
  -- then is not the listener's.
  pub stop-again :
      (c : Pinned) (s : Session) (w : World)
      → s.replacement ≡ some s.cur.r
      → (first second : Ctx) × (((stop env l channel c s >>= λ r. stop env l channel c r.1)
            w).1.trace
          ≡ exec s.cur.r second (unlisten_sql channel) []
            ∷ release_conn s.cur.r
            ∷ exec s.cur.r first (unlisten_sql channel) []
            ∷ w.trace)
  unfolding stop release_replacement release_old
  stop-again c s w h =
      let first = rollback_ctx env c.conn.ctx c.conn.o w in
      let sent = push (exec s.cur.r first (unlisten_sql channel) []) w in
      (first, rollback_ctx env c.conn.ctx c.conn.o (push (release_conn s.cur.r) sent), rw h refl)
