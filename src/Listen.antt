-- ===== src/Listen.antt =====
-- database/listen.go: the channels and options of a listener, its session, and what sets it up, moves it
-- to a fresh connection and stops it. Its loop is in Listen/Loop.antt.
pub mod Loop
pub mod Kept
pub mod Returns
pub mod Stops
pub mod Run
pub mod Loans
pub mod Payloads
pub mod Delays
pub mod Setup
pub mod Shutdown
pub mod Invariant
use hellnet_lib_database.Prelude.{
  ℕ, Bool, true, false, not, Option, none, some, List, [], ◌∷◌, ◌++◌, all, if◌then◌else◌,
}
use hellnet_lib_database.Prelude.Int.{ℤ, pos, leb_ℤ, ltb_ℤ}
use hellnet_lib_database.Text.{Text, codes, is_word}
use hellnet_lib_database.Errors.{Err, errorf, wrapf}
use hellnet_lib_database.World.{
  Value, Handle, Ctx, with_timeout, acquire as acquire_event, release_conn, exec, log_warn, Trace,
  Reply, ok, err, Env, World,
}
use hellnet_lib_database.World.Exec.{M, pure, ◌>>=◌, ◌>>◌, emit, ask}
use hellnet_lib_database.Core.{Conn, derive}
use hellnet_lib_database.Core.Operations.{execute_context}
use hellnet_lib_database.Transaction.{rollback_ctx}
use hellnet_lib_database.Database.{Span}
use hellnet_lib_database.Connection.{Pinned, conn_execute}

-- channelRe: `^[a-zA-Z0-9_]+$`
unfoldable pub is_channel : Text → Bool
is_channel [] = false
is_channel (c ∷ s) = all is_word (c ∷ s)

-- validateChannel
unfoldable pub validate_channel : Text → Option Err
unfolding is_channel
validate_channel channel =
    if not (is_channel channel)
    then some (errorf "database: invalid channel name %q (allowed: [a-zA-Z0-9_]+)" (channel ∷ []))
    else none

-- ListenOptions
pub record ListenOptions : Type 0 where
  pub retry_delay : ℤ
  pub max_backoff : ℤ
  pub reacquire_after : ℤ

-- the zero value, with which Listen runs
abbrev pub no_options : ListenOptions
no_options = record { retry_delay = pos 0; max_backoff = pos 0; reacquire_after = pos 0 }

abbrev pub default_unless_positive : ℤ → ℤ → ℤ
default_unless_positive d n = if leb_ℤ n (pos 0) then d else n

-- normalized
unfoldable pub normalized : ListenOptions → ListenOptions
normalized o =
    let delay = default_unless_positive (pos 500000000) o.retry_delay in
    record {
      retry_delay = delay;
      max_backoff =
          if ltb_ℤ o.max_backoff delay
          then (if ltb_ℤ (pos 5000000000) delay then delay else pos 5000000000)
          else o.max_backoff;
      reacquire_after = default_unless_positive (pos 3) o.reacquire_after;
    }

-- What a runner is: one that waits for notifications itself (*pgx.Conn), one with such a connection
-- inside (*pgxpool.Conn), or neither.
pub data RunnerKind : Type 0 where
  native : RunnerKind
  pooled : Handle → RunnerKind
  plain : RunnerKind

-- What a listener runs against: the kind of each runner, the pool of reacquireFn (none for nil), what a
-- select on stopCh finds after a trace, and what WaitForNotification answered to its newest event.
pub record Surroundings : Type 0 where
  pub kind : Handle → RunnerKind
  pub pool : Option Handle
  pub stopped : Trace → Bool
  pub notification : Trace → Reply (Option Text)

-- resolveListenBackend
unfoldable pub resolve_listen_backend : (Handle → RunnerKind) → Handle → Reply Handle
resolve_listen_backend kind r = elim (kind r) [
  | native ↦ ok r
  | pooled inner ↦ ok inner
  | plain ↦ err (errorf "database: this connection does not support LISTEN" [])
]

-- listenSession, with the connection that its `release` gives back
pub record Session : Type 0 where
  pub cur : Conn
  pub waiter : Handle
  pub replacement : Option Handle

-- listenSQL and unlistenSQL
abbrev pub listen_sql : Text → Text
listen_sql channel = codes "LISTEN " ++ channel

abbrev pub unlisten_sql : Text → Text
unlisten_sql channel = codes "UNLISTEN " ++ channel

-- the call of a `release` that may be nil
unfoldable pub release_old : Option Handle → M (Unit {0})
release_old none = pure tt
release_old (some h) = emit (release_conn h)

-- swap
unfoldable pub swap : Conn → Handle → Session → M Session
unfolding release_old
swap c waiter s = do
  release_old s.replacement
  pure (record { cur = c; waiter = waiter; replacement = some c.r })

-- releaseReplacement
unfoldable pub release_replacement : Session → M Session
unfolding release_old
release_replacement s = do release_old s.replacement; pure (record s { replacement = none })

module _ (env : Env) (l : Surroundings) (channel : Text) where
  module _ (s : Session) where
    -- the answer of LISTEN on the fresh connection
    unfoldable pub fresh_listened : Conn → Handle → ℤ × Option Err → M (Bool × Session)
    unfolding swap
    fresh_listened fresh waiter (n, none) = do s' ← swap fresh waiter s; pure (true, s')
    fresh_listened fresh waiter (n, some e) = do
      emit (release_conn fresh.r)
      emit (log_warn "database re-listen on a fresh connection failed")
      pure (false, s)

    unfoldable pub fresh_resolved : Conn → Reply Handle → M (Bool × Session)
    unfolding fresh_listened
    fresh_resolved fresh (err e) = do
      emit (release_conn fresh.r)
      emit (log_warn "database re-listen on a fresh connection failed")
      pure (false, s)
    fresh_resolved fresh (ok waiter) = do
      r ← execute_context env fresh.ctx fresh (listen_sql channel) []
      fresh_listened fresh waiter r

    unfoldable pub fresh_acquired : Conn → Reply Handle → M (Bool × Session)
    unfolding fresh_resolved resolve_listen_backend
    fresh_acquired from (err e) = do
      emit (log_warn "database re-listen: acquiring a fresh connection failed")
      pure (false, s)
    fresh_acquired from (ok h) = fresh_resolved (derive from h) (resolve_listen_backend l.kind h)

    -- relistenOnFreshConn
    unfoldable pub relisten_on_fresh : Conn → Handle → M (Bool × Session)
    unfolding fresh_acquired
    relisten_on_fresh from pool = do
      reply ←
          ask (λ w. env.handle w.trace)
            (acquire_event pool (with_timeout from.ctx from.o.connection_timeout))
      fresh_acquired from reply

  -- the checks of `listen` before its first statement: the channel, the handler, the backend, the context
  unfoldable pub setup_checked : Option Err → Bool → Reply Handle → Option Err → Reply Handle
  setup_checked (some e) _ _ _ = err e
  setup_checked none false _ _ = err (errorf "database: listen handler must not be nil" [])
  setup_checked none true (err e) _ = err e
  setup_checked none true (ok waiter) (some e) =
      err (wrapf "database: listen %q: stored context is already done: %w" (channel ∷ []) e)
  setup_checked none true (ok waiter) none = ok waiter

  unfoldable pub listen_checked : Pinned → Bool → World → Reply Handle
  unfolding setup_checked validate_channel resolve_listen_backend
  listen_checked c handled w =
      setup_checked (validate_channel channel) handled (resolve_listen_backend l.kind c.conn.r)
        (env.ctx_err c.conn.ctx w.trace)

  unfoldable pub listen_answered : Conn → Handle → ℤ × Option Err → M (Reply Session)
  listen_answered c waiter (n, some e) =
      pure (err (wrapf "database: listen %q: %w" (channel ∷ []) e))
  listen_answered c waiter (n, none) =
      pure (ok (record { cur = c; waiter = waiter; replacement = none }))

  unfoldable pub listen_allowed : Conn → Reply Handle → M (Reply Session)
  unfolding listen_answered
  listen_allowed c (err e) = pure (err e)
  listen_allowed c (ok waiter) = do
    r ← execute_context env c.ctx c (listen_sql channel) []
    listen_answered c waiter r

  -- `listen`, up to the start of its loop
  unfoldable pub listen : Pinned → Bool → M (Reply Session)
  unfolding listen_checked listen_allowed
  listen c handled w = listen_allowed c.conn (listen_checked c handled w) w

  abbrev unlistened : Reply ℤ → Option Err
  unlistened (ok n) = none
  unlistened (err e) = some (wrapf "database: unlisten %q: %w" (channel ∷ []) e)

  -- stopFn, when the loop has come to its end
  unfoldable pub stop : Pinned → Session → M (Option Err × Session)
  unfolding rollback_ctx release_replacement
  stop c s w =
      (do
        reply ←
            ask (λ v. env.rows_affected v.trace)
              (exec s.cur.r (rollback_ctx env c.conn.ctx c.conn.o w) (unlisten_sql channel) [])
        s' ← release_replacement s
        pure (unlistened reply, s'))
        w

  abbrev notified : ℤ × Option Err → Option Err
  notified (n, none) = none
  notified (n, some e) = some (wrapf "database: notify %q: %w" (channel ∷ []) e)

  -- Notify, where `boxed` turns a string into an argument
  unfoldable pub notify : Span → (Text → Value) → Text → Pinned → M (Option Err)
  unfolding validate_channel
  notify span boxed payload c = elim (validate_channel channel) [
    | some e ↦ pure (some e)
    | none ↦ do
      r ←
          conn_execute env span (codes "SELECT pg_notify($1,$2)")
            (boxed channel ∷ boxed payload ∷ []) c
      pure (notified r)
  ]
