-- ===== src/Connection.antt =====
-- database/connection.go, and the operations of Tx in database/transaction.go. Both run on a
-- connection of database/core.go and never retry. Connect, which opens a link outside the pool, is
-- the driver's work; a connection that it made is one whose closer is `close_link`.
pub mod Lifecycle
pub mod Once
pub mod Transactional
use hellnet_lib_database.Prelude.{
  ℕ, zero, suc, Bool, true, false, Option, none, some, List, [], ◌∷◌, if◌then◌else◌,
}
use hellnet_lib_database.Prelude.Int.{ℤ}
use hellnet_lib_database.Text.{Text}
use hellnet_lib_database.Errors.{Err, errorf, wrapf}
use hellnet_lib_database.World.{
  Value, Handle, Ctx, with_timeout, acquire as acquire_event, release_conn, close_conn, begin,
  commit_tx, rollback_tx, observe_acquire, Reply, ok, err, Env, World,
}
use hellnet_lib_database.World.Exec.{M, pure, ◌>>=◌, ◌>>◌, emit, ask}
use hellnet_lib_database.Hooks.{observed}
use hellnet_lib_database.Core.{Conn, derive, registry_of, Mapper}
use hellnet_lib_database.Core.Operations.{
  run_query_context, run_query_row_context, run_scalar_context, execute_context,
}
use hellnet_lib_database.Database.{Db, Span, with_span}

-- closeFn: Release of a pooled connection, or Close of a link
pub data Closer : Type 0 where
  release close_link : Handle → Closer

-- Conn, with the driver's connection that beginFn begins on
pub record Pinned : Type 0 where
  pub conn : Conn
  pub session : Handle
  pub closer : Option Closer

-- observeAcquire, on a collector that may be nil
unfoldable pub count_acquire : Option ℕ → M (Unit {0})
count_acquire none = pure tt
count_acquire (some m) = emit (observe_acquire m)

module _ (env : Env) where
  unfoldable pub acquired : Db → Reply Handle → M (Reply Pinned)
  unfolding count_acquire
  acquired db (err e) w = pure (err (wrapf "database: acquire connection: %w" [] e)) w
  acquired db (ok h) w =
      (count_acquire (observed (registry_of db.conn w))
          >> pure (ok (record { conn = derive db.conn h; session = h; closer = some (release h) })))
        w

  -- Acquire, of a pool that supports it or not
  unfoldable pub acquire : (Handle → Bool) → Db → M (Reply Pinned)
  unfolding acquired
  acquire supports db =
      if supports db.pool
      then (do
        reply ←
            ask (λ w. env.handle w.trace)
              (acquire_event db.pool (with_timeout db.conn.ctx db.conn.o.connection_timeout))
        acquired db reply)
      else pure (err (errorf "database: pool does not support Acquire" []))

  -- the call of closeFn
  unfoldable pub run_closer : Ctx → Closer → M (Option Err)
  run_closer ctx (release h) = do emit (release_conn h); pure none
  run_closer ctx (close_link h) = ask (λ w. env.failure w.trace) (close_conn h ctx)

  -- (*Conn).Close, which resets closeFn before it calls it
  unfoldable pub close : Pinned → M (Option Err × Pinned)
  close c = elim c.closer [
    | none ↦ pure (none, c)
    | some k ↦ do e ← run_closer c.conn.ctx k; pure (e, record c { closer = none })
  ]

  -- `n` calls of Close
  unfoldable pub closes : ℕ → Pinned → M Pinned
  unfolding close
  closes zero c = pure c
  closes (suc n) c = do r ← close c; closes n r.1

  unfoldable pub begun_on : Pinned → Reply Handle → Reply Conn
  begun_on c (err e) = err (wrapf "database: begin on connection: %w" [] e)
  begun_on c (ok h) = ok (derive c.conn h)

  -- (*Conn).Begin
  unfoldable pub begin_tx : Pinned → M (Reply Conn)
  unfolding begun_on
  begin_tx c = do
    reply ←
        ask (λ w. env.handle w.trace)
          (begin c.session none (with_timeout c.conn.ctx c.conn.o.connection_timeout))
    pure (begun_on c reply)

  -- (*Tx).Commit and (*Tx).Rollback, where `is_tx` says which runners are a pgx.Tx
  unfoldable pub tx_commit : (Handle → Bool) → Conn → M (Option Err)
  tx_commit is_tx tx =
      if is_tx tx.r
      then ask (λ w. env.failure w.trace)
          (commit_tx tx.r (with_timeout tx.ctx tx.o.command_timeout))
      else pure (some (errorf "database: connection does not support commit" []))

  unfoldable pub tx_rollback : (Handle → Bool) → Conn → M (Option Err)
  tx_rollback is_tx tx =
      if is_tx tx.r
      then ask (λ w. env.failure w.trace)
          (rollback_tx tx.r (with_timeout tx.ctx tx.o.command_timeout))
      else pure (some (errorf "database: connection does not support rollback" []))

  module _ (span : Span) (sql : Text) (args : List Value) where
    -- (*Tx).Execute and (*Tx).ExecuteContext
    unfoldable pub tx_execute : Conn → M (ℤ × Option Err)
    tx_execute tx = with_span env span tx "db.execute" (execute_context env tx.ctx tx sql args)

    unfoldable pub tx_execute_context : Ctx → Conn → M (ℤ × Option Err)
    tx_execute_context ctx tx = execute_context env ctx tx sql args

    -- (*Conn).Execute and (*Conn).ExecuteContext
    unfoldable pub conn_execute : Pinned → M (ℤ × Option Err)
    conn_execute c =
        with_span env span c.conn "db.execute" (execute_context env c.conn.ctx c.conn sql args)

    unfoldable pub conn_execute_context : Ctx → Pinned → M (ℤ × Option Err)
    conn_execute_context ctx c = execute_context env ctx c.conn sql args

    module _ {T : Type 0} (mapper : Mapper T) where
      -- TxQuery, TxQueryRow and TxScalar
      unfoldable pub tx_query : Conn → M (List T × Option Err)
      tx_query tx =
          with_span env span tx "db.query" (run_query_context env mapper tx.ctx tx sql args)

      unfoldable pub tx_query_row : Conn → M ((T × Bool) × Option Err)
      tx_query_row tx =
          with_span env span tx "db.query" (run_query_row_context env mapper tx.ctx tx sql args)

      unfoldable pub tx_scalar : Conn → M (T × Option Err)
      tx_scalar tx =
          with_span env span tx "db.query" (run_scalar_context env mapper tx.ctx tx sql args)

      -- ConnQuery, ConnQueryRow and ConnScalar
      unfoldable pub conn_query : Pinned → M (List T × Option Err)
      conn_query c =
          with_span env span c.conn "db.query"
            (run_query_context env mapper c.conn.ctx c.conn sql args)

      unfoldable pub conn_query_row : Pinned → M ((T × Bool) × Option Err)
      conn_query_row c =
          with_span env span c.conn "db.query"
            (run_query_row_context env mapper c.conn.ctx c.conn sql args)

      unfoldable pub conn_scalar : Pinned → M (T × Option Err)
      conn_scalar c =
          with_span env span c.conn "db.query"
            (run_scalar_context env mapper c.conn.ctx c.conn sql args)

      -- the operations of Tx and Conn that take a context
      unfoldable pub tx_query_context : Ctx → Conn → M (List T × Option Err)
      tx_query_context ctx tx = run_query_context env mapper ctx tx sql args

      unfoldable pub tx_query_row_context : Ctx → Conn → M ((T × Bool) × Option Err)
      tx_query_row_context ctx tx = run_query_row_context env mapper ctx tx sql args

      unfoldable pub tx_scalar_context : Ctx → Conn → M (T × Option Err)
      tx_scalar_context ctx tx = run_scalar_context env mapper ctx tx sql args

      unfoldable pub conn_query_context : Ctx → Pinned → M (List T × Option Err)
      conn_query_context ctx c = run_query_context env mapper ctx c.conn sql args

      unfoldable pub conn_query_row_context : Ctx → Pinned → M ((T × Bool) × Option Err)
      conn_query_row_context ctx c = run_query_row_context env mapper ctx c.conn sql args

      unfoldable pub conn_scalar_context : Ctx → Pinned → M (T × Option Err)
      conn_scalar_context ctx c = run_scalar_context env mapper ctx c.conn sql args
