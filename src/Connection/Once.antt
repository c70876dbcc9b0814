-- ===== src/Connection/Once.antt =====
-- Operations on a pinned connection and in a transaction are never retried.
use hellnet_lib_database.Prelude.{◌≡◌, false, List}
use hellnet_lib_database.Text.{Text}
use hellnet_lib_database.World.{Value, Env}
use hellnet_lib_database.Core.{Conn, Mapper}
use hellnet_lib_database.Core.Sent.{at_most, Sends}
use hellnet_lib_database.Core.Once.{
  execute_context-Runs, run_query-Runs, run_query_row-Runs, run_scalar-Runs,
}
use hellnet_lib_database.Database.{Span, with_span}
use hellnet_lib_database.Connection.{
  Pinned, tx_execute, tx_query, tx_query_row, tx_scalar, conn_execute, conn_query, conn_query_row,
  conn_scalar,
}

module _ (env : Env) (span : Span) (sql : Text) (args : List Value) {T : Type 0}
    (mapper : Mapper T) where
  -- Without a telemetry client, an operation in a transaction ends, and sends its statement at most
  -- once, whatever the server and the hooks do.
  pub tx-Sends :
      (tx : Conn)
      → tx.ops ≡ false
      → Sends 1 (tx_execute env span sql args tx)
        × Sends 1 (tx_query env span sql args mapper tx)
        × Sends 1 (tx_query_row env span sql args mapper tx)
        × Sends 1 (tx_scalar env span sql args mapper tx)
  unfolding tx_execute tx_query tx_query_row tx_scalar with_span
  tx-Sends tx h = simp h (
    execute_context-Runs at_most env tx.ctx tx sql args,
    run_query-Runs at_most env tx.ctx tx sql args mapper,
    run_query_row-Runs at_most env tx.ctx tx sql args mapper,
    run_scalar-Runs at_most env tx.ctx tx sql args mapper,
  )

  -- The same holds of an operation on a pinned connection.
  pub conn-Sends :
      (c : Pinned)
      → c.conn.ops ≡ false
      → Sends 1 (conn_execute env span sql args c)
        × Sends 1 (conn_query env span sql args mapper c)
        × Sends 1 (conn_query_row env span sql args mapper c)
        × Sends 1 (conn_scalar env span sql args mapper c)
  unfolding conn_execute conn_query conn_query_row conn_scalar with_span
  conn-Sends c h = simp h (
    execute_context-Runs at_most env c.conn.ctx c.conn sql args,
    run_query-Runs at_most env c.conn.ctx c.conn sql args mapper,
    run_query_row-Runs at_most env c.conn.ctx c.conn sql args mapper,
    run_scalar-Runs at_most env c.conn.ctx c.conn sql args mapper,
  )
