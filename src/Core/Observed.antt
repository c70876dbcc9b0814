-- ===== src/Core/Observed.antt =====
-- The hooks around each typed operation.
pub mod Queries
use hellnet_lib_database.Prelude.{
  ◌≡◌, refl, Bool, true, false, Option, none, some, List, [], ◌∷◌, length, inl, inr, Bool-cases,
}
use hellnet_lib_database.Prelude.Int.{ℤ, pos}
use hellnet_lib_database.Text.{Text}
use hellnet_lib_database.Errors.{Err, no_rows, is}
use hellnet_lib_database.World.{
  Value, Handle, Ctx, with_timeout, Op, op_query, op_query_row, op_scalar, op_exec, query,
  query_row, collect_rows, collect_one_row, scan, exec, Event, Env, World, Reply, ok, err, push,
}
use hellnet_lib_database.Core.{Conn, attached, fire_before_context, rows_unknown, Mapper}
use hellnet_lib_database.Core.Operations.{
  run_query_context, rows_replied, rows_collected, run_query_row_context, row_replied,
  row_collected, run_scalar_context, execute_context, exec_replied,
}
use hellnet_lib_database.Core.HookCalls.{marks, Observed}
use hellnet_lib_database.Core.HookCalls.Passes.{fire_before_context-Passed, finish-Observed}

-- the row count that hooks are told for a result of Query, and of QueryRow
abbrev pub query_count : {T : Type 0} → List T × Option Err → ℤ
query_count (out, none) = pos (length out)
query_count (out, some e) = rows_unknown

abbrev pub row_count : {T : Type 0} → (T × Bool) × Option Err → ℤ
row_count ((out, true), none) = pos 1
row_count ((out, false), none) = pos 0
row_count (_, some e) = rows_unknown

abbrev pub exec_count : ℤ × Option Err → ℤ
exec_count (n, none) = n
exec_count (n, some e) = rows_unknown

-- the statement of a query, of a scalar, and of Execute
abbrev pub query_sent : Ctx → Conn → Text → List Value → Event
query_sent parent c sql args = query c.r (with_timeout parent c.o.command_timeout) sql args

abbrev pub row_sent : Ctx → Conn → Text → List Value → Event
row_sent parent c sql args = query_row c.r (with_timeout parent c.o.command_timeout) sql args

abbrev pub exec_sent : Ctx → Conn → Text → List Value → Event
exec_sent parent c sql args = exec c.r (with_timeout parent c.o.command_timeout) sql args

module _ (env : Env) (parent : Ctx) (c : Conn) (sql : Text) (args : List Value)
    (logged : c.obs ≡ attached) where
  exec_replied-Observed :
      (reply : Reply ℤ) (w w' : World)
      → marks w'.trace
        ≡ exec_sent parent c sql args
          ∷ marks (fire_before_context env parent c op_exec sql args w).1.trace
      → w'.registry ≡ (fire_before_context env parent c op_exec sql args w).1.registry
      → (out : ℤ × Option Err) × Observed c op_exec sql args
          (exec_sent parent c sql args)
          (exec_replied env parent c sql args reply w')
          w
          out
          out.1
          (exec_count out)
  unfolding exec_replied
  exec_replied-Observed (err e) w w' t g = (
    (pos 0, some e),
    finish-Observed env parent c logged op_exec sql args (exec_sent parent c sql args) (some e)
        rows_unknown _ w w' t g,
  )
  exec_replied-Observed (ok n) w w' t g = (
    (n, none),
    finish-Observed env parent c logged op_exec sql args (exec_sent parent c sql args) none n _ w w'
        t g,
  )

  -- On a connection with its logger, Execute calls every registered hook once, then sends its statement and no
  -- other, then calls every hook once more, each time in the order of the registry, whatever the driver answers
  -- and whichever hooks panic; the second call carries the error that Execute returns, or the number of
  -- affected rows.
  pub execute-Observed :
      (w : World)
      → (out : ℤ × Option Err) × Observed c op_exec sql args
          (exec_sent parent c sql args)
          (execute_context env parent c sql args w)
          w
          out
          out.1
          (exec_count out)
  unfolding execute_context
  execute-Observed w =
      let (r, _, _) = fire_before_context-Passed env parent c logged op_exec sql args w in
      rw r (
        exec_replied-Observed _ w
          (push (exec c.r (with_timeout parent c.o.command_timeout) sql args)
            (fire_before_context env parent c op_exec sql args w).1)
          refl refl)
