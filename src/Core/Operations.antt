-- ===== src/Core/Operations.antt =====
-- The typed operations of database/core.go: runQuery, runQueryRow, runScalar and Execute.
use hellnet_lib_database.Prelude.{
  Bool, true, false, Option, none, some, List, [], length, if◌then◌else◌,
}
use hellnet_lib_database.Prelude.Int.{ℤ, pos}
use hellnet_lib_database.Text.{Text}
use hellnet_lib_database.Errors.{Err, no_rows, is}
use hellnet_lib_database.World.{
  Value, Handle, Ctx, with_timeout, op_query, op_query_row, op_scalar, op_exec, exec, query,
  query_row, collect_rows, collect_one_row, scan, Reply, ok, err, Env,
}
use hellnet_lib_database.World.Exec.{M, ◌>>=◌, ◌>>◌, emit, ask}
use hellnet_lib_database.Core.{Conn, rows_unknown, Mapper, fire_before_context, finish}

module _ (env : Env) where
  module _ {T : Type 0} (mapper : Mapper T) (parent : Ctx) (c : Conn) (sql : Text)
      (args : List Value) where
    unfoldable pub rows_collected : List T × Option Err → M (List T × Option Err)
    rows_collected (out, some e) =
        finish env parent c op_query sql args (some e) rows_unknown (out, some e)
    rows_collected (out, none) =
        finish env parent c op_query sql args none (pos (length out)) (out, none)

    unfoldable pub rows_replied : Reply Handle → M (List T × Option Err)
    rows_replied (err e) = finish env parent c op_query sql args (some e) rows_unknown ([], some e)
    rows_replied (ok rows) = ask (λ w. mapper.rows w.trace) (collect_rows rows) >>= rows_collected

    -- runQueryContext
    unfoldable pub run_query_context : M (List T × Option Err)
    run_query_context = do
      fire_before_context env parent c op_query sql args
      reply ←
          ask (λ w. env.handle w.trace)
            (query c.r (with_timeout parent c.o.command_timeout) sql args)
      rows_replied reply

    unfoldable pub row_collected : T × Option Err → M ((T × Bool) × Option Err)
    row_collected (value, none) =
        finish env parent c op_query_row sql args none (pos 1) ((value, true), none)
    row_collected (value, some e) =
        if is e no_rows
        then finish env parent c op_query_row sql args none (pos 0)
            ((mapper.zero_value, false), none)
        else finish env parent c op_query_row sql args (some e) rows_unknown
            ((mapper.zero_value, false), some e)

    unfoldable pub row_replied : Reply Handle → M ((T × Bool) × Option Err)
    row_replied (err e) =
        finish env parent c op_query_row sql args (some e) rows_unknown
          ((mapper.zero_value, false), some e)
    row_replied (ok rows) =
        ask (λ w. mapper.one_row w.trace) (collect_one_row rows) >>= row_collected

    -- runQueryRowContext
    unfoldable pub run_query_row_context : M ((T × Bool) × Option Err)
    run_query_row_context = do
      fire_before_context env parent c op_query_row sql args
      reply ←
          ask (λ w. env.handle w.trace)
            (query c.r (with_timeout parent c.o.command_timeout) sql args)
      row_replied reply

    -- runScalarContext
    unfoldable pub run_scalar_context : M (T × Option Err)
    run_scalar_context = do
      fire_before_context env parent c op_scalar sql args
      emit (query_row c.r (with_timeout parent c.o.command_timeout) sql args)
      r ← ask (λ w. mapper.scanned w.trace) (scan c.r)
      finish env parent c op_scalar sql args r.1 rows_unknown r

  module _ (parent : Ctx) (c : Conn) (sql : Text) (args : List Value) where
    unfoldable pub exec_replied : Reply ℤ → M (ℤ × Option Err)
    exec_replied (err e) =
        finish env parent c op_exec sql args (some e) rows_unknown (pos 0, some e)
    exec_replied (ok n) = finish env parent c op_exec sql args none n (n, none)

    -- (*conn).ExecuteContext
    unfoldable pub execute_context : M (ℤ × Option Err)
    execute_context = do
      fire_before_context env parent c op_exec sql args
      reply ←
          ask (λ w. env.rows_affected w.trace)
            (exec c.r (with_timeout parent c.o.command_timeout) sql args)
      exec_replied reply

  -- runQuery, runQueryRow, runScalar and (*conn).Execute, with the connection's own context
  abbrev pub run_query :
      {T : Type 0} → Mapper T → Conn → Text → List Value → M (List T × Option Err)
  run_query mapper c = run_query_context mapper c.ctx c

  abbrev pub run_query_row :
      {T : Type 0} → Mapper T → Conn → Text → List Value → M ((T × Bool) × Option Err)
  run_query_row mapper c = run_query_row_context mapper c.ctx c

  abbrev pub run_scalar : {T : Type 0} → Mapper T → Conn → Text → List Value → M (T × Option Err)
  run_scalar mapper c = run_scalar_context mapper c.ctx c

  abbrev pub execute : Conn → Text → List Value → M (ℤ × Option Err)
  execute c = execute_context c.ctx c
