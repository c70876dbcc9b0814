-- ===== src/Core/Once.antt =====
-- Each operation of a connection ends, and sends at most one statement.
use hellnet_lib_database.Prelude.{ℕ, refl, Option, none, some, List, Bool-cases, inl, inr}
use hellnet_lib_database.Prelude.Int.{ℤ}
use hellnet_lib_database.Text.{Text}
use hellnet_lib_database.Errors.{Err, is, no_rows}
use hellnet_lib_database.World.{
  Value, Trace, Handle, Ctx, op_exec, op_query, op_query_row, op_scalar, Env, Reply, ok, err, exec,
  query, query_row, scan, collect_rows, collect_one_row, with_timeout,
}
use hellnet_lib_database.Core.{Conn, Mapper, rows_unknown}
use hellnet_lib_database.Core.Operations.{
  exec_replied, execute_context, rows_collected, rows_replied, run_query_context, row_collected,
  row_replied, run_query_row_context, run_scalar_context,
}
use hellnet_lib_database.Core.Growth.{
  Growth, Runs, bind-Runs, ask-Runs, ask_quiet-Runs, fire_before_context-Runs, finish-Runs,
}

module _ {R : ℕ → Trace → Trace → Type 0} (g : Growth R) (env : Env) (ctx : Ctx) (c : Conn)
    (sql : Text) (args : List Value) where
  exec_replied-Runs : (reply : Reply ℤ) → Runs R 0 (exec_replied env ctx c sql args reply)
  unfolding exec_replied
  exec_replied-Runs (err e) = finish-Runs g env ctx c op_exec sql args (some e) rows_unknown _
  exec_replied-Runs (ok n) = finish-Runs g env ctx c op_exec sql args none n _

  pub execute_context-Runs : Runs R 1 (execute_context env ctx c sql args)
  unfolding execute_context
  execute_context-Runs =
      bind-Runs g 0 1 _ _ (fire_before_context-Runs g env ctx c op_exec sql args) (λ _.
        bind-Runs g 1 0 _ _
          (ask-Runs g (λ w. env.rows_affected w.trace)
            (exec c.r (with_timeout ctx c.o.command_timeout) sql args) refl)
          exec_replied-Runs)

  module _ {T : Type 0} (mapper : Mapper T) where
    rows_collected-Runs :
        (r : List T × Option Err) → Runs R 0 (rows_collected env mapper ctx c sql args r)
    unfolding rows_collected
    rows_collected-Runs (out, some e) =
        finish-Runs g env ctx c op_query sql args (some e) rows_unknown _
    rows_collected-Runs (out, none) = finish-Runs g env ctx c op_query sql args none _ _

    rows_replied-Runs :
        (reply : Reply Handle) → Runs R 0 (rows_replied env mapper ctx c sql args reply)
    unfolding rows_replied
    rows_replied-Runs (err e) = finish-Runs g env ctx c op_query sql args (some e) rows_unknown _
    rows_replied-Runs (ok rows) =
        bind-Runs g 0 0 _ _ (ask_quiet-Runs g (λ w. mapper.rows w.trace) (collect_rows rows) refl)
          rows_collected-Runs

    pub run_query-Runs : Runs R 1 (run_query_context env mapper ctx c sql args)
    unfolding run_query_context
    run_query-Runs =
        bind-Runs g 0 1 _ _ (fire_before_context-Runs g env ctx c op_query sql args) (λ _.
          bind-Runs g 1 0 _ _
            (ask-Runs g (λ w. env.handle w.trace)
              (query c.r (with_timeout ctx c.o.command_timeout) sql args) refl)
            rows_replied-Runs)

    row_collected-Runs : (r : T × Option Err) → Runs R 0 (row_collected env mapper ctx c sql args r)
    unfolding row_collected
    row_collected-Runs (value, none) = finish-Runs g env ctx c op_query_row sql args none _ _
    row_collected-Runs (value, some e) = elim (Bool-cases (is e no_rows)) [
      | inl y ↦ rw y (finish-Runs g env ctx c op_query_row sql args none _ _)
      | inr n ↦ rw n (finish-Runs g env ctx c op_query_row sql args (some e) _ _)
    ]

    row_replied-Runs :
        (reply : Reply Handle) → Runs R 0 (row_replied env mapper ctx c sql args reply)
    unfolding row_replied
    row_replied-Runs (err e) = finish-Runs g env ctx c op_query_row sql args (some e) rows_unknown _
    row_replied-Runs (ok rows) =
        bind-Runs g 0 0 _ _
          (ask_quiet-Runs g (λ w. mapper.one_row w.trace) (collect_one_row rows) refl)
          row_collected-Runs

    pub run_query_row-Runs : Runs R 1 (run_query_row_context env mapper ctx c sql args)
    unfolding run_query_row_context
    run_query_row-Runs =
        bind-Runs g 0 1 _ _ (fire_before_context-Runs g env ctx c op_query_row sql args) (λ _.
          bind-Runs g 1 0 _ _
            (ask-Runs g (λ w. env.handle w.trace)
              (query c.r (with_timeout ctx c.o.command_timeout) sql args) refl)
            row_replied-Runs)

    pub run_scalar-Runs : Runs R 1 (run_scalar_context env mapper ctx c sql args)
    unfolding run_scalar_context
    run_scalar-Runs =
        bind-Runs g 0 1 _ _ (fire_before_context-Runs g env ctx c op_scalar sql args) (λ _.
          bind-Runs g 1 0 _ _
            (ask-Runs g (λ _. tt) (query_row c.r (with_timeout ctx c.o.command_timeout) sql args)
              refl)
            (λ _.
              bind-Runs g 0 0 _ _ (ask_quiet-Runs g (λ w. mapper.scanned w.trace) (scan c.r) refl)
                (λ r. finish-Runs g env ctx c op_scalar sql args r.1 rows_unknown r)))
