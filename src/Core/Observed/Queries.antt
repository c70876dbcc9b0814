-- ===== src/Core/Observed/Queries.antt =====
-- The hooks around a query, a query of one row and a scalar.
use hellnet_lib_database.Prelude.{
  ◌≡◌, refl, Bool, true, false, Option, none, some, List, [], ◌∷◌, length, inl, inr, Bool-cases,
}
use hellnet_lib_database.Prelude.Int.{pos}
use hellnet_lib_database.Text.{Text}
use hellnet_lib_database.Errors.{Err, no_rows, is}
use hellnet_lib_database.World.{
  Value, Handle, Ctx, with_timeout, Op, op_query, op_query_row, op_scalar, query, query_row,
  collect_rows, collect_one_row, scan, Env, World, Reply, ok, err, push,
}
use hellnet_lib_database.Core.{Conn, attached, fire_before_context, rows_unknown, Mapper}
use hellnet_lib_database.Core.Operations.{
  run_query_context, rows_replied, rows_collected, run_query_row_context, row_replied,
  row_collected, run_scalar_context,
}
use hellnet_lib_database.Core.HookCalls.{marks, Observed}
use hellnet_lib_database.Core.HookCalls.Passes.{fire_before_context-Passed, finish-Observed}
use hellnet_lib_database.Core.Observed.{query_count, row_count, query_sent, row_sent}

module _ (env : Env) {T : Type 0} (mapper : Mapper T) (parent : Ctx) (c : Conn) (sql : Text)
    (args : List Value) (logged : c.obs ≡ attached) where
  abbrev before : Op → World → World
  before op w = (fire_before_context env parent c op sql args w).1

  rows_replied-Observed :
      (reply : Reply Handle) (w w' : World)
      → marks w'.trace ≡ query_sent parent c sql args ∷ marks (before op_query w).trace
      → w'.registry ≡ (before op_query w).registry
      → (out : List T × Option Err) × Observed c op_query sql args
          (query_sent parent c sql args)
          (rows_replied env mapper parent c sql args reply w')
          w
          out
          out.1
          (query_count out)
  unfolding rows_replied rows_collected
  rows_replied-Observed (err e) w w' t g = (
    ([], some e),
    finish-Observed env parent c logged op_query sql args (query_sent parent c sql args) (some e)
        rows_unknown _ w w' t g,
  )
  rows_replied-Observed (ok rows) w w' t g =
      collected (mapper.rows (push (collect_rows rows) w').trace)
    where
      collected :
          (r : List T × Option Err)
          → (out : List T × Option Err) × Observed c op_query sql args
              (query_sent parent c sql args)
              (rows_collected env mapper parent c sql args r (push (collect_rows rows) w'))
              w
              out
              out.1
              (query_count out)
      collected (out, none) = (
        (out, none),
        finish-Observed env parent c logged op_query sql args (query_sent parent c sql args) none
            (pos (length out)) _ w (push (collect_rows rows) w') t g,
      )
      collected (out, some e) = (
        (out, some e),
        finish-Observed env parent c logged op_query sql args (query_sent parent c sql args)
            (some e) rows_unknown _ w (push (collect_rows rows) w') t g,
      )

  -- On a connection with its logger, Query calls every registered hook once before and once after the statement, whatever the driver
  -- answers and whichever hooks panic; the second call carries the error that Query returns, or the
  -- number of its rows.
  pub run_query-Observed :
      (w : World)
      → (out : List T × Option Err) × Observed c op_query sql args
          (query_sent parent c sql args)
          (run_query_context env mapper parent c sql args w)
          w
          out
          out.1
          (query_count out)
  unfolding run_query_context
  run_query-Observed w =
      let (r, _, _) = fire_before_context-Passed env parent c logged op_query sql args w in
      rw r (
        rows_replied-Observed _ w
          (push (query c.r (with_timeout parent c.o.command_timeout) sql args) (before op_query w))
          refl refl)

  row_collected-Observed :
      (r : T × Option Err) (w w' : World)
      → marks w'.trace ≡ query_sent parent c sql args ∷ marks (before op_query_row w).trace
      → w'.registry ≡ (before op_query_row w).registry
      → (out : (T × Bool) × Option Err) × Observed c op_query_row sql args
          (query_sent parent c sql args)
          (row_collected env mapper parent c sql args r w')
          w
          out
          out.1
          (row_count out)
  unfolding row_collected
  row_collected-Observed (value, none) w w' t g = (
    ((value, true), none),
    finish-Observed env parent c logged op_query_row sql args (query_sent parent c sql args) none
        (pos 1) _ w w' t g,
  )
  row_collected-Observed (value, some e) w w' t g = elim (Bool-cases (is e no_rows)) [
    | inl y ↦ rw y (
      ((mapper.zero_value, false), none),
      finish-Observed env parent c logged op_query_row sql args (query_sent parent c sql args) none
          (pos 0) _ w w' t g,
    )
    | inr n ↦ rw n (
      ((mapper.zero_value, false), some e),
      finish-Observed env parent c logged op_query_row sql args (query_sent parent c sql args)
          (some e) rows_unknown _ w w' t g,
    )
  ]

  row_replied-Observed :
      (reply : Reply Handle) (w w' : World)
      → marks w'.trace ≡ query_sent parent c sql args ∷ marks (before op_query_row w).trace
      → w'.registry ≡ (before op_query_row w).registry
      → (out : (T × Bool) × Option Err) × Observed c op_query_row sql args
          (query_sent parent c sql args)
          (row_replied env mapper parent c sql args reply w')
          w
          out
          out.1
          (row_count out)
  unfolding row_replied
  row_replied-Observed (err e) w w' t g = (
    ((mapper.zero_value, false), some e),
    finish-Observed env parent c logged op_query_row sql args (query_sent parent c sql args)
        (some e) rows_unknown _ w w' t g,
  )
  row_replied-Observed (ok rows) w w' t g =
      row_collected-Observed (mapper.one_row (push (collect_one_row rows) w').trace) w
        (push (collect_one_row rows) w') t g

  -- On a connection with its logger, QueryRow calls every registered hook once before and once
  -- after the statement, whatever the driver answers and whichever hooks panic; the second call
  -- carries the error that QueryRow returns, or the number of its rows. An empty result is no error
  -- to the hooks, and counts 0 rows.
  pub run_query_row-Observed :
      (w : World)
      → (out : (T × Bool) × Option Err) × Observed c op_query_row sql args
          (query_sent parent c sql args)
          (run_query_row_context env mapper parent c sql args w)
          w
          out
          out.1
          (row_count out)
  unfolding run_query_row_context
  run_query_row-Observed w =
      let (r, _, _) = fire_before_context-Passed env parent c logged op_query_row sql args w in
      rw r (
        row_replied-Observed _ w
          (push (query c.r (with_timeout parent c.o.command_timeout) sql args)
            (before op_query_row w))
          refl refl)

  -- On a connection with its logger, Scalar calls every registered hook once before and once after
  -- the statement, and never reports a row count.
  pub run_scalar-Observed :
      (w : World)
      → (out : T × Option Err) × Observed c op_scalar sql args
          (row_sent parent c sql args)
          (run_scalar_context env mapper parent c sql args w)
          w
          out
          out.1
          rows_unknown
  unfolding run_scalar_context
  run_scalar-Observed w =
      let (r, _, _) = fire_before_context-Passed env parent c logged op_scalar sql args w in
      let w' = push (scan c.r) (
        push (query_row c.r (with_timeout parent c.o.command_timeout) sql args)
          (before op_scalar w)) in
      let out = mapper.scanned w'.trace in
      rw r (
        out,
        finish-Observed env parent c logged op_scalar sql args (row_sent parent c sql args) out.1
            rows_unknown out w w' refl refl,
      )
