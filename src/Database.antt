-- ===== src/Database.antt =====
-- DB of database/database.go and its context-less operations of database/core.go, which retry. Repositories
-- has the operations of Repository. A telemetry client's Span is not code of the repository: it is the
-- parameter `span`, a function of the traced call and of the variables that this assigns. Of the
-- spans of operations that take a context the calls are modelled, their attributes are not.
pub mod Attempts
pub mod Rounds
pub mod Repositories
use hellnet_lib_database.Prelude.{
  String, Bool, true, false, Option, none, some, List, [], ◌∷◌, if◌then◌else◌,
}
use hellnet_lib_database.Prelude.Int.{ℤ, pos}
use hellnet_lib_database.Text.{Text}
use hellnet_lib_database.Errors.{Err}
use hellnet_lib_database.World.{
  Value, Handle, Ctx, with_timeout, in_span, ping, start_span, span_error, span_status, end_span,
  nil_tracer, observe_operation, Reply, ok, err, Env, Outcome, ret, panics, no_fuel, World, push,
}
use hellnet_lib_database.World.Exec.{M, pure, throw, ◌>>=◌, ◌>>◌, emit, ask}
use hellnet_lib_database.Resilience.{RetryPolicy, do_retry, retried}
use hellnet_lib_database.Options.{Options}
use hellnet_lib_database.Core.{Conn, Mapper, Observability, unset, attached}
use hellnet_lib_database.Core.Operations.{
  run_query_context, run_query_row_context, run_scalar_context, execute_context, run_query,
  run_query_row, run_scalar, execute,
}
use hellnet_lib_database.Repository.Clause.{
  Specification, page_sql, count_sql, find_one_sql, exists_sql,
}
use hellnet_lib_database.Repository.Columns.{ElemType, Entity, columns_of}
use hellnet_lib_database.Repository.Statements.{
  select_all_sql, upsert_statement, update_statement, ensure_table_sql,
}
use hellnet_lib_database.Results.{PageResult}

-- DB
pub record Db : Type 0 where
  pub conn : Conn
  pub pool : Handle
  pub retry : RetryPolicy
  pub pool_metrics : Option Handle

-- (*DB).Options
abbrev pub public_options : Db → Options
public_options db = record db.conn.o { password = [] }

abbrev pub Span : Type 1
Span = (A : Type 0) → String → M (A × Option Err) → M (A × Option Err)

module _ (env : Env) (span : Span) where
  -- withSpan
  unfoldable pub with_span : {A : Type 0} → Conn → String → M (A × Option Err) → M (A × Option Err)
  with_span {A} c name fn = if c.ops then span A name fn else fn

  -- PingContext
  unfoldable pub ping_context : Db → Ctx → M (Option Err)
  ping_context db ctx =
      ask (λ w. env.failure w.trace) (ping db.pool (with_timeout ctx db.conn.o.connection_timeout))

  -- Ping
  abbrev pub ping_base : Db → M (Option Err)
  ping_base db = ping_context db db.conn.ctx

  -- (*DB).Execute
  unfoldable pub db_execute : Db → Text → List Value → M (ℤ × Option Err)
  db_execute db sql args =
      with_span db.conn "db.execute"
        (retried env db.retry db.conn.ctx (execute env db.conn sql args))

  module _ {T : Type 0} (mapper : Mapper T) (db : Db) where
    -- Query
    unfoldable pub db_query : Text → List Value → M (List T × Option Err)
    db_query sql args =
        with_span db.conn "db.query"
          (retried env db.retry db.conn.ctx (run_query env mapper db.conn sql args))

    -- QueryRow
    unfoldable pub db_query_row : Text → List Value → M ((T × Bool) × Option Err)
    db_query_row sql args =
        with_span db.conn "db.query"
          (do_retry env db.retry db.conn.ctx (run_query_row env mapper db.conn sql args))

    -- Scalar
    unfoldable pub db_scalar : Text → List Value → M (T × Option Err)
    db_scalar sql args = retried env db.retry db.conn.ctx (run_scalar env mapper db.conn sql args)

  -- o.tracer.Start, which the zero value of `observability` has not
  unfoldable pub start : Observability → String → M (Unit {0})
  start unset name = throw nil_tracer
  start attached name = emit (start_span name)

  -- The deferred functions of the operations that take a context: RecordError and SetStatus of an error,
  -- observeOperation, and End. A panic leaves `err` nil.
  abbrev failed : Option Err → Bool
  failed none = false
  failed (some e) = true

  abbrev pub recorded : Option Err → World → World
  recorded none w = w
  recorded (some e) w = push (span_status e) (push (span_error e) w)

  unfoldable pub observed_as :
      {A : Type 0} → String → Outcome (A × Option Err) × World → Outcome (A × Option Err) × World
  observed_as name (ret r, w) =
      (ret r, push end_span (push (observe_operation name (failed r.1)) (recorded r.1 w)))
  observed_as name (panics x, w) = (panics x, push end_span (push (observe_operation name false) w))
  observed_as name (no_fuel, w) = (no_fuel, w)

  -- an operation within its span
  unfoldable pub traced :
      {A : Type 0} → Db → String → String → M (A × Option Err) → M (A × Option Err)
  unfolding start observed_as
  traced db span_name name fn = start db.conn.obs span_name >> λ w. observed_as name (fn w)

  -- (*DB).ExecuteContext
  unfoldable pub db_execute_context : Db → Ctx → Text → List Value → M (ℤ × Option Err)
  unfolding traced
  db_execute_context db ctx sql args =
      traced db "db.execute" "execute"
        (retried env db.retry (in_span ctx) (execute_context env (in_span ctx) db.conn sql args))

  module _ {T : Type 0} (mapper : Mapper T) (db : Db) (ctx : Ctx) (sql : Text)
      (args : List Value) where
    -- QueryContext
    unfoldable pub db_query_context : M (List T × Option Err)
    unfolding traced
    db_query_context = traced db "db.query" "query" (
        retried env db.retry (in_span ctx)
          (run_query_context env mapper (in_span ctx) db.conn sql args))

    -- QueryRowContext
    unfoldable pub db_query_row_context : M ((T × Bool) × Option Err)
    unfolding traced
    db_query_row_context = traced db "db.query" "query" (
        do_retry env db.retry (in_span ctx)
          (run_query_row_context env mapper (in_span ctx) db.conn sql args))

    -- ScalarContext
    unfoldable pub db_scalar_context : M (T × Option Err)
    unfolding traced
    db_scalar_context = traced db "db.scalar" "scalar" (
        retried env db.retry (in_span ctx)
          (run_scalar_context env mapper (in_span ctx) db.conn sql args))
