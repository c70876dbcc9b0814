-- ===== src/Database/Attempts.antt =====
-- How many statements an operation of DB sends.
use hellnet_lib_database.Prelude.{
  ℕ, suc, ◌+◌, ◌≤◌, ◌≡◌, refl, false, Option, none, some, List, String, arith, if◌then◌else◌,
}
use hellnet_lib_database.Prelude.Int.{pos_part}
use hellnet_lib_database.Text.{Text}
use hellnet_lib_database.Errors.{Err}
use hellnet_lib_database.World.{
  Value, Ctx, in_span, start_span, push, World, Env, Outcome, ret, panics, no_fuel,
}
use hellnet_lib_database.World.Exec.{M, ◌>>◌}
use hellnet_lib_database.Resilience.{RetryPolicy, do_retry, retried}
use hellnet_lib_database.Resilience.Count.{count, count-do_retry}
use hellnet_lib_database.Core.{Mapper, Observability, unset, attached}
use hellnet_lib_database.Core.Operations.{
  execute_context, run_query_context, run_query_row_context, run_scalar_context,
}
use hellnet_lib_database.Core.Sent.{at_most, Sends}
use hellnet_lib_database.Core.Growth.{is_statement}
use hellnet_lib_database.Core.Once.{
  execute_context-Runs, run_query-Runs, run_query_row-Runs, run_scalar-Runs,
}
use hellnet_lib_database.Database.{
  Db, Span, with_span, db_execute, db_query, db_query_row, db_scalar, start, traced, observed_as,
  db_execute_context, db_query_context, db_query_row_context, db_scalar_context,
}

-- how often a policy allows a statement to be sent
abbrev pub allowed : RetryPolicy → ℕ
allowed p = if p.enabled then suc (pos_part p.max_count) else 1

-- the call, begun in `w`, sent at most as many statements as the policy allows
abbrev pub Bounded : {A : Type 0} → RetryPolicy → World → Outcome A × World → Type 0
Bounded p w r = count is_statement r.1.trace ≤ count is_statement w.trace + allowed p

do_retry-Bounded :
    {T : Type 0} (env : Env) (p : RetryPolicy) (ctx : Ctx) (fn : M (T × Option Err))
    → Sends 1 fn
    → (w : World) → Bounded p w (do_retry env p ctx fn w)
do_retry-Bounded env p ctx fn s w =
    count-do_retry env p ctx fn is_statement (λ _. refl, refl, λ _ _. refl)
      (λ v. omega (arith, (s.ended v).1)) (λ v. (s.ended v).0) w

observed-Bounded :
    {A : Type 0} (env : Env) (span : Span) (p : RetryPolicy) (name : String) (w : World)
    (r : Outcome (A × Option Err) × World)
    → Bounded p w r
    → Bounded p w (observed_as env span name r)
unfolding observed_as
observed-Bounded env span p name w (ret (out, none), v) h = h
observed-Bounded env span p name w (ret (out, some e), v) h = h
observed-Bounded env span p name w (panics x, v) h = h
observed-Bounded env span p name w (no_fuel, v) h = h

traced-Bounded :
    {A : Type 0} (env : Env) (span : Span) (db : Db) (ctx : Ctx) (span_name name : String)
    (fn : M (A × Option Err))
    → Sends 1 fn
    → (w : World)
    → Bounded db.retry w (traced env span db span_name name (do_retry env db.retry ctx fn) w)
unfolding traced start
traced-Bounded env span db ctx span_name name fn s w = by_obs db.conn.obs
  where
    by_obs :
        (obs : Observability)
        → Bounded db.retry w (
            (start env span obs span_name >> λ v.
            observed_as env span name (do_retry env db.retry ctx fn v))
              w)
    by_obs unset = omega arith
    by_obs attached =
        let v = push (start_span span_name) w in
        observed-Bounded env span db.retry name w (do_retry env db.retry ctx fn v)
          (do_retry-Bounded env db.retry ctx fn s v)

module _ (env : Env) (span : Span) {T : Type 0} (mapper : Mapper T) (db : Db) (sql : Text)
    (args : List Value) where
  -- Without a telemetry client, an operation of DB sends its statement at most max_count + 1 times
  -- if retries are enabled and once if not, whatever the server and the hooks do.
  statements-Bounded :
      (w : World)
      → db.conn.ops ≡ false
      → Bounded db.retry w (db_execute env span db sql args w)
        × Bounded db.retry w (db_query env span mapper db sql args w)
        × Bounded db.retry w (db_query_row env span mapper db sql args w)
        × Bounded db.retry w (db_scalar env span mapper db sql args w)
  unfolding db_execute db_query db_query_row db_scalar with_span retried
  statements-Bounded w h = simp h (
    do_retry-Bounded env db.retry db.conn.ctx _
        (execute_context-Runs at_most env db.conn.ctx db.conn sql args) w,
    do_retry-Bounded env db.retry db.conn.ctx _
        (run_query-Runs at_most env db.conn.ctx db.conn sql args mapper) w,
    do_retry-Bounded env db.retry db.conn.ctx _
        (run_query_row-Runs at_most env db.conn.ctx db.conn sql args mapper) w,
    do_retry-Bounded env db.retry db.conn.ctx _
        (run_scalar-Runs at_most env db.conn.ctx db.conn sql args mapper) w,
  )

  -- An operation that takes a context is bounded in the same way, with a telemetry client or not.
  pub statements_context-Bounded :
      (ctx : Ctx) (w : World)
      → Bounded db.retry w (db_execute_context env span db ctx sql args w)
        × Bounded db.retry w (db_query_context env span mapper db ctx sql args w)
        × Bounded db.retry w (db_query_row_context env span mapper db ctx sql args w)
        × Bounded db.retry w (db_scalar_context env span mapper db ctx sql args w)
  unfolding db_execute_context db_query_context db_query_row_context db_scalar_context retried
  statements_context-Bounded ctx w = (
    traced-Bounded env span db (in_span ctx) "db.execute" "execute"
        (execute_context env (in_span ctx) db.conn sql args)
        (execute_context-Runs at_most env (in_span ctx) db.conn sql args) w,
    traced-Bounded env span db (in_span ctx) "db.query" "query"
        (run_query_context env mapper (in_span ctx) db.conn sql args)
        (run_query-Runs at_most env (in_span ctx) db.conn sql args mapper) w,
    traced-Bounded env span db (in_span ctx) "db.query" "query"
        (run_query_row_context env mapper (in_span ctx) db.conn sql args)
        (run_query_row-Runs at_most env (in_span ctx) db.conn sql args mapper) w,
    traced-Bounded env span db (in_span ctx) "db.scalar" "scalar"
        (run_scalar_context env mapper (in_span ctx) db.conn sql args)
        (run_scalar-Runs at_most env (in_span ctx) db.conn sql args mapper) w,
  )
