-- ===== src/Database/Rounds/Operations.antt =====
-- The operations of DB, attempt by attempt, for the hooks and for the spans.
use hellnet_lib_database.Prelude.{
  ℕ, ◌≤◌, ◌≡◌, refl, ap, Bool, true, false, Option, none, some, List, ◌∷◌, String,
}
use hellnet_lib_database.Prelude.Int.{ℤ}
use hellnet_lib_database.Text.{Text}
use hellnet_lib_database.Errors.{Err}
use hellnet_lib_database.World.{
  Value, Ctx, in_span, Op, op_query, op_query_row, op_scalar, op_exec, Event, Trace, Env, World,
  Outcome, ret, panics, no_fuel, push, start_span, span_error, span_status, end_span,
  observe_operation,
}
use hellnet_lib_database.World.Exec.{M}
use hellnet_lib_database.Hooks.{snapshot}
use hellnet_lib_database.Resilience.{do_retry, retried}
use hellnet_lib_database.Core.{attached, registry_of, rows_unknown, Mapper}
use hellnet_lib_database.Core.HookCalls.{marks, Observed}
use hellnet_lib_database.Core.Observed.{
  query_count, row_count, exec_count, query_sent, row_sent, exec_sent, execute-Observed,
}
use hellnet_lib_database.Core.Observed.Queries.{
  run_query-Observed, run_query_row-Observed, run_scalar-Observed,
}
use hellnet_lib_database.Database.{
  Db, Span, with_span, start, traced, observed_as, db_execute, db_query, db_query_row, db_scalar,
  db_execute_context, db_query_context, db_query_row_context, db_scalar_context,
}
use hellnet_lib_database.Database.Attempts.{allowed}
use hellnet_lib_database.Database.Rounds.{Rounds, do_retry-Rounds}

-- the operation, begun in `w`, ended as `r` in rounds that its policy allows
abbrev pub Ran :
    {T : Type 0}
    → Db
    → Op
    → Text
    → List Value
    → Event
    → (T × Option Err → ℤ)
    → World
    → Outcome (T × Option Err) × World
    → Type 0
Ran {T} db op sql args statement rows_of w r =
    (n : ℕ) × (n ≤ allowed db.retry)
    × ((out : T × Option Err) × Rounds db.retry db.conn op sql args
          (snapshot (registry_of db.conn w)) statement rows_of n (marks w.trace) r (marks r.1.trace)
          out)

row_count_blind :
    {T : Type 0} (out : T × Bool) (e s : Err) → row_count (out, some e) ≡ row_count (out, some s)
row_count_blind (v, true) e s = refl
row_count_blind (v, false) e s = refl

-- the end of a span around `t`, of an operation that returned the error `e` or none
abbrev pub closed : String → Option Err → Trace → Trace
closed name none t = end_span ∷ observe_operation name false ∷ t
closed name (some e) t = end_span ∷ observe_operation name true ∷ span_status e ∷ span_error e ∷ t

-- The operation, begun in `w`, started one span, ran in rounds that its policy allows, and then ended the span.
abbrev pub RanTraced :
    {T : Type 0}
    → Db
    → String
    → String
    → Op
    → Text
    → List Value
    → Event
    → (T × Option Err → ℤ)
    → World
    → Outcome (T × Option Err) × World
    → Type 0
RanTraced {T} db span_name name op sql args statement rows_of w r =
    (n : ℕ) × (n ≤ allowed db.retry)
    × ((out : T × Option Err) × (t : Trace) × Rounds db.retry db.conn op sql args
          (snapshot (registry_of db.conn w)) statement rows_of n
          (start_span span_name ∷ marks w.trace) r t out
        × (marks r.1.trace ≡ closed name out.1 t))

module _ (env : Env) (span : Span) where
  observed_as-closed :
      {A : Type 0} (name : String) (r : Outcome (A × Option Err) × World) (out : A × Option Err)
      → r.0 ≡ ret out
      → ((observed_as env span name r).0 ≡ ret out)
        × (marks (observed_as env span name r).1.trace ≡ closed name out.1 (marks r.1.trace))
  unfolding observed_as
  observed_as-closed {A} name (ret (o, none), v) out h =
      let e : ◌≡◌ {A = A × Option Err} (o, none) out = cc in
      (h, ap (λ (q : A × Option Err). closed name q.1 (marks v.trace)) e)
  observed_as-closed {A} name (ret (o, some x), v) out h =
      let e : ◌≡◌ {A = A × Option Err} (o, some x) out = cc in
      (h, ap (λ (q : A × Option Err). closed name q.1 (marks v.trace)) e)
  observed_as-closed name (panics x, v) out h = absurd (cc h)
  observed_as-closed name (no_fuel, v) out h = absurd (cc h)

  module _ {T : Type 0} (db : Db) (logged : db.conn.obs ≡ attached) (op : Op) (sql : Text)
      (args : List Value) (statement : Event) (rows_of : T × Option Err → ℤ)
      (blind : (out : T) (e s : Err) → rows_of (out, some e) ≡ rows_of (out, some s)) (ctx : Ctx)
      (fn : M (T × Option Err))
      (observes : (w : World)
        → (out : T × Option Err) × Observed db.conn op sql args statement
            (fn w)
            w
            out
            out.1
            (rows_of out)) where
    started :
        (span_name name : String) (w : World)
        → traced env span db span_name name (do_retry env db.retry ctx fn) w
          ≡ observed_as env span name (do_retry env db.retry ctx fn (push (start_span span_name) w))
    unfolding traced start
    started span_name name w = rw logged refl

    traced-Ran :
        (span_name name : String) (w : World)
        → RanTraced db span_name name op sql args statement rows_of w
            (traced env span db span_name name (do_retry env db.retry ctx fn) w)
    unfolding registry_of
    traced-Ran span_name name w =
        let v = push (start_span span_name) w in
        let (n, bound, (out, (r, more))) =
          do_retry-Rounds env db.conn op sql args statement rows_of blind db.retry ctx fn observes
            v in
        let (r', end) = observed_as-closed name (do_retry env db.retry ctx fn v) out r in
        rw (started span_name name w)
          (n, bound, (out, marks (do_retry env db.retry ctx fn v).1.trace, (r', more), end))

  module _ {T : Type 0} (mapper : Mapper T) (db : Db) (logged : db.conn.obs ≡ attached) (sql : Text)
      (args : List Value) where
    pub operations-Ran :
        (w : World)
        → db.conn.ops ≡ false
        → Ran db op_exec sql args
            (exec_sent db.conn.ctx db.conn sql args)
            exec_count
            w
            (db_execute env span db sql args w)
          × Ran db op_query sql args
              (query_sent db.conn.ctx db.conn sql args)
              query_count
              w
              (db_query env span mapper db sql args w)
          × Ran db op_query_row sql args
              (query_sent db.conn.ctx db.conn sql args)
              row_count
              w
              (db_query_row env span mapper db sql args w)
          × Ran db op_scalar sql args
              (row_sent db.conn.ctx db.conn sql args)
              (λ _. rows_unknown)
              w
              (db_scalar env span mapper db sql args w)
    unfolding db_execute db_query db_query_row db_scalar with_span retried
    operations-Ran w h = simp h (
      do_retry-Rounds env db.conn op_exec sql args _ exec_count (λ _ _ _. refl) db.retry db.conn.ctx
          _ (execute-Observed env db.conn.ctx db.conn sql args logged) w,
      do_retry-Rounds env db.conn op_query sql args _ query_count (λ _ _ _. refl) db.retry
          db.conn.ctx _ (run_query-Observed env mapper db.conn.ctx db.conn sql args logged) w,
      do_retry-Rounds env db.conn op_query_row sql args _ row_count row_count_blind db.retry
          db.conn.ctx _ (run_query_row-Observed env mapper db.conn.ctx db.conn sql args logged) w,
      do_retry-Rounds env db.conn op_scalar sql args _ (λ _. rows_unknown) (λ _ _ _. refl) db.retry
          db.conn.ctx _ (run_scalar-Observed env mapper db.conn.ctx db.conn sql args logged) w,
    )

    -- On a DB with its logger, an operation that takes a context starts one span, makes its attempts within it,
    -- each with its hooks as an operation without a context does, and ends the span, after the error that it
    -- returns, if any, was recorded on it and its duration was observed as a success or a failure.
    pub operations-RanTraced :
        (ctx : Ctx) (w : World)
        → let c = in_span ctx in
          RanTraced db "db.execute" "execute" op_exec sql args
            (exec_sent c db.conn sql args)
            exec_count
            w
            (db_execute_context env span db ctx sql args w)
          × RanTraced db "db.query" "query" op_query sql args
              (query_sent c db.conn sql args)
              query_count
              w
              (db_query_context env span mapper db ctx sql args w)
          × RanTraced db "db.query" "query" op_query_row sql args
              (query_sent c db.conn sql args)
              row_count
              w
              (db_query_row_context env span mapper db ctx sql args w)
          × RanTraced db "db.scalar" "scalar" op_scalar sql args
              (row_sent c db.conn sql args)
              (λ _. rows_unknown)
              w
              (db_scalar_context env span mapper db ctx sql args w)
    unfolding db_execute_context db_query_context db_query_row_context db_scalar_context retried
    operations-RanTraced ctx w =
        let c = in_span ctx in
        (
          traced-Ran db logged op_exec sql args _ exec_count (λ _ _ _. refl) c _
              (execute-Observed env c db.conn sql args logged) "db.execute" "execute" w,
          traced-Ran db logged op_query sql args _ query_count (λ _ _ _. refl) c _
              (run_query-Observed env mapper c db.conn sql args logged) "db.query" "query" w,
          traced-Ran db logged op_query_row sql args _ row_count row_count_blind c _
              (run_query_row-Observed env mapper c db.conn sql args logged) "db.query" "query" w,
          traced-Ran db logged op_scalar sql args _ (λ _. rows_unknown) (λ _ _ _. refl) c _
              (run_scalar-Observed env mapper c db.conn sql args logged) "db.scalar" "scalar" w,
        )
