-- ===== src/View.antt =====
-- database/view.go: a view of a DB with its own command timeout. A view that is not nil, of a DB
-- that is not nil, is a record here; `none` is any other, which the operations refuse.
pub mod Statement
use hellnet_lib_database.Prelude.{Bool, true, false, Option, none, some, List, [], if◌then◌else◌}
use hellnet_lib_database.Prelude.Int.{ℤ, pos, ltb_ℤ}
use hellnet_lib_database.Text.{Text}
use hellnet_lib_database.Errors.{Err, sentinel, invalid_view}
use hellnet_lib_database.World.{Value, Reply, ok, err, Env, log_warn}
use hellnet_lib_database.World.Exec.{M, pure, ◌>>=◌, ◌>>◌, emit}
use hellnet_lib_database.Resilience.{retried, do_retry}
use hellnet_lib_database.Core.{Conn, unset, Mapper}
use hellnet_lib_database.Core.Operations.{
  run_query_context, run_query_row_context, run_scalar_context, execute_context,
}
use hellnet_lib_database.Database.{Db}

-- minCommandTimeout
abbrev pub min_command_timeout : ℤ
min_command_timeout = pos 50000000

-- DBView
pub record View : Type 0 where
  pub db : Db
  pub cmd_timeout : ℤ

-- WithCommandTimeout
unfoldable pub with_command_timeout : Db → ℤ → M View
with_command_timeout db d =
    if ltb_ℤ d min_command_timeout
    then (do
      emit (log_warn "database clamping command timeout to minimum")
      pure (record { db = db; cmd_timeout = min_command_timeout }))
    else pure (record { db = db; cmd_timeout = d })

-- CommandTimeout
unfoldable pub command_timeout : Option View → ℤ
command_timeout none = pos 0
command_timeout (some v) = v.cmd_timeout

-- the connection of a valid view: hooks, telemetry and observability keep their zero values
unfoldable pub conn_of : View → Conn
conn_of v =
    let parent = v.db.conn in
    record {
      r = parent.r;
      o = record parent.o { command_timeout = v.cmd_timeout };
      ctx = parent.ctx;
      hooks = none;
      ops = false;
      obs = unset;
    }

-- (*DBView).conn
unfoldable pub view_conn : Option View → Reply Conn
view_conn none = err (sentinel invalid_view)
view_conn (some v) = ok (conn_of v)

abbrev on_view :
    {A : Type 0} → A → Option View → (View → Conn → M (A × Option Err)) → M (A × Option Err)
on_view zero_value none run = pure (zero_value, some (sentinel invalid_view))
on_view zero_value (some v) run = run v (conn_of v)

module _ (env : Env) where
  -- (*DBView).Execute
  unfoldable pub view_execute : Option View → Text → List Value → M (ℤ × Option Err)
  view_execute view sql args =
      on_view (pos 0) view
        (λ v c. retried env v.db.retry v.db.conn.ctx (execute_context env c.ctx c sql args))

  -- ViewQuery
  unfoldable pub view_query :
      {T : Type 0} → Mapper T → Option View → Text → List Value → M (List T × Option Err)
  view_query mapper view sql args =
      on_view [] view (λ v c.
        retried env v.db.retry v.db.conn.ctx (run_query_context env mapper c.ctx c sql args))

  -- ViewQueryRow
  unfoldable pub view_query_row :
      {T : Type 0} → Mapper T → Option View → Text → List Value → M ((T × Bool) × Option Err)
  view_query_row mapper view sql args =
      on_view (mapper.zero_value, false) view
        (λ v c.
          do_retry env v.db.retry v.db.conn.ctx (run_query_row_context env mapper c.ctx c sql args))

  -- ViewScalar
  unfoldable pub view_scalar :
      {T : Type 0} → Mapper T → Option View → Text → List Value → M (T × Option Err)
  view_scalar mapper view sql args =
      on_view mapper.zero_value view (λ v c.
        retried env v.db.retry v.db.conn.ctx (run_scalar_context env mapper c.ctx c sql args))
