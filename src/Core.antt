-- ===== src/Core.antt =====
-- database/core.go: the connection that DB, Conn and Tx share, and its hooks. Of a
-- derived context its deadline is modelled, its release (`cancel`) is not.
pub mod Operations
pub mod HookCalls
pub mod Observed
pub mod Growth
pub mod Sent
pub mod Once
use hellnet_lib_database.Prelude.{
  ℕ, Bool, true, false, ◌&&◌, String, Option, none, some, List, [], ◌∷◌, length, if◌then◌else◌,
}
use hellnet_lib_database.Prelude.Int.{ℤ, pos, negsuc, ltb_ℤ}
use hellnet_lib_database.Text.{Text}
use hellnet_lib_database.Errors.{Err, no_rows, is}
use hellnet_lib_database.World.{
  Value, Handle, Ctx, with_timeout, without_cancel, Op, op_query, op_query_row, op_scalar, op_exec,
  QueryInfo, Hook, user, collector, Event, exec, query, query_row, collect_rows, collect_one_row,
  scan, before_hook, after_hook, before_query_context, after_query_context, log_warn, Trace, Reply,
  ok, err, Env, Registry, World, Outcome, ret, panics, no_fuel, nil_logger, raised, push,
}
use hellnet_lib_database.World.Exec.{M, pure, throw, continue, ◌>>=◌, ◌>>◌, emit, ask}
use hellnet_lib_database.Options.{Options}
use hellnet_lib_database.Hooks.{snapshot, observed}

-- `observability`: its zero value has a nil logger
pub data Observability : Type 0 where
  unset attached : Observability

-- conn
pub record Conn : Type 0 where
  pub r : Handle
  pub o : Options
  pub ctx : Ctx
  pub hooks : Option ℕ  -- the pointer to the shared registry
  pub ops : Bool  -- a telemetry client is attached
  pub obs : Observability

-- newObservability, which makes providers for a nil instrumentation too
abbrev pub new_observability : Option ℕ → Observability
new_observability inst = attached

-- newConn, with the pointer to the registry that it allocates
abbrev pub new_conn : Handle → Options → Ctx → ℕ → Conn
new_conn r o ctx p = record {
  r = r;
  o = o;
  ctx = ctx;
  hooks = some p;
  ops = false;
  obs = new_observability none;
}

-- derive
abbrev pub derive : Conn → Handle → Conn
derive c r = record { r = r; o = c.o; ctx = c.ctx; hooks = c.hooks; ops = c.ops; obs = c.obs }

-- the registry that a connection points to
unfoldable pub registry_of : Conn → World → Option Registry
registry_of c w = elim c.hooks [ none ↦ none | some p ↦ some (w.registry p) ]

-- visibleArgs
unfoldable pub visible_args : Options → List Value → List Value
visible_args o args = if o.hide_query_args then [] else args

-- c.obs.logger.Warn
unfoldable pub warn_to : Observability → String → M (Unit {0})
warn_to unset message = throw nil_logger
warn_to attached message = emit (log_warn message)

-- freshRollbackCtx
abbrev pub fresh_rollback_ctx : Ctx → Options → Ctx
fresh_rollback_ctx parent o = with_timeout (without_cancel parent) o.command_timeout

-- rowsUnknown
abbrev pub rows_unknown : ℤ
rows_unknown = negsuc 0

-- A deferred `recover` that logs, around one call of a hook.
unfoldable pub recovered : Observability → Outcome (Unit {0}) × World → Outcome (Unit {0}) × World
unfolding warn_to
recovered obs (ret a, w) = (ret a, w)
recovered obs (panics p, w) = warn_to obs "database query hook panicked (recovered)" w
recovered obs (no_fuel, w) = (no_fuel, w)

unfoldable pub hook_loop : Observability → (Hook → M (Unit {0})) → List Hook → M (Unit {0})
unfolding recovered
hook_loop obs fn [] w = (ret tt, w)
hook_loop obs fn (h ∷ hs) w =
    let rest = hook_loop obs fn hs in let r = recovered obs (fn h w) in continue r.0 (λ _. rest) r.1

-- eachHook
unfoldable pub each_hook : Conn → (Hook → M (Unit {0})) → M (Unit {0})
unfolding hook_loop snapshot registry_of
each_hook c fn w = hook_loop c.obs fn (snapshot (registry_of c w)) w

-- how a result set is read into T: pgx.CollectRows, pgx.CollectOneRow and Row.Scan at T
pub record Mapper (T : Type 0) : Type 0 where
  pub zero_value : T
  pub rows : Trace → List T × Option Err
  pub one_row : Trace → T × Option Err
  pub scanned : Trace → T × Option Err

module _ (env : Env) where
  -- a call of application code that may panic
  unfoldable pub hook_call : Event → M (Unit {0})
  hook_call e w =
      if env.hook_panics (push e w).trace then (panics (raised 0), push e w) else (ret tt, push e w)

  abbrev pub if_contextual : Hook → M (Unit {0}) → M (Unit {0})
  if_contextual (user _ true) m = m
  if_contextual (user _ false) m = pure tt
  if_contextual (collector _) m = pure tt

  unfoldable pub call_before : Ctx → QueryInfo → Hook → M (Unit {0})
  unfolding hook_call
  call_before ctx info h =
      hook_call (before_hook h info)
      >> if_contextual h (hook_call (before_query_context h ctx info))

  unfoldable pub call_after : Ctx → QueryInfo → Hook → M (Unit {0})
  unfolding hook_call
  call_after ctx info h =
      hook_call (after_hook h info) >> if_contextual h (hook_call (after_query_context h ctx info))

  -- fireBeforeContext
  unfoldable pub fire_before_context : Ctx → Conn → Op → Text → List Value → M (Unit {0})
  unfolding each_hook call_before
  fire_before_context ctx c op sql args = each_hook c (
      call_before ctx (record {
        op = op;
        sql = sql;
        args = visible_args c.o args;
        duration = 0;
        err = none;
        rows = pos 0;
      }))

  -- fireAfterContext
  unfoldable pub fire_after_context :
      Ctx → Conn → Op → Text → List Value → Option Err → ℤ → M (Unit {0})
  unfolding each_hook call_after
  fire_after_context ctx c op sql args e rows w =
      each_hook c
        (call_after ctx (record {
          op = op;
          sql = sql;
          args = visible_args c.o args;
          duration = env.since w.trace;
          err = e;
          rows = rows;
        }))
        w

  -- fireBefore and fireAfter
  abbrev pub fire_before : Conn → Op → Text → List Value → M (Unit {0})
  fire_before c = fire_before_context c.ctx c

  abbrev pub fire_after : Conn → Op → Text → List Value → Option Err → ℤ → M (Unit {0})
  fire_after c = fire_after_context c.ctx c

  -- track
  unfoldable pub track : Conn → M (Unit {0})
  unfolding warn_to
  track c w =
      if ltb_ℤ (pos 0) c.o.slow_query && ltb_ℤ c.o.slow_query (pos (env.since w.trace))
      then warn_to c.obs "database slow query" w
      else (ret tt, w)

  -- what follows a statement: its diagnostics, its hooks, its result
  unfoldable pub finish :
      {A : Type 0} → Ctx → Conn → Op → Text → List Value → Option Err → ℤ → A → M A
  finish parent c op sql args e rows result = do
    track c
    fire_after_context parent c op sql args e rows
    pure result
