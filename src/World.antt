-- ===== src/World.antt =====
-- What the library runs in. Every call that leaves it (a driver, a hook, the logger, a metric, a
-- timer) is an event of the trace, and an oracle `Env` says what comes back after that trace: so a
-- theorem for every `Env` holds whatever the server, the hooks and the clock do. The registries of
-- hooks, which connections share by pointer, are the only mutable store.
pub mod Exec
use hellnet_lib_database.Prelude.{
  ℕ, ◌≡◌, refl, ◌⊎◌, inl, inr, String, ◌==◌, Bool, Option, none, List, [], ◌∷◌, if◌then◌else◌,
}
use hellnet_lib_database.Prelude.Int.{ℤ}
use hellnet_lib_database.Text.{Text}
use hellnet_lib_database.Errors.{Err}

-- a positional argument or a column value, of type `any`
abbrev pub Value : Type 0
Value = ℕ

-- an opaque handle of the driver: a pool, a connection, a transaction, a result set
abbrev pub Handle : Type 0
Handle = ℕ

-- a context.Context by the calls that derived it
pub data Ctx : Type 0 where
  background : Ctx
  caller : ℕ → Ctx
  with_timeout : Ctx → ℤ → Ctx
  with_cancel : Ctx → Ctx
  without_cancel : Ctx → Ctx
  in_span : Ctx → Ctx

-- QueryInfo.Op
pub data Op : Type 0 where
  op_query op_query_row op_scalar op_exec : Op

pub record QueryInfo : Type 0 where
  pub op : Op
  pub sql : Text
  pub args : List Value  -- empty for nil
  pub duration : ℕ
  pub err : Option Err
  pub rows : ℤ

-- A registered QueryHook: the application's, which may be a ContextQueryHook too, or a
-- *MetricsCollector, named by its pointer.
pub data Hook : Type 0 where
  user : ℕ → Bool → Hook
  collector : ℕ → Hook

pub data TxResult : Type 0 where
  commit rollback panic : TxResult

-- the collectors of a MetricsCollector, in the order of Collect
pub data Metric : Type 0 where
  queries_total query_duration pool_acquire_total tx_total rollback_compensations : Metric
  pool_in_use pool_idle pool_max : Metric

pub data Event : Type 0 where
  exec query query_row : Handle → Ctx → Text → List Value → Event
  collect_rows collect_one_row scan : Handle → Event
  begin : Handle → Option Text → Ctx → Event
  acquire close_conn ping : Handle → Ctx → Event
  release_conn : Handle → Event
  copy_from : Handle → Ctx → Text → List Text → List (List Value) → Event
  send_batch : Handle → Ctx → List (Text × List Value) → Event
  batch_exec batch_row batch_close : Handle → Event
  watchdog_stop : Event
  close_rows : Handle → Event
  commit_tx rollback_tx : Handle → Ctx → Event
  before_hook after_hook : Hook → QueryInfo → Event
  before_query_context after_query_context : Hook → Ctx → QueryInfo → Event
  log_warn log_info log_error : String → Event
  start_span : String → Event
  span_error span_status : Err → Event
  end_span : Event
  create_gauge : String → Event
  register_callback : List String → Event
  observe_gauge : String → String → ℤ → Event
  retry_count : Event
  wait : Ctx → ℤ → Event
  wait_notification : Handle → Ctx → Event
  go_handler : Text → Event  -- `go handler(…)`: the start of its goroutine, which runs on its own
  sleep_backoff : ℤ → Event
  record_tx : ℕ → TxResult → Event
  record_compensation : ℕ → Event
  observe_acquire : ℕ → Event
  observe_transaction : TxResult → Event
  observe_operation : String → Bool → Event
  register_metric unregister_metric : ℕ → ℕ → Metric → Event
  inc_query : ℕ → Op → String → Event
  observe_duration : ℕ → Op → ℕ → Event
  pool_stat : Handle → Event
  set_gauge : ℕ → Metric → ℤ → Event
  start_sampler stop_sampler tick : ℕ → Event
  new_pool : Text → ℤ → ℤ → ℤ → Event
  close_pool : Handle → Event
  open_link : Text → ℤ → Ctx → Event
  open_sqlx : Text → ℤ → ℤ → ℤ → Event
  close_sqlx : Handle → Event
  begin_sqlx : Handle → Ctx → ℕ → Event
  unregister_pool_metrics : ℕ → Event

-- newest first
abbrev pub Trace : Type 0
Trace = List Event

-- what a call of a driver returns: a value or an error
pub data Reply {ℓ} (A : Type ℓ) : Type ℓ where
  ok : A → Reply A
  err : Err → Reply A

pub Reply-cases {ℓ} :
    {A : Type ℓ} (r : Reply A) → ((a : A) × (r ≡ ok a)) ⊎ ((e : Err) × (r ≡ err e))
Reply-cases (ok a) = inl (a, refl)
Reply-cases (err e) = inr (e, refl)

-- The answer to the newest event of a trace.
pub record Env : Type 0 where
  pub rows_affected : Trace → Reply ℤ
  pub handle : Trace → Reply Handle
  pub failure : Trace → Option Err
  pub hook_panics : Trace → Bool
  pub since : Trace → ℕ
  pub ctx_err : Ctx → Trace → Option Err

-- hookRegistry
pub record Registry : Type 0 where
  pub hs : List Hook
  pub met : Option ℕ

pub record World : Type 0 where
  pub trace : Trace
  pub registry : ℕ → Registry

pub data Panic : Type 0 where
  nil_logger nil_tracer nil_meter nil_result : Panic
  failed : Err → Panic
  raised : ℕ → Panic

-- How a call ends; `no_fuel` is for a loop that ran through its fuel.
pub data Outcome {ℓ} (A : Type ℓ) : Type ℓ where
  ret : A → Outcome A
  panics : Panic → Outcome A
  no_fuel : Outcome A

abbrev pub empty_world : World
empty_world = record { trace = []; registry = λ _. record { hs = []; met = none } }

abbrev pub push : Event → World → World
push e w = record w { trace = e ∷ w.trace }
