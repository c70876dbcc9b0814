-- ===== src/Construction.antt =====
-- The construction of a DB in database/database.go: the connection URL, newDB with New, NewWithOptions and
-- MustNew, and Close. Not code of the repository, and so parameters: the printing of a URL (net/url), the
-- parsing of the pool's configuration (pgxpool) and the telemetry packages. A telemetry provider is a number.
pub mod Endpoint
pub mod Opened
pub mod Link
use hellnet_lib_database.Prelude.{
  ℕ, Bool, true, false, not, ◌||◌, Option, none, some, List, [], ◌∷◌, ◌++◌, any, ◌==◌,
  if◌then◌else◌,
}
use hellnet_lib_database.Prelude.Int.{ℤ, pos}
use hellnet_lib_database.Text.{Text, codes, is_empty}
use hellnet_lib_database.Errors.{Err, wrapf}
use hellnet_lib_database.World.{
  Handle, Ctx, new_pool, close_pool, unregister_pool_metrics, failed, Reply, ok, err, Env, World,
}
use hellnet_lib_database.World.Exec.{M, pure, throw, ◌>>=◌, ◌>>◌, emit, ask}
use hellnet_lib_database.Options.{Options, default, with_defaults, validate, min_conns, max_conns}
use hellnet_lib_database.Environment.{itoa_int, Durations, load_from_env}
use hellnet_lib_database.Resilience.{new_retry_policy, with_observability}
use hellnet_lib_database.Hooks.{new_hook_registry}
use hellnet_lib_database.Metrics.{update_registry}
use hellnet_lib_database.Core.{new_conn, new_observability}
use hellnet_lib_database.PoolMetrics.{register_pool_metrics}
use hellnet_lib_database.Database.{Db}

-- net.JoinHostPort
unfoldable pub join_host_port : Text → Text → Text
join_host_port host port =
    if any (λ c. c == b':') host then b'[' ∷ (host ++ b']' ∷ b':' ∷ port) else host ++ b':' ∷ port

-- the fields of url.URL that dsn sets
pub record Url : Type 0 where
  pub scheme : Text
  pub host : Text
  pub path : Text
  pub user : Option (Text × Text)

unfoldable pub url_of : Options → Url
unfolding join_host_port
url_of o = record {
  scheme = codes "postgres";
  host = join_host_port o.host (itoa_int o.port);
  path = b'/' ∷ o.database;
  user =
      if not (is_empty o.username) || not (is_empty o.password)
      then some (o.username, o.password)
      else none;
}

-- The code outside the repository: (*url.URL).String, pgxpool.ParseConfig, whether an instrumentation gives
-- a counter of retries and whether it is a telemetry.Client, and what instrument.Resolve makes of it.
pub record Packages : Type 0 where
  pub print_url : Url → Text
  pub parse_config : Text → Option Err
  pub counts : Option ℕ → Bool
  pub is_client : Option ℕ → Bool
  pub resolve : Option ℕ → Option ℕ

-- dsn
unfoldable pub dsn : Packages → Options → Text
unfolding url_of
dsn packages o = packages.print_url (url_of o)

-- WithInstrumentation
abbrev pub with_instrumentation : Option ℕ → Options
with_instrumentation inst = record {
  host = [];
  port = pos 0;
  database = [];
  username = [];
  password = [];
  pool_min_size = pos 0;
  pool_max_size = pos 0;
  command_timeout = pos 0;
  connection_timeout = pos 0;
  retry_enabled = false;
  retry_max_count = pos 0;
  retry_base_delay = pos 0;
  slow_query = pos 0;
  query_hooks = [];
  hide_query_args = false;
  instrumentation = inst;
}

-- what New does to the DB with a telemetry.Client
abbrev pub with_client : Bool → Reply Db → Reply Db
with_client ops (err e) = err e
with_client ops (ok db) = ok (record db { conn = record (db.conn) { ops = ops } })

-- the options that New takes, and those of NewWithOptions
abbrev pub first_options : Options → List Options → Options
first_options loaded [] = loaded
first_options loaded (o ∷ os) = o

unfoldable pub last_instrumentation : Option ℕ → List Options → Option ℕ
last_instrumentation inst [] = inst
last_instrumentation inst (o ∷ os) =
    last_instrumentation (elim o.instrumentation [ none ↦ inst | some i ↦ some i ]) os

unfoldable pub chosen_options : Options → List Options → Options
chosen_options loaded [] = loaded
chosen_options loaded (o ∷ []) = elim o.instrumentation [ none ↦ o | some i ↦ loaded ]
chosen_options loaded (o ∷ o' ∷ os) = o

module _ (env : Env) (packages : Packages) (ctx : Ctx) (p : ℕ) where
  -- the pool answered: `o` has its defaults, and `p` is the pointer of the new registry
  unfoldable pub pool_opened : Options → Option ℕ → Reply Handle → M (Reply Db)
  pool_opened o inst (err e) = pure (err (wrapf "database: create pool: %w" [] e))
  pool_opened o inst (ok h) = do
    update_registry p (λ _. new_hook_registry o)
    registration ← register_pool_metrics env (new_observability inst)
    pure (
        ok (record {
          conn = record (new_conn h o ctx p) { obs = new_observability inst };
          pool = h;
          retry =
              with_observability (packages.counts inst)
                (new_retry_policy o.retry_enabled o.retry_max_count o.retry_base_delay);
          pool_metrics = registration;
        }))

  unfoldable pub configured : Options → Option ℕ → Option Err → Option Err → M (Reply Db)
  unfolding pool_opened dsn
  configured o inst (some e) parsed = pure (err e)
  configured o inst none (some e) = pure (err (wrapf "database: parse config: %w" [] e))
  configured o inst none none = do
    reply ←
        ask (λ w. env.handle w.trace)
          (new_pool (dsn packages o) (min_conns o) (max_conns o) o.connection_timeout)
    pool_opened o inst reply

  -- newDB
  unfoldable pub new_db : Options → Option ℕ → M (Reply Db)
  unfolding configured dsn
  new_db given inst =
      let o = with_defaults given in
      configured o (packages.resolve inst) (validate o) (packages.parse_config (dsn packages o))

  module _ (getenv : Text → Text) (time : Durations) where
    -- New
    unfoldable pub new : Option ℕ → List Options → M (Reply Db)
    unfolding new_db load_from_env
    new inst opts = do
      r ← new_db (first_options (load_from_env getenv time) opts) (packages.resolve inst)
      pure (with_client (packages.is_client (packages.resolve inst)) r)

    -- NewWithOptions
    unfoldable pub new_with_options : List Options → M (Reply Db)
    unfolding new_db load_from_env chosen_options last_instrumentation
    new_with_options opts =
        new_db (chosen_options (load_from_env getenv time) opts) (last_instrumentation none opts)

    -- OpenFromEnv
    unfoldable pub open_from_env : Option ℕ → M (Reply Db)
    unfolding new
    open_from_env inst = new inst []

    abbrev pub or_panic : Reply Db → M Db
    or_panic (err e) = throw (failed e)
    or_panic (ok db) = pure db

    -- MustNew
    unfoldable pub must_new : Option ℕ → List Options → M Db
    unfolding new
    must_new inst opts = do r ← new inst opts; or_panic r

unfoldable pub unregistered : Option Handle → M (Unit {0})
unregistered none = pure tt
unregistered (some registration) = emit (unregister_pool_metrics registration)

-- Close
unfoldable pub close_db : Db → M (Option Err)
unfolding unregistered
close_db db = do unregistered db.pool_metrics; emit (close_pool db.pool); pure none
