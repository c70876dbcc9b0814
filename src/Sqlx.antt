-- ===== src/Sqlx.antt =====
-- database/sqlx.go: the construction of the sqlx pool and its options. The sqlx and stdlib packages are not
-- code of the repository: opening, pinging and closing their pool are events.
pub mod Opened
use hellnet_lib_database.Prelude.{ℕ, Option, none, some, List, [], ◌∷◌}
use hellnet_lib_database.Text.{Text}
use hellnet_lib_database.Errors.{Err, wrapf}
use hellnet_lib_database.World.{
  Handle, Ctx, with_timeout, ping, open_sqlx, close_sqlx, begin_sqlx, Reply, ok, err, Env,
}
use hellnet_lib_database.World.Exec.{M, pure, ◌>>=◌, ◌>>◌, ask}
use hellnet_lib_database.Options.{Options, with_defaults, validate}
use hellnet_lib_database.Environment.{Durations, load_from_env}
use hellnet_lib_database.Construction.{Packages, dsn, with_instrumentation, first_options}

-- SQLX
pub record Sqlx : Type 0 where
  pub db : Handle
  pub opts : Options

module _ (env : Env) (packages : Packages) (error_text : Err → Text) (ctx : Ctx) where
  -- what a failing ping returns, when the pool answered its Close
  abbrev ping_error : Err → Option Err → Err
  ping_error e none = wrapf "database: ping sqlx pool: %w" [] e
  ping_error e (some closing) =
      wrapf "database: ping sqlx pool: %w (close: %v)" (error_text closing ∷ []) e

  unfoldable pub pinged : Options → Handle → Option Err → M (Reply Sqlx)
  pinged o h none = pure (ok (record { db = h; opts = o }))
  pinged o h (some e) = do
    closing ← ask (λ w. env.failure w.trace) (close_sqlx h)
    pure (err (ping_error e closing))

  -- sqlxPGXConfig, with none where it succeeds
  unfoldable pub sqlx_pgx_config : Options → Option Err
  unfolding dsn
  sqlx_pgx_config o = elim (packages.parse_config (dsn packages o)) [
    | none ↦ none
    | some e ↦ some (wrapf "database: parse sqlx config: %w" [] e)
  ]

  unfoldable pub sqlx_configured : Options → Handle → Option Err → Option Err → M (Reply Sqlx)
  unfolding pinged dsn
  sqlx_configured o h (some e) parsed = pure (err e)
  sqlx_configured o h none (some e) = pure (err (wrapf "database: parse sqlx config: %w" [] e))
  sqlx_configured o h none none = do
    ask (λ _. tt) (open_sqlx (dsn packages o) o.connection_timeout o.pool_max_size o.pool_min_size)
    e ← ask (λ w. env.failure w.trace) (ping h (with_timeout ctx o.connection_timeout))
    pinged o h e

  -- NewSQLX, where `h` is the pool that sqlx makes
  unfoldable pub new_sqlx : (Text → Text) → Durations → List Options → Handle → M (Reply Sqlx)
  unfolding sqlx_configured sqlx_pgx_config load_from_env
  new_sqlx getenv time opts h =
      let o = with_defaults (first_options (load_from_env getenv time) opts) in
      sqlx_configured o h (validate o) (sqlx_pgx_config o)

  -- OpenSQLXFromEnv
  unfoldable pub open_sqlx_from_env : (Text → Text) → Durations → Handle → M (Reply Sqlx)
  unfolding new_sqlx
  open_sqlx_from_env getenv time h = new_sqlx getenv time [] h

-- BeginTx, with the transaction's options as a number; what sqlx makes of them is not code of the repository
unfoldable pub begin_tx : Env → Sqlx → Ctx → ℕ → M (Reply Handle)
begin_tx env db ctx opts = ask (λ w. env.handle w.trace) (begin_sqlx db.db ctx opts)

-- (*SQLX).Options, on a pointer that may be nil
unfoldable pub sqlx_options : Option Sqlx → Options
sqlx_options none = with_instrumentation none
sqlx_options (some db) = record db.opts { password = [] }
