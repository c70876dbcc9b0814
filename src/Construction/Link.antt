-- ===== src/Construction/Link.antt =====
-- Connect and ConnectFromEnv of database/connection.go, which open one link outside a pool.
use hellnet_lib_database.Prelude.{ℕ, Option, none, some, []}
use hellnet_lib_database.Text.{Text}
use hellnet_lib_database.Errors.{Err, wrapf}
use hellnet_lib_database.World.{Handle, background, with_timeout, open_link, Reply, ok, err, Env}
use hellnet_lib_database.World.Exec.{M, pure, ◌>>=◌, ◌>>◌, ask}
use hellnet_lib_database.Options.{Options, with_defaults, validate}
use hellnet_lib_database.Environment.{Durations, load_from_env}
use hellnet_lib_database.Hooks.{new_hook_registry}
use hellnet_lib_database.Metrics.{update_registry}
use hellnet_lib_database.Core.{new_conn}
use hellnet_lib_database.Connection.{Pinned, close_link}
use hellnet_lib_database.Construction.{Packages, dsn}

module _ (env : Env) (packages : Packages) (p : ℕ) where
  -- the link answered: `o` has its defaults, and `p` is the pointer of the new registry
  unfoldable pub link_opened : Options → Reply Handle → M (Reply Pinned)
  link_opened o (err e) = pure (err (wrapf "database: connect: %w" [] e))
  link_opened o (ok h) = do
    update_registry p (λ _. new_hook_registry o)
    pure (
        ok (record { conn = new_conn h o background p; session = h; closer = some (close_link h) }))

  unfoldable pub link_configured : Options → Option Err → Option Err → M (Reply Pinned)
  unfolding link_opened dsn
  link_configured o (some e) parsed = pure (err e)
  link_configured o none (some e) = pure (err (wrapf "database: parse config: %w" [] e))
  link_configured o none none = do
    reply ←
        ask (λ w. env.handle w.trace)
          (open_link (dsn packages o) o.connection_timeout
            (with_timeout background o.connection_timeout))
    link_opened o reply

  -- Connect
  unfoldable pub connect : Options → M (Reply Pinned)
  unfolding link_configured dsn
  connect given =
      let o = with_defaults given in
      link_configured o (validate o) (packages.parse_config (dsn packages o))

  -- ConnectFromEnv
  unfoldable pub connect_from_env : (Text → Text) → Durations → M (Reply Pinned)
  unfolding connect load_from_env
  connect_from_env getenv time = connect (load_from_env getenv time)
