-- ===== src/Connection/Transactional.antt =====
-- The transactions of a pinned connection, in database/connection.go.
use hellnet_lib_database.Prelude.{Bool, Option}
use hellnet_lib_database.Text.{Text}
use hellnet_lib_database.Errors.{Err}
use hellnet_lib_database.World.{Handle, Ctx, Env}
use hellnet_lib_database.World.Exec.{M}
use hellnet_lib_database.Core.{Conn}
use hellnet_lib_database.Transaction.{transactional, transactional_context, transactional_level}
use hellnet_lib_database.Connection.{Pinned}

module _ (env : Env) (c : Pinned) where
  -- (*Conn).Transactional
  unfoldable pub conn_transactional : (Conn → M (Option Err)) → M (Option Err)
  conn_transactional fn = transactional env c.session c.conn fn

  -- (*Conn).TransactionalContext
  unfoldable pub conn_transactional_context : Ctx → (Ctx → Conn → M (Option Err)) → M (Option Err)
  conn_transactional_context ctx fn = transactional_context env c.session c.conn ctx fn

  -- (*Conn).TransactionalLevel, where `supports_levels` says which runners begin at a level
  unfoldable pub conn_transactional_level :
      (Handle → Bool) → Text → (Conn → M (Option Err)) → M (Option Err)
  conn_transactional_level supports_levels level fn =
      transactional_level env supports_levels
        "database: connection does not support transaction isolation levels" level c.conn.r c.conn
        fn
