-- ===== src/Replica/Routed.antt =====
-- The operations of a cluster: writes and transactions pass on to its primary, reads to the next replica.
use hellnet_lib_database.Prelude.{ℕ, Bool, false, Option, none, some, List, []}
use hellnet_lib_database.Prelude.Int.{ℤ}
use hellnet_lib_database.Text.{Text}
use hellnet_lib_database.Errors.{Err, errorf}
use hellnet_lib_database.World.{Value, Handle, Env, raised}
use hellnet_lib_database.World.Exec.{M, pure, throw, ◌>>=◌}
use hellnet_lib_database.Core.{Conn, Mapper}
use hellnet_lib_database.Database.{Db, Span, db_execute, db_query, db_query_row, db_scalar}
use hellnet_lib_database.Transaction.{transactional, transactional_level}
use hellnet_lib_database.Replica.{Cluster, replica}

-- `dbs` is what a pointer to a DB points to, and int has `width` bits
module _ (env : Env) (span : Span) (dbs : ℕ → Db) (width : ℕ) where
  -- (*Cluster).Execute, Transactional and TransactionalLevel
  unfoldable pub cluster_execute : Cluster → Text → List Value → M (ℤ × Option Err)
  cluster_execute cl sql args = db_execute env span (dbs cl.primary) sql args

  unfoldable pub cluster_transactional : Cluster → (Conn → M (Option Err)) → M (Option Err)
  cluster_transactional cl fn = let db = dbs cl.primary in transactional env db.pool db.conn fn

  unfoldable pub cluster_transactional_level :
      (Handle → Bool) → Cluster → Text → (Conn → M (Option Err)) → M (Option Err)
  cluster_transactional_level supports_levels cl level fn =
      let db = dbs cl.primary in
      transactional_level env supports_levels
        "database: pool does not support transaction isolation levels" level db.pool db.conn fn

  -- a read on the replica that was chosen; an index out of range panics
  unfoldable pub on_replica :
      {A : Type 0} → Option ℕ × Cluster → (Db → M A) → M (A × Option Cluster)
  on_replica (none, cl) read = throw (raised 0)
  on_replica (some i, cl) read = do r ← read (dbs i); pure (r, some cl)

  module _ {T : Type 0} (mapper : Mapper T) (sql : Text) (args : List Value) where
    -- ClusterQuery, ClusterQueryRow and ClusterScalar, on a pointer to a cluster that may be nil, and the
    -- cluster afterwards
    unfoldable pub cluster_query : Option Cluster → M ((List T × Option Err) × Option Cluster)
    unfolding on_replica replica
    cluster_query none =
        pure (([], some (errorf "database: ClusterQuery requires a non-nil Cluster" [])), none)
    cluster_query (some cl) =
        on_replica (replica width cl) (λ db. db_query env span mapper db sql args)

    unfoldable pub cluster_query_row :
        Option Cluster → M (((T × Bool) × Option Err) × Option Cluster)
    unfolding on_replica replica
    cluster_query_row none = pure (
      (
        (mapper.zero_value, false),
        some (errorf "database: ClusterQueryRow requires a non-nil Cluster" []),
      ),
      none,
    )
    cluster_query_row (some cl) =
        on_replica (replica width cl) (λ db. db_query_row env span mapper db sql args)

    unfoldable pub cluster_scalar : Option Cluster → M ((T × Option Err) × Option Cluster)
    unfolding on_replica replica
    cluster_scalar none = pure (
      (mapper.zero_value, some (errorf "database: ClusterScalar requires a non-nil Cluster" [])),
      none,
    )
    cluster_scalar (some cl) =
        on_replica (replica width cl) (λ db. db_scalar env span mapper db sql args)
