-- ===== src/Replica/Reads.antt =====
-- Where the statements of a cluster are run.
use hellnet_lib_database.Prelude.{
  ℕ, ◌+◌, ◌%◌, ◌^◌, ◌<◌, ◌≡◌, refl, false, Option, some, List, length, get_elem?, arith,
}
use hellnet_lib_database.Prelude.Int.{ℤ}
use hellnet_lib_database.Text.{Text}
use hellnet_lib_database.Errors.{Err}
use hellnet_lib_database.World.{
  Value, Event, Op, op_query, op_query_row, op_scalar, op_exec, Env, World, Outcome, ret,
}
use hellnet_lib_database.World.Exec.{M, pure, bind_ret}
use hellnet_lib_database.Core.{Mapper, attached, rows_unknown}
use hellnet_lib_database.Core.Observed.{
  query_count, row_count, exec_count, query_sent, row_sent, exec_sent,
}
use hellnet_lib_database.Database.{Db, Span, db_query, db_query_row, db_scalar}
use hellnet_lib_database.Database.Rounds.Operations.{Ran, operations-Ran}
use hellnet_lib_database.Replica.{Cluster}
use hellnet_lib_database.Replica.Rotation.{u32_mod, get_elem?-some, replica_lem}
use hellnet_lib_database.Replica.Routed.{
  on_replica, cluster_execute, cluster_query, cluster_query_row, cluster_scalar,
}

-- a DB with its logger and no telemetry client
pub record IsPlain (db : Db) : Type 0 where
  pub logged : db.conn.obs ≡ attached
  pub untraced : db.conn.ops ≡ false

module _ (env : Env) (span : Span) (dbs : ℕ → Db) (cl : Cluster) (sql : Text) (args : List Value)
    (w : World) where
  -- the cluster after one read
  abbrev pub read_once : Cluster
  read_once = record cl { rr = (cl.rr + 1) % 2 ^ 32 }

  -- the read ran on the DB `i`, and the counter moved on
  abbrev pub ReadOn :
      {T : Type 0}
      → ℕ
      → Op
      → Event
      → (T × Option Err → ℤ)
      → Outcome ((T × Option Err) × Option Cluster) × World
      → Type 0
  ReadOn {T} i op statement rows_of r =
      (out : T × Option Err) × (r.0 ≡ ret (out, some read_once))
      × Ran (dbs i) op sql args statement rows_of w (ret out, r.1)

  routed :
      {T : Type 0} (i : ℕ) (op : Op) (statement : Event) (rows_of : T × Option Err → ℤ)
      (read : Db → M (T × Option Err))
      → Ran (dbs i) op sql args statement rows_of w (read (dbs i) w)
      → ReadOn i op statement rows_of (on_replica env span dbs 64 (some i, read_once) read w)
  unfolding on_replica
  routed {T} i op statement rows_of read (n, bound, (out, (r, more))) =
      let after : T × Option Err → M ((T × Option Err) × Option Cluster) =
        λ o. pure (o, some read_once) in
      rw (bind_ret (read (dbs i)) after w r) (out, refl, (n, bound, (out, (refl, more))))

  module _ {T : Type 0} (mapper : Mapper T) (plain : (i : ℕ) → IsPlain (dbs i)) where
    -- In a cluster with replicas, of DBs with their loggers and no telemetry clients, where int has 64 bits: a write
    -- runs on the primary, and a read runs on the replica at the counter modulo their number, each once for
    -- every attempt that the policy of that DB allows, with its hooks, and a read moves the counter on by one,
    -- around at 2^32.
    pub cluster-Ran :
        cl.rr < u32_mod
        → 0 < length cl.replicas
        → Ran
            (dbs cl.primary)
            op_exec
            sql
            args
            (exec_sent (dbs cl.primary).conn.ctx (dbs cl.primary).conn sql args)
            exec_count
            w
            (cluster_execute env span dbs 64 cl sql args w)
          × ((i : ℕ) × (get_elem? cl.replicas (cl.rr % length cl.replicas) ≡ some i)
              × ReadOn i op_query
                  (query_sent (dbs i).conn.ctx (dbs i).conn sql args)
                  query_count
                  (cluster_query env span dbs 64 mapper sql args (some cl) w)
              × ReadOn i op_query_row
                  (query_sent (dbs i).conn.ctx (dbs i).conn sql args)
                  row_count
                  (cluster_query_row env span dbs 64 mapper sql args (some cl) w)
              × ReadOn i op_scalar
                  (row_sent (dbs i).conn.ctx (dbs i).conn sql args)
                  (λ _. rows_unknown)
                  (cluster_scalar env span dbs 64 mapper sql args (some cl) w))
    unfolding cluster_execute cluster_query cluster_query_row cluster_scalar
    cluster-Ran small some_replica =
        let (i, found) = get_elem?-some cl.replicas (cl.rr % length cl.replicas) (omega arith) in
        let primary = dbs cl.primary in
        let written =
          operations-Ran env span mapper primary (plain cl.primary).logged sql args w
            (plain cl.primary).untraced in
        let (_, query, row, scalar) =
          operations-Ran env span mapper (dbs i) (plain i).logged sql args w (plain i).untraced in
        let chosen = replica_lem cl small some_replica in
        (
          written.0,
          (
            i,
            found,
            rw (chosen, found)
                (routed i op_query _ query_count (λ d. db_query env span mapper d sql args) query),
            rw (chosen, found)
                (routed i op_query_row _ row_count (λ d. db_query_row env span mapper d sql args)
                  row),
            rw (chosen, found)
                (routed i op_scalar _ (λ _. rows_unknown)
                  (λ d. db_scalar env span mapper d sql args) scalar),
          ),
        )
