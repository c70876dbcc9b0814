-- ===== src/Examples/Sessions.antt =====
-- Sessions: statements that are retried and those that are not, connections that are closed, COPY,
-- batches and comments.
use hellnet_lib_database.Prelude.{
  ◌≤◌, ◌≡◌, refl, ◌⊎◌, true, false, none, some, List, [], ◌∷◌, all, length, arith,
}
use hellnet_lib_database.Prelude.Int.{pos}
use hellnet_lib_database.Text.{Text, codes}
use hellnet_lib_database.Errors.{Err, errorf}
use hellnet_lib_database.World.{
  Value, background, with_timeout, release_conn, copy_from, ret, push, Env, err,
}
use hellnet_lib_database.World.Exec.{◌>>=◌}
use hellnet_lib_database.Resilience.{new_retry_policy}
use hellnet_lib_database.Core.{Conn, derive}
use hellnet_lib_database.Core.Sent.{Sends}
use hellnet_lib_database.Database.{Db, Span}
use hellnet_lib_database.Connection.{
  Pinned, release, closes, tx_execute, tx_query, tx_query_row, tx_scalar,
}
use hellnet_lib_database.Connection.Lifecycle.{open_by, closed, closes-once}
use hellnet_lib_database.Connection.Once.{tx-Sends}
use hellnet_lib_database.Bulk.{bulk_insert}
use hellnet_lib_database.Bulk.Copy.{bulk_insert_safe}
use hellnet_lib_database.Repository.Clause.{is_identifier}
use hellnet_lib_database.Batch.{new_batch, queue, send_batch}
use hellnet_lib_database.Batch.Refused.{
  exec_call, row_call, close_call, run_calls, all_fail, send_batch-refused,
}
use hellnet_lib_database.Examples.{healthy, serialization_failure, conn, hooked}
use hellnet_lib_database.Examples.Hooks.{numbers, select}

-- a server that refuses every statement with an error that is retried
abbrev pub refusing : Env
refusing = record healthy {
  rows_affected = λ _. err serialization_failure;
  handle = λ _. err serialization_failure;
}

abbrev pub untraced : Span
untraced A name fn = fn

abbrev pub db : Db
db = record {
  conn = conn;
  pool = 1;
  retry = new_retry_policy true (pos 3) (pos 100);
  pool_metrics = none;
}

abbrev tx : Conn
tx = derive conn 7

tx-Sends_example :
    Sends 1 (tx_execute refusing untraced select [] tx)
    × Sends 1 (tx_query refusing untraced select [] numbers tx)
    × Sends 1 (tx_query_row refusing untraced select [] numbers tx)
    × Sends 1 (tx_scalar refusing untraced select [] numbers tx)
tx-Sends_example = tx-Sends refusing untraced select [] numbers tx refl

abbrev pinned : Pinned
pinned = record { conn = tx; session = 7; closer = none }

closes-once_example :
    closes healthy 3 (open_by pinned (release 7)) hooked
    ≡ (ret (closed pinned), push (release_conn 7) hooked)
closes-once_example = closes-once healthy 2 pinned (release 7) hooked

abbrev two_rows : List (List Value)
two_rows = (1 ∷ 2 ∷ []) ∷ (3 ∷ 4 ∷ []) ∷ []

abbrev columns : List Text
columns = codes "id" ∷ codes "name; DROP TABLE people" ∷ []

bulk_insert_safe_example :
    ((e : Err) × (bulk_insert healthy (λ _. true) pinned (codes "people") columns two_rows hooked
        ≡ (ret (pos 0, some e), hooked)))
    ⊎ ((is_identifier (codes "people") ≡ true)
        × (all is_identifier columns ≡ true)
        × ((bulk_insert healthy (λ _. true) pinned (codes "people") columns two_rows hooked).1
            ≡ push
                (copy_from 7
                  (with_timeout background tx.o.command_timeout)
                  (codes "people")
                  columns
                  two_rows)
                hooked))
bulk_insert_safe_example =
    bulk_insert_safe healthy (λ _. true) pinned (codes "people") columns two_rows hooked

send_batch-refused_example :
    (send_batch healthy (λ _. false) tx (queue select [] new_batch)
        >>= run_calls healthy (exec_call ∷ close_call ∷ row_call ∷ close_call ∷ []))
      hooked
    ≡ (
      ret (
          all_fail
            (errorf "database: this transaction does not support batch" [])
            (exec_call ∷ close_call ∷ row_call ∷ close_call ∷ [])),
      hooked,
    )
send_batch-refused_example =
    send_batch-refused healthy (λ _. false) tx (queue select [] new_batch)
      (exec_call ∷ close_call ∷ row_call ∷ close_call ∷ []) hooked refl

short : length (codes "-- a\nBEGIN") ≤ 10
unfolding codes
short = omega arith
