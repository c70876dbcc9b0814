-- ===== src/Examples/Routing.antt =====
-- Reads of a cluster, and iterations over a stream that breaks off.
use hellnet_lib_database.Prelude.{
  ℕ, ◌≡◌, refl, true, Option, none, some, List, [], ◌∷◌, map, arith, get_elem?, ◌==◌, if◌then◌else◌,
}
use hellnet_lib_database.Text.{itoa, codes}
use hellnet_lib_database.Environment.{itoa_int}
use hellnet_lib_database.Errors.{Err, sentinel, deadline_exceeded, external, wrapf, is}
use hellnet_lib_database.World.{
  empty_world, ok, ret, push, background, with_cancel, Event, query, close_rows, go_handler,
  op_exec, op_query, op_query_row, op_scalar,
}
use hellnet_lib_database.World.Exec.{M, pure}
use hellnet_lib_database.Replica.{Cluster, replica}
use hellnet_lib_database.Replica.Rotation.{replica_int32}
use hellnet_lib_database.Replica.Routed.{
  cluster_execute, cluster_query, cluster_query_row, cluster_scalar,
}
use hellnet_lib_database.Replica.Reads.{ReadOn, cluster-Ran}
use hellnet_lib_database.Core.{rows_unknown}
use hellnet_lib_database.Core.Observed.{
  query_count, row_count, exec_count, query_sent, row_sent, exec_sent,
}
use hellnet_lib_database.Database.Rounds.Operations.{Ran}
use hellnet_lib_database.Examples.{healthy, conn, hooked}
use hellnet_lib_database.Examples.Hooks.{numbers, select}
use hellnet_lib_database.Examples.Sessions.{db, refusing, untraced}
use hellnet_lib_database.Iterate.{Stream, iter_loop, run_iter}
use hellnet_lib_database.Iterate.Delivered.{unwatched, Ends, run_iter-Delivers}
use hellnet_lib_database.Iterate.Watchdog.{late_deadline}

-- after 2^31 + 1 reads
abbrev busy : Cluster
busy = record { primary = 0; replicas = 1 ∷ 2 ∷ []; rr = 2147483649 }

abbrev idle : Cluster
idle = record { primary = 0; replicas = 1 ∷ 2 ∷ []; rr = 3 }

cluster-Ran_example :
    Ran db op_exec select []
      (exec_sent background conn select [])
      exec_count
      hooked
      (cluster_execute refusing untraced (λ _. db) 64 idle select [] hooked)
    × ((i : ℕ) × (get_elem? (1 ∷ 2 ∷ []) 1 ≡ some i)
        × ReadOn refusing untraced
            (λ _. db)
            idle
            select
            []
            hooked
            i
            op_query
            (query_sent background conn select [])
            query_count
            (cluster_query refusing untraced (λ _. db) 64 numbers select [] (some idle) hooked)
        × ReadOn refusing untraced
            (λ _. db)
            idle
            select
            []
            hooked
            i
            op_query_row
            (query_sent background conn select [])
            row_count
            (cluster_query_row refusing untraced (λ _. db) 64 numbers select [] (some idle) hooked)
        × ReadOn refusing untraced
            (λ _. db)
            idle
            select
            []
            hooked
            i
            op_scalar
            (row_sent background conn select [])
            (λ _. rows_unknown)
            (cluster_scalar refusing untraced (λ _. db) 64 numbers select [] (some idle) hooked))
cluster-Ran_example =
    cluster-Ran refusing untraced (λ _. db) idle select [] hooked numbers
      (λ _. record { logged = refl; untraced = refl }) (omega arith) (omega arith)

replica_int32_example : (replica 32 busy).0 ≡ none
replica_int32_example = replica_int32 busy (omega arith) (omega arith) (omega arith) (omega arith)

abbrev accept : ℕ → M (Option Err)
accept row = pure none

abbrev deadline : Err
deadline = sentinel deadline_exceeded

abbrev two_rows : List ℕ
two_rows = 1 ∷ 2 ∷ []

is_deadline : is deadline deadline_exceeded ≡ true
unfolding is
is_deadline = refl

late_deadline_example :
    (iter_loop (codes "30s") accept (some deadline) true (map ok two_rows) empty_world).0
    ≡ ret
        (some (wrapf "database: first row not available within %s: %w" (codes "30s" ∷ []) deadline))
late_deadline_example =
    late_deadline (codes "30s") accept (some deadline) (λ row w. refl) two_rows 1 deadline
      empty_world refl refl is_deadline

abbrev enough : Err
enough = sentinel (external 1)

-- accepts every row but 2
abbrev refuses_two : ℕ → Option Err
refuses_two row = if row == 2 then some enough else none

abbrev says_row : ℕ → Event
says_row row = go_handler (itoa row)

abbrev saying : ℕ → M (Option Err)
saying row w = (ret (refuses_two row), push (says_row row) w)

abbrev three_rows : Stream ℕ
three_rows = record { rows = map ok (1 ∷ 2 ∷ 3 ∷ []); final = none }

run_iter-Delivers_example :
    let r = run_iter healthy itoa_int conn select [] (λ _. three_rows) saying hooked in
    (o : Option Err) × (r.0 ≡ ret o)
    × Ends says_row refuses_two (itoa_int conn.o.command_timeout) none three_rows.rows o
    × (unwatched r.1.trace
        ≡ close_rows 7
          ∷ go_handler (itoa 2)
          ∷ go_handler (itoa 1)
          ∷ query 1 (with_cancel background) select []
          ∷ unwatched hooked.trace)
run_iter-Delivers_example =
    run_iter-Delivers says_row refuses_two healthy itoa_int conn select [] saying (λ x w. refl)
      (λ x. refl) (λ _. three_rows) 7 hooked refl
