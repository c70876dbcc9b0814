-- ===== src/Examples/Tracing.antt =====
-- Operations of a DB that are retried, within their spans, and calls of columnsOf by two goroutines.
use hellnet_lib_database.Prelude.{◌≡◌, refl, true, none, some, List, [], ◌∷◌, ℕ, arith}
use hellnet_lib_database.Text.{codes, text_eq}
use hellnet_lib_database.World.{background, in_span, op_exec, op_query, op_query_row, op_scalar}
use hellnet_lib_database.Core.{rows_unknown}
use hellnet_lib_database.Core.Observed.{
  query_count, row_count, exec_count, query_sent, row_sent, exec_sent,
}
use hellnet_lib_database.Database.{
  db_execute_context, db_query_context, db_query_row_context, db_scalar_context,
}
use hellnet_lib_database.Database.Rounds.Operations.{RanTraced, operations-RanTraced}
use hellnet_lib_database.Repository.Columns.{ElemType, columns_of}
use hellnet_lib_database.Repository.Columns.Cached.{run, begun, done}
use hellnet_lib_database.Repository.Columns.Cached.Interleaved.{columns_of-cached}
use hellnet_lib_database.Examples.{conn, hooked}
use hellnet_lib_database.Examples.Hooks.{numbers, select}
use hellnet_lib_database.Examples.Sessions.{db, refusing, untraced}

operations-RanTraced_example :
    let c = in_span background in
    RanTraced db "db.execute" "execute" op_exec select []
      (exec_sent c conn select [])
      exec_count
      hooked
      (db_execute_context refusing untraced db background select [] hooked)
    × RanTraced db "db.query" "query" op_query select []
        (query_sent c conn select [])
        query_count
        hooked
        (db_query_context refusing untraced numbers db background select [] hooked)
    × RanTraced db "db.query" "query" op_query_row select []
        (query_sent c conn select [])
        row_count
        hooked
        (db_query_row_context refusing untraced numbers db background select [] hooked)
    × RanTraced db "db.scalar" "scalar" op_scalar select []
        (row_sent c conn select [])
        (λ _. rows_unknown)
        hooked
        (db_scalar_context refusing untraced numbers db background select [] hooked)
operations-RanTraced_example =
    operations-RanTraced refusing untraced numbers db refl select [] background hooked

-- every type is a struct with a tagged field and one that has no tag
abbrev type_of : ℕ → ElemType
type_of n = record {
  type_name = codes "Person";
  struct_fields = some (
      record { name = codes "ID"; exported = true; tag = some (codes "id") }
      ∷ record { name = codes "FullName"; exported = true; tag = none }
      ∷ []);
}

-- two goroutines that take turns, and a third that begins late
abbrev turns_taken : List ℕ
turns_taken = 0 ∷ 1 ∷ 0 ∷ 1 ∷ 0 ∷ 1 ∷ 0 ∷ 1 ∷ 0 ∷ 1 ∷ 0 ∷ 1 ∷ 0 ∷ 1 ∷ 2 ∷ 0 ∷ 1 ∷ 2 ∷ []

columns_of-cached_example :
    (run type_of turns_taken (begun (λ _. 5))).calls 1 ≡ done 5 (columns_of (type_of 5))
columns_of-cached_example = columns_of-cached type_of (λ _. 5) turns_taken 1 (omega arith)

columns_test : columns_of (type_of 5) ≡ codes "\"id\", \"full_name\""
unfolding columns_of codes text_eq
columns_test = refl
