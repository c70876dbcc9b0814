-- ===== src/Database/Repositories.antt =====
-- Repository of database/repository.go over a DB, with EnsureTable.
use hellnet_lib_database.Prelude.{Bool, true, false, Option, none, some, List, [], ◌∷◌}
use hellnet_lib_database.Prelude.Int.{ℤ, pos}
use hellnet_lib_database.Text.{Text}
use hellnet_lib_database.Errors.{Err}
use hellnet_lib_database.World.{Value, Reply, ok, err, Env}
use hellnet_lib_database.World.Exec.{M, pure, ◌>>=◌}
use hellnet_lib_database.Core.{Mapper}
use hellnet_lib_database.Repository.Clause.{
  Specification, page_sql, count_sql, find_one_sql, exists_sql,
}
use hellnet_lib_database.Repository.Columns.{GoType, table_of, ElemType, Entity, columns_of}
use hellnet_lib_database.Repository.Statements.{
  select_all_sql, upsert_statement, update_statement, ensure_table_sql,
}
use hellnet_lib_database.Results.{PageResult}
use hellnet_lib_database.Database.{Db, Span, db_execute, db_query, db_query_row, db_scalar}

-- Repository
pub record Repository : Type 0 where
  pub table : Text
  pub db : Db

-- NewRepository, for a type T
abbrev pub new_repository : GoType → Db → Repository
new_repository t db = record { table = table_of t; db = db }

-- NewRepositoryForTable
abbrev pub new_repository_for_table : Db → Text → Repository
new_repository_for_table db table = record { table = table; db = db }

module _ (env : Env) (span : Span) where
  abbrev run_built :
      {A : Type 0} → A → Reply Text → (Text → M (A × Option Err)) → M (A × Option Err)
  run_built zero_value (err e) run = pure (zero_value, some e)
  run_built zero_value (ok sql) run = run sql

  abbrev run_statement :
      Reply (Text × List Value) → (Text → List Value → M (ℤ × Option Err)) → M (ℤ × Option Err)
  run_statement (err e) run = pure (pos 0, some e)
  run_statement (ok (sql, args)) run = run sql args

  -- the repository of T, whose `elemType` is `t`
  module _ {T : Type 0} (mapper : Mapper T) (t : ElemType) (repo : Repository) where
    -- GetByID
    unfoldable pub get_by_id : Value → M ((T × Bool) × Option Err)
    get_by_id id =
        run_built (mapper.zero_value, false) (select_all_sql repo.table (columns_of t) true)
          (λ sql. db_query_row env span mapper repo.db sql (id ∷ []))

    -- GetAll
    unfoldable pub get_all : M (List T × Option Err)
    get_all =
        run_built [] (select_all_sql repo.table (columns_of t) false)
          (λ sql. db_query env span mapper repo.db sql [])

    -- Find
    unfoldable pub find : Specification → M (List T × Option Err)
    find spec =
        run_built [] (page_sql spec (pos 1) (pos 0))
          (λ sql. db_query env span mapper repo.db sql spec.args)

    -- FindOne
    unfoldable pub find_one : Specification → M ((T × Bool) × Option Err)
    find_one spec =
        run_built (mapper.zero_value, false) (find_one_sql spec)
          (λ sql. db_query_row env span mapper repo.db sql spec.args)

    -- the zero value of PageResult, returned beside an error
    abbrev no_page : PageResult T
    no_page = record { items = []; total_count = pos 0; page = pos 0; page_size = pos 0 }

    unfoldable pub page_of : ℤ → ℤ → ℤ → List T × Option Err → PageResult T × Option Err
    page_of page page_size total (items, some e) = (no_page, some e)
    page_of page page_size total (items, none) =
        (record { items = items; total_count = total; page = page; page_size = page_size }, none)

    unfoldable pub paginate_counted :
        Specification → ℤ → ℤ → ℤ × Option Err → M (PageResult T × Option Err)
    unfolding page_of
    paginate_counted spec page page_size (total, some e) = pure (no_page, some e)
    paginate_counted spec page page_size (total, none) =
        run_built no_page (page_sql spec page page_size) (λ sql. do
          r ← db_query env span mapper repo.db sql spec.args
          pure (page_of page page_size total r))

    -- Paginate, with the mapper of int64 for the count
    unfoldable pub paginate : Mapper ℤ → Specification → ℤ → ℤ → M (PageResult T × Option Err)
    unfolding paginate_counted
    paginate counts spec page page_size =
        db_scalar env span counts repo.db (count_sql spec) spec.args
        >>= paginate_counted spec page page_size

    -- Upsert and UpsertDoNothing
    unfoldable pub upsert : Entity → List Text → List Text → M (ℤ × Option Err)
    upsert entity conflict_cols update_cols =
        run_statement (upsert_statement repo.table t entity conflict_cols update_cols false)
          (db_execute env span repo.db)

    unfoldable pub upsert_do_nothing : Entity → List Text → M (ℤ × Option Err)
    upsert_do_nothing entity conflict_cols =
        run_statement (upsert_statement repo.table t entity conflict_cols [] true)
          (db_execute env span repo.db)

    -- Update
    unfoldable pub update : Entity → List Text → Specification → M (ℤ × Option Err)
    update entity set_cols where_spec =
        run_statement (update_statement repo.table t entity set_cols where_spec)
          (db_execute env span repo.db)

  -- Count
  unfoldable pub count_rows : Mapper ℤ → Db → Specification → M (ℤ × Option Err)
  count_rows counts db spec = db_scalar env span counts db (count_sql spec) spec.args

  -- Exists
  unfoldable pub exists : Mapper Bool → Db → Specification → M (Bool × Option Err)
  exists flags db spec =
      run_built false (exists_sql spec) (λ sql. db_scalar env span flags db sql spec.args)

  -- EnsureTable, on a DB that is not nil
  unfoldable pub ensure_table : Db → Text → Text → M (Option Err)
  ensure_table db name ddl = do
    r ← run_built (pos 0) (ensure_table_sql name ddl) (λ sql. db_execute env span db sql [])
    pure r.1
