-- ===== src/Repository/Statements.antt =====
-- The statements of a repository with the arguments that go with them.
pub mod Arguments
pub mod Numbered
use hellnet_lib_database.Prelude.{
  ℕ, suc, ◌+◌, Bool, true, false, not, Option, none, some, List, [], ◌∷◌, ◌++◌, map, length,
  if◌then◌else◌,
}
use hellnet_lib_database.Text.{
  Text, codes, is_empty, to_upper, trim_space, has_prefix, contains, join, quote, itoa,
}
use hellnet_lib_database.Errors.{Err, errorf}
use hellnet_lib_database.World.{Value, Reply, ok, err}
use hellnet_lib_database.Repository.Clause.{
  Specification, validate_identifier, clause_collision, paging_at, check, ◌>>=◌,
}
use hellnet_lib_database.Repository.Columns.{
  ElemType, ColField, Entity, fields_of, entity_values, resolve_columns, quoted_list,
  placeholder_range, name_at, value_at,
}

-- selectAllSQL
unfoldable pub select_all_sql : Text → Text → Bool → Reply Text
select_all_sql table cols by_id = check (validate_identifier table) (
    let sql = codes "SELECT " ++ (cols ++ (codes " FROM " ++ table)) in
    if by_id then ok (sql ++ codes " WHERE id = $1") else ok sql)

-- the assignments `"column" = $k`, numbered from `k`
unfoldable pub assignments : ℕ → List Text → List Text
assignments k [] = []
assignments k (c ∷ cs) = (quote c ++ (codes " = $" ++ itoa k)) ∷ assignments (suc k) cs

abbrev pub names_at : List ColField → List ℕ → List Text
names_at fields = map (name_at fields)

abbrev pub values_at : List Value → List ℕ → List Value
values_at vals = map (value_at vals)

-- the INSERT part of upsertStatement
unfoldable pub insert_sql : Text → List ColField → ℕ → Text
insert_sql table fields count =
    codes "INSERT INTO "
    ++ (table
        ++ (codes " ("
            ++ (quoted_list (map (λ (f : ColField). f.name) fields)
                ++ (codes ") VALUES (" ++ (placeholder_range 1 count ++ codes ")")))))

abbrev pub on_conflict : List Text → Text
on_conflict names = codes " ON CONFLICT (" ++ (quoted_list names ++ codes ") DO ")

abbrev pub some_columns : ElemType → List ColField → Reply (List ColField)
some_columns t [] =
    err (errorf "database: type %s has no db-tagged columns to insert" (t.type_name ∷ []))
some_columns t (f ∷ fs) = ok (f ∷ fs)

-- upsertStatement
unfoldable pub upsert_statement :
    Text → ElemType → Entity → List Text → List Text → Bool → Reply (Text × List Value)
upsert_statement table t entity conflict_cols update_cols do_nothing =
    check (validate_identifier table) (do
      fields ← some_columns t (fields_of t)
      conflict_idx ← resolve_columns (codes "conflict") t conflict_cols
      vals ← entity_values t entity
      let sql = insert_sql table fields (length vals) ++ on_conflict (names_at fields conflict_idx)
      if do_nothing then ok (sql ++ codes "NOTHING", vals) else do
        update_idx ← resolve_columns (codes "update") t update_cols
        let sets = assignments (length vals + 1) (names_at fields update_idx)
        ok (
          sql ++ (codes "UPDATE SET " ++ join sets (codes ", ")),
          vals ++ values_at vals update_idx,
        ))

abbrev refuse_if : Bool → Err → Reply (Text × List Value) → Reply (Text × List Value)
refuse_if true e r = err e
refuse_if false e r = r

abbrev refuse_some : Option Text → Reply (Text × List Value) → Reply (Text × List Value)
refuse_some none r = r
refuse_some (some frag) r = err (
    errorf "database: where specification SQL contains %s; remove pagination from Update conditions"
      (frag ∷ []))

-- updateStatement
unfoldable pub update_statement :
    Text → ElemType → Entity → List Text → Specification → Reply (Text × List Value)
update_statement table t entity set_cols where_spec = check (validate_identifier table) (
    refuse_if (not (is_empty where_spec.order_by))
      (errorf "database: Update does not support ORDER BY in the where specification" [])
      (refuse_some (clause_collision where_spec.sql paging_at) (do
        set_idx ← resolve_columns (codes "set") t set_cols
        vals ← entity_values t entity
        let sets = assignments (length where_spec.args + 1) (names_at (fields_of t) set_idx)
        ok (
          codes "UPDATE "
              ++ (table
                  ++ (codes " SET "
                      ++ (join sets (codes ", ")
                          ++ (codes " WHERE (" ++ (where_spec.sql ++ codes ")"))))),
          where_spec.args ++ values_at vals set_idx,
        ))))

-- EnsureTable up to its Execute: the statement that is sent
unfoldable pub ensure_table_sql : Text → Text → Reply Text
ensure_table_sql name ddl = check (validate_identifier name) (
    let trimmed = trim_space ddl in
    let upper = map to_upper trimmed in
    if not (has_prefix upper (codes "CREATE TABLE"))
    then err
        (errorf "database: EnsureTable ddl must start with CREATE TABLE (got %q)" (trimmed ∷ []))
    else if not (contains upper (codes "IF NOT EXISTS"))
    then err (
        errorf "database: EnsureTable ddl must contain IF NOT EXISTS to stay idempotent (got %q)"
          (trimmed ∷ []))
    else ok trimmed)
