-- ===== src/Examples/Statements.antt =====
-- Statements built for a table of three columns.
use hellnet_lib_database.Prelude.{
  ℕ, ◌≡◌, refl, true, false, none, some, List, [], ◌∷◌, all, map, get_elem?,
}
use hellnet_lib_database.Prelude.Int.{pos}
use hellnet_lib_database.Text.{Text, text_eq, to_lower, join, quote, itoa, contains, codes}
use hellnet_lib_database.World.{ok}
use hellnet_lib_database.Repository.Clause.{
  Specification, is_identifier, validate_identifier, clause_collision, find_match, paging_at,
  validate_order_by, page_offset, page_sql, is_order_by, with_order, order_by_at, with_limit,
  itoa_ℤ,
}
use hellnet_lib_database.Repository.Columns.{
  ElemType, Entity, struct_value, entity_values, resolve_columns, fields_of, validate_column_list,
  slots_of, slot, slot_from, quoted_list, placeholder_range,
}
use hellnet_lib_database.Repository.Columns.Resolve.{names, distinct, resolve_columns-names}
use hellnet_lib_database.Repository.Statements.{
  update_statement, upsert_statement, insert_sql, assignments,
}
use hellnet_lib_database.Results.{PageResult}

-- struct { ID; FullName `db:"name"`; secret }
abbrev pub person : ElemType
person = record {
  type_name = codes "Person";
  struct_fields = some (
      record { name = codes "ID"; exported = true; tag = none }
      ∷ record { name = codes "FullName"; exported = true; tag = some (codes "name,omitempty") }
      ∷ record { name = codes "secret"; exported = false; tag = none }
      ∷ []);
}

abbrev pub ada : Entity
ada = struct_value (10 ∷ 20 ∷ 30 ∷ [])

abbrev pub by_id : Specification
by_id = record { sql = codes "id = $1"; args = 10 ∷ []; order_by = [] }

abbrev pub name_only : List Text
name_only = codes "name" ∷ []

abbrev pub id_only : List Text
id_only = codes "id" ∷ []

-- what the statements send
update_of_ada :
    update_statement (codes "people") person ada name_only by_id
    ≡ ok (codes "UPDATE people SET \"name\" = $2 WHERE (id = $1)", 10 ∷ 20 ∷ [])
unfolding update_statement validate_identifier codes clause_collision find_match paging_at to_lower
    resolve_columns validate_column_list slots_of slot slot_from fields_of text_eq entity_values
    join quote assignments itoa
update_of_ada = refl

upsert_of_ada :
    upsert_statement (codes "people") person ada id_only name_only false
    ≡ ok (
      codes
          "INSERT INTO people (\"id\", \"name\") VALUES ($1, $2) ON CONFLICT (\"id\") DO UPDATE SET \"name\" = $3",
      10 ∷ 20 ∷ 20 ∷ [],
    )
unfolding upsert_statement validate_identifier codes fields_of resolve_columns validate_column_list
    slots_of slot slot_from text_eq entity_values insert_sql quoted_list placeholder_range itoa
    assignments
upsert_of_ada = refl

resolved : resolve_columns (codes "set") person (codes "name" ∷ codes "id" ∷ []) ≡ ok (1 ∷ 0 ∷ [])
unfolding resolve_columns validate_column_list slots_of slot slot_from fields_of text_eq codes
    validate_identifier
resolved = refl

resolve_columns-names_example :
    (all is_identifier (codes "name" ∷ codes "id" ∷ []) ≡ true)
    × (distinct (codes "name" ∷ codes "id" ∷ []) ≡ true)
    × (map (get_elem? (names (fields_of person))) (1 ∷ 0 ∷ [])
        ≡ map some (codes "name" ∷ codes "id" ∷ []))
resolve_columns-names_example =
    resolve_columns-names (codes "set") person (codes "name" ∷ codes "id" ∷ []) (1 ∷ 0 ∷ [])
      resolved

abbrev pub listing : Specification
listing = record { sql = codes "SELECT * FROM t"; args = []; order_by = codes "id desc" }

third_page :
    page_sql listing (pos 3) (pos 20)
    ≡ ok (codes "SELECT * FROM t ORDER BY id desc LIMIT 20 OFFSET 40")
unfolding page_sql validate_order_by codes contains is_order_by with_order clause_collision
    order_by_at to_lower with_limit paging_at itoa_ℤ itoa page_offset
third_page = refl

abbrev one_of_three : PageResult ℕ
one_of_three = record { items = 1 ∷ 2 ∷ []; total_count = pos 5; page = pos 1; page_size = pos 2 }

abbrev everything : PageResult ℕ
everything = record { items = 1 ∷ 2 ∷ []; total_count = pos 2; page = pos 1; page_size = pos 0 }
