-- ===== src/Examples/Requesting.antt =====
-- Requests of a repository of people.
use hellnet_lib_database.Prelude.{◌≡◌, refl, ◌⊎◌, false, Option, none, List, [], length, ℕ}
use hellnet_lib_database.Prelude.Int.{ℤ, pos}
use hellnet_lib_database.Text.{Text, codes}
use hellnet_lib_database.World.{Value, World, ok, ret, background, op_scalar}
use hellnet_lib_database.Errors.{Err}
use hellnet_lib_database.Core.{Mapper, rows_unknown}
use hellnet_lib_database.Core.Observed.{row_sent}
use hellnet_lib_database.Database.Rounds.Operations.{Ran}
use hellnet_lib_database.Database.Rounds.Paging.{counting, Paged, paginate-Sends}
use hellnet_lib_database.Repository.Clause.{page_sql}
use hellnet_lib_database.Repository.Clause.Safe.{Extends}
use hellnet_lib_database.Repository.Columns.{fields_of, entity_values, resolve_columns}
use hellnet_lib_database.Repository.Statements.{update_statement, upsert_statement}
use hellnet_lib_database.Repository.Statements.Arguments.{Bound}
use hellnet_lib_database.Database.Repositories.{
  Repository, new_repository_for_table, find, update, upsert, paginate,
}
use hellnet_lib_database.Database.Rounds.Requests.{
  Declined, Queried, Executed, find-Sends, update-Sends, upsert-Sends,
}
use hellnet_lib_database.Repository.Statements.Numbered.{
  Numbered, Assigned, update_text, upsert_text,
}
use hellnet_lib_database.Repository.Columns.Resolve.{names}
use hellnet_lib_database.Examples.{healthy, conn, hooked}
use hellnet_lib_database.Examples.Hooks.{numbers}
use hellnet_lib_database.Examples.Sessions.{db, refusing, untraced}
use hellnet_lib_database.Examples.Statements.{person, ada, by_id, name_only, id_only, listing}

abbrev people : Text
people = codes "people"

abbrev repo : Repository
repo = new_repository_for_table db people

find-Sends_example :
    let r = find refusing untraced numbers person repo by_id hooked in
    Declined (page_sql by_id (pos 1) (pos 0)) [] hooked r
    ⊎ ((sql : Text) × Extends sql by_id.sql × Queried db hooked sql by_id.args r)
find-Sends_example = find-Sends refusing untraced numbers repo refl person hooked refl by_id

update-Sends_example :
    let r = update refusing untraced numbers person repo ada name_only by_id hooked in
    Declined (update_statement people person ada name_only by_id) (pos 0) hooked r
    ⊎ ((args : List Value) × (is : List ℕ) × (vals : List Value) × (resolve_columns
            (codes "set")
            person
            name_only
          ≡ ok is)
        × (entity_values person ada ≡ ok vals)
        × Bound args 0 by_id.args
        × (sets : List Text) × Assigned
            (names (fields_of person))
            vals
            args
            (length by_id.args)
            name_only
            sets
        × Executed db hooked (update_text people sets by_id) args r)
update-Sends_example =
    update-Sends refusing untraced numbers repo refl person hooked refl ada name_only by_id

upsert-Sends_example :
    let r = upsert refusing untraced numbers person repo ada id_only name_only hooked in
    Declined (upsert_statement people person ada id_only name_only false) (pos 0) hooked r
    ⊎ ((args : List Value) × (is : List ℕ) × (vals : List Value) × (resolve_columns
            (codes "update")
            person
            name_only
          ≡ ok is)
        × (entity_values person ada ≡ ok vals)
        × (ps : List Text) × Numbered args 0 vals ps
        × (sets : List Text) × Assigned
            (names (fields_of person))
            vals
            args
            (length vals)
            name_only
            sets
        × Executed db hooked (upsert_text people person ps id_only sets) args r)
upsert-Sends_example =
    upsert-Sends refusing untraced numbers repo refl person hooked refl ada id_only name_only

-- every count is 41
abbrev counts : Mapper ℤ
counts = record {
  zero_value = pos 0;
  rows = λ _. ([], none);
  one_row = λ _. (pos 41, none);
  scanned = λ _. (pos 41, none);
}

paginate-Sends_example :
    (total : ℤ × Option Err) × (v : World) × Ran db op_scalar
      (counting listing)
      []
      (row_sent background conn (counting listing) [])
      (λ _. rows_unknown)
      hooked
      (ret total, v)
    × Paged db listing
        (pos 3)
        (pos 20)
        total
        v
        (paginate healthy untraced numbers person repo counts listing (pos 3) (pos 20) hooked)
paginate-Sends_example =
    paginate-Sends healthy untraced numbers repo refl person refl listing (pos 3) (pos 20) counts
      hooked
