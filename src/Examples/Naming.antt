-- ===== src/Examples/Naming.antt =====
-- The names that statements are traced by.
use hellnet_lib_database.Prelude.{◌≡◌, refl, true}
use hellnet_lib_database.Text.{codes, has_prefix, trim_space, to_upper, to_lower}
use hellnet_lib_database.Options.{Options, default}
use hellnet_lib_database.Statement.{strip_from, blank_nested}
use hellnet_lib_database.Statement.Name.{statement_name}

abbrev hiding : Options
hiding = record default { hide_query_args = true }

-- the main statement of a WITH, a FROM that is no clause, and a schema in quotes
names_test :
    (statement_name (codes "with x as (select ')' from y) insert into \"t\" select * from x")
      ≡ (codes "INSERT", codes "t"))
    × (statement_name (codes "SELECT extract(year FROM born) FROM people")
        ≡ (codes "SELECT", codes "born"))
    × (statement_name (codes "DELETE FROM \"public\".\"people\"")
        ≡ (codes "DELETE", codes "public"))
unfolding statement_name codes strip_from has_prefix trim_space to_upper blank_nested to_lower
names_test = (refl, refl, refl)
