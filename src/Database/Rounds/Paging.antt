-- ===== src/Database/Rounds/Paging.antt =====
-- Paginate of database/repository.go from its arguments to the statements that the server is sent.
use hellnet_lib_database.Prelude.{
  ◌≡◌, refl, ◌⊎◌, inl, inr, false, Option, none, some, List, [], ◌++◌,
}
use hellnet_lib_database.Prelude.Int.{ℤ, pos}
use hellnet_lib_database.Text.{Text, codes}
use hellnet_lib_database.Errors.{Err}
use hellnet_lib_database.World.{op_scalar, Reply-cases, Env, World, Outcome, ret}
use hellnet_lib_database.World.Exec.{M, pure, bind_ret}
use hellnet_lib_database.Core.{attached, rows_unknown, Mapper}
use hellnet_lib_database.Core.Observed.{row_sent}
use hellnet_lib_database.Repository.Clause.{Specification, page_sql, count_sql}
use hellnet_lib_database.Repository.Clause.Safe.{Extends, page_sql-Extends}
use hellnet_lib_database.Repository.Columns.{ElemType}
use hellnet_lib_database.Results.{PageResult}
use hellnet_lib_database.Database.{Db, Span, db_query, db_scalar}
use hellnet_lib_database.Database.Repositories.{Repository, paginate, paginate_counted, page_of}
use hellnet_lib_database.Database.Rounds.Operations.{Ran, operations-Ran}
use hellnet_lib_database.Database.Rounds.Requests.{Declined, Queried}

abbrev pub empty_page : {T : Type 0} → PageResult T
empty_page = record { items = []; total_count = pos 0; page = pos 0; page_size = pos 0 }

-- the page that answers a query of its rows, where `total` rows were counted
abbrev pub IsPage :
    {T : Type 0} → ℤ → ℤ → ℤ → List T × Option Err → PageResult T × Option Err → Type 0
IsPage page page_size total (items, some e) r = r ≡ (empty_page, some e)
IsPage page page_size total (items, none) r =
    (r.1 ≡ none)
    × (r.0.items ≡ items)
    × (r.0.total_count ≡ total)
    × (r.0.page ≡ page)
    × (r.0.page_size ≡ page_size)

-- the statement that counts the rows of a specification
abbrev pub counting : Specification → Text
counting spec = codes "SELECT COUNT(*) FROM (" ++ (spec.sql ++ codes ") AS _count")

module _ {T : Type 0} (db : Db) (spec : Specification) (page page_size : ℤ) where
  -- what follows the count, in the world that it left
  abbrev pub Paged : ℤ × Option Err → World → Outcome (PageResult T × Option Err) × World → Type 0
  Paged (total, some e) v r = r ≡ (ret (empty_page, some e), v)
  Paged (total, none) v r =
      Declined (page_sql spec page page_size) empty_page v r
      ⊎ ((sql : Text) × Extends sql spec.sql
          × ((rows : List T × Option Err) × Queried db v sql spec.args (ret rows, r.1)
              × ((out : PageResult T × Option Err) × (r.0 ≡ ret out)
                  × IsPage page page_size total rows out)))

module _ (env : Env) (span : Span) {T : Type 0} (mapper : Mapper T) (repo : Repository)
    (logged : repo.db.conn.obs ≡ attached) (t : ElemType) (untraced : repo.db.conn.ops ≡ false)
    (spec : Specification) (page page_size : ℤ) where
  page_of-IsPage :
      (total : ℤ) (rows : List T × Option Err)
      → IsPage page page_size total rows (page_of env span mapper t repo page page_size total rows)
  unfolding page_of
  page_of-IsPage total (items, some e) = refl
  page_of-IsPage total (items, none) = (refl, refl, refl, refl, refl)

  counted-Paged :
      (total : ℤ × Option Err) (v : World)
      → Paged repo.db spec page page_size total v
          (paginate_counted env span mapper t repo spec page page_size total v)
  unfolding paginate_counted
  counted-Paged (total, some e) v = refl
  counted-Paged (total, none) v = elim (Reply-cases (page_sql spec page page_size)) [
    | inr (e, h) ↦ rw h (inl (e, refl, refl))
    | inl (sql, h) ↦
        let (_, queried, _, _) =
          operations-Ran env span mapper repo.db logged sql spec.args v untraced in
        let (n, bound, (rows, (r, more))) = queried in
        let read = db_query env span mapper repo.db sql spec.args in
        let paged : List T × Option Err → M (PageResult T × Option Err) =
          λ o. pure (page_of env span mapper t repo page page_size total o) in
        rw (h, bind_ret read paged v r)
          (inr (
            sql,
            page_sql-Extends spec page page_size sql h,
            (rows, (n, bound, (rows, (refl, more))), (_, refl, page_of-IsPage total rows)),
          ))
  ]

  -- On a DB with its logger and no telemetry client: Paginate first counts the rows of the specification's SQL as a subquery, once
  -- for each attempt of its policy. If that fails it returns an empty page and the error, with nothing
  -- further done, and so it does if the SQL of the page is refused. Otherwise it queries the SQL of the
  -- specification with a suffix of letters, digits, `_`, `.`, `,` and white space, and with its arguments,
  -- and returns the rows with the count, the page and its size, or an empty page and the error.
  pub paginate-Sends :
      (counts : Mapper ℤ) (w : World)
      → (total : ℤ × Option Err) × (v : World) × Ran repo.db op_scalar
          (counting spec)
          spec.args
          (row_sent repo.db.conn.ctx repo.db.conn (counting spec) spec.args)
          (λ _. rows_unknown)
          w
          (ret total, v)
        × Paged repo.db spec page page_size total v
            (paginate env span mapper t repo counts spec page page_size w)
  unfolding paginate count_sql
  paginate-Sends counts w =
      let (_, _, _, counted) =
        operations-Ran env span counts repo.db logged (counting spec) spec.args w untraced in
      let (n, bound, (total, (r, more))) = counted in
      let count = db_scalar env span counts repo.db (counting spec) spec.args in
      rw (bind_ret count (paginate_counted env span mapper t repo spec page page_size) w r)
        (total, (count w).1, (n, bound, (total, (refl, more))), counted-Paged total (count w).1)
