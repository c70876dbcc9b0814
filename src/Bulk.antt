-- ===== src/Bulk.antt =====
-- database/bulk.go: COPY on a pinned connection, and the source of its rows.
pub mod Copy
use hellnet_lib_database.Prelude.{
  ℕ, zero, suc, ◌+◌, Bool, true, false, Option, none, some, List, [], ◌∷◌, length, get_elem?, ltb,
  if◌then◌else◌,
}
use hellnet_lib_database.Prelude.Int.{ℤ, pos}
use hellnet_lib_database.Text.{Text}
use hellnet_lib_database.Errors.{Err, errorf, wrapf, first}
use hellnet_lib_database.World.{Value, Handle, with_timeout, copy_from, Reply, ok, err, Env}
use hellnet_lib_database.World.Exec.{M, pure, ◌>>=◌, ask}
use hellnet_lib_database.Repository.Clause.{validate_identifier}
use hellnet_lib_database.Connection.{Pinned}

-- sliceRows
pub record SliceRows : Type 0 where
  pub rows : List (List Value)
  pub i : ℕ

-- Next
unfoldable pub next : SliceRows → Bool
next s = ltb s.i (length s.rows)

-- Values, with `none` for an index out of range
unfoldable pub values : SliceRows → Option (List Value) × SliceRows
values s = (get_elem? s.rows s.i, record s { i = s.i + 1 })

-- what a reader gets that calls Next and, while it is true, Values, at most `fuel` times
unfoldable pub drain : ℕ → SliceRows → List (Option (List Value))
unfolding next values
drain zero s = []
drain (suc fuel) s =
    let (row, s') = values s in let rest = drain fuel s' in if next s then row ∷ rest else []

-- the first error of the columns
unfoldable pub columns_error : List Text → Option Err
columns_error [] = none
columns_error (c ∷ cs) = first (validate_identifier c) (columns_error cs)

-- the checks of BulkInsert before the connection is used
unfoldable pub bulk_error : Text → List Text → Option Err
unfolding columns_error
bulk_error table [] =
    first (validate_identifier table)
      (some (errorf "database: BulkInsert requires at least one column" []))
bulk_error table (c ∷ cs) = first (validate_identifier table) (columns_error (c ∷ cs))

module _ (env : Env) (supports : Handle → Bool) where
  unfoldable pub copy_replied : Text → Reply ℤ → ℤ × Option Err
  copy_replied table (err e) = (pos 0, some (wrapf "database: copy into %q: %w" (table ∷ []) e))
  copy_replied table (ok n) = (n, none)

  unfoldable pub copy_checked :
      Pinned → Text → List Text → List (List Value) → Option Err → M (ℤ × Option Err)
  unfolding copy_replied
  copy_checked c table columns rows (some e) = pure (pos 0, some e)
  copy_checked c table columns rows none =
      if supports c.conn.r
      then (do
        reply ←
            ask (λ w. env.rows_affected w.trace)
              (copy_from c.conn.r (with_timeout c.conn.ctx c.conn.o.command_timeout) table columns
                rows)
        pure (copy_replied table reply))
      else pure (pos 0, some (errorf "database: this connection does not support COPY" []))

  -- BulkInsert
  unfoldable pub bulk_insert : Pinned → Text → List Text → List (List Value) → M (ℤ × Option Err)
  unfolding copy_checked
  bulk_insert c table columns rows = copy_checked c table columns rows (bulk_error table columns)
