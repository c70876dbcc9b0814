-- ===== src/Errors.antt =====
-- Go error values as trees, with errors.Is and errors.As as database/*.go use them.
use hellnet_lib_database.Prelude.{
  ℕ, String, Bool, true, false, ◌||◌, Option, none, some, List, ◌==◌,
}
use hellnet_lib_database.Text.{Text}

-- The errors that are compared by identity.
pub data Sentinel : Type 0 where
  canceled deadline_exceeded : Sentinel  -- context.Canceled, context.DeadlineExceeded
  no_rows : Sentinel  -- pgx.ErrNoRows
  nil_primary : Sentinel  -- ErrNilPrimary
  invalid_view : Sentinel  -- ErrInvalidView
  external : ℕ → Sentinel  -- any other error of the application or of a package

pub data Err : Type 0 where
  sentinel : Sentinel → Err
  pg_error : String → Err  -- *pgconn.PgError with its SQLSTATE
  errorf : String → List Text → Err  -- fmt.Errorf with no %w: the format and its texts
  wrapf : String → List Text → Err → Err  -- fmt.Errorf whose %w is the last argument
  join : Err → Err → Err  -- errors.Join of two errors

unfoldable pub same : Sentinel → Sentinel → Bool
same canceled canceled = true
same deadline_exceeded deadline_exceeded = true
same no_rows no_rows = true
same nil_primary nil_primary = true
same invalid_view invalid_view = true
same (external m) (external n) = m == n
same _ _ = false

-- errors.Is(err, target)
unfoldable pub is : Err → Sentinel → Bool
unfolding same
is (sentinel s) t = same s t
is (pg_error _) t = false
is (errorf _ _) t = false
is (wrapf _ _ e) t = is e t
is (join a b) t = is a t || is b t

abbrev pub first {ℓ} : {A : Type ℓ} → Option A → Option A → Option A
first none b = b
first (some x) b = some x

-- errors.As(err, &pgErr): the code of the first *pgconn.PgError, in pre-order
unfoldable pub as_pg_error : Err → Option String
as_pg_error (sentinel _) = none
as_pg_error (pg_error code) = some code
as_pg_error (errorf _ _) = none
as_pg_error (wrapf _ _ e) = as_pg_error e
as_pg_error (join a b) = first (as_pg_error a) (as_pg_error b)
