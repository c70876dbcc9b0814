-- ===== src/Resilience/Classify.antt =====
-- Which errors `IsTransient` lets a policy retry.
use hellnet_lib_database.Prelude.{◌≡◌, true, false, ◌⊎◌, String, some, List, [], arith}
use hellnet_lib_database.Text.{Text}
use hellnet_lib_database.Errors.{Err, canceled, deadline_exceeded, wrapf, join, is, as_pg_error}
use hellnet_lib_database.Resilience.{is_transient, is_permanent}

-- Wrapping an error with %w never changes whether it is retried.
pub is_transient-wrapf :
    (format : String) (texts : List Text) (e : Err)
    → is_transient (some (wrapf format texts e)) ≡ is_transient (some e)
unfolding is_transient is as_pg_error
is_transient-wrapf format texts e = ground arith

-- The context ended: of that an error tells whenever any error in its tree is one of the two.
abbrev pub IsContextError : Err → Type 0
IsContextError e = (is e canceled ≡ true) ⊎ (is e deadline_exceeded ≡ true)

-- An error that an interrupted backoff joined with a context error is not retried again, whatever
-- the error of the operation was.
is_transient-join :
    (format : String) (e s : Err)
    → IsContextError s
    → is_transient (some (join e (wrapf format [] s))) ≡ false
unfolding is_transient is
is_transient-join format e s h = ground arith

-- A join is retried only if neither part is a context error and the first PostgreSQL code in it is
-- not one of the permanent ones.
pub is_transient-join_left :
    (a b : Err) (c : String)
    → as_pg_error a ≡ some c
    → is_permanent (some c) ≡ true
    → is_transient (some (join a b)) ≡ false
unfolding is_transient is as_pg_error
is_transient-join_left a b c h k = ground arith
