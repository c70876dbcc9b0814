-- ===== src/Examples/Transactions.antt =====
-- Runs of transactions: one that commits, and those that a lost session disturbs.
use hellnet_lib_database.Prelude.{◌≡◌, refl, ◌≢◌, ◌⊎◌, true, false, Option, none, some, [], ◌∷◌}
use hellnet_lib_database.Text.{Text, codes, text_eq, to_lower, trim_space}
use hellnet_lib_database.Text.Laws.{text_eq_iff}
use hellnet_lib_database.Errors.{Err, no_rows, sentinel, wrapf, join, is}
use hellnet_lib_database.World.{World, empty_world, Handle, ret, panics, raised, ok}
use hellnet_lib_database.World.Exec.{M, pure}
use hellnet_lib_database.Core.{Conn, derive, registry_of}
use hellnet_lib_database.Hooks.{observed}
use hellnet_lib_database.Transaction.{resolve, run_transactional, parse_isolation_level}
use hellnet_lib_database.Transaction.Script.{Script}
use hellnet_lib_database.Transaction.Resolve.{
  resolve_success, resolve_error, resolve_panic, terminal, fresh, committing, rolling,
}
use hellnet_lib_database.Transaction.Recorded.{Recorded, run_transactional-Recorded}
use hellnet_lib_database.Transaction.Atomic.{started, transaction_committed}
use hellnet_lib_database.Transaction.Level.{normal_level}
use hellnet_lib_database.Examples.{healthy, broken, conn, hooked}

abbrev succeeds : Conn → M (Option Err)
succeeds tx = pure none

abbrev not_found : Err
not_found = sentinel no_rows

abbrev fails : Conn → M (Option Err)
fails tx = pure (some not_found)

-- the commit of transaction 7 on a lost session
resolve_success_example :
    let r = resolve broken conn (some 4) 7 (ret none) empty_world in
    ((broken.failure (committing conn 7 ∷ []) ≡ none)
      × (r.0 ≡ ret none)
      × (terminal r.1.trace ≡ committing conn 7 ∷ []))
    ⊎ ((e : Err) × (broken.failure (committing conn 7 ∷ []) ≡ some e)
        × (r.0 ≡ ret (some (wrapf "database: commit: %w" [] e)))
        × (terminal r.1.trace ≡ fresh conn 7 ∷ committing conn 7 ∷ []))
resolve_success_example = resolve_success broken conn (some 4) 7 refl empty_world

resolve_error_example :
    let r = resolve broken conn (some 4) 7 (ret (some not_found)) empty_world in
    let rollback = rolling broken conn 7 empty_world in
    ((broken.failure (rollback ∷ []) ≡ none)
      × (r.0 ≡ ret (some not_found))
      × (terminal r.1.trace ≡ rollback ∷ []))
    ⊎ ((rb : Err) × (broken.failure (rollback ∷ []) ≡ some rb)
        × (r.0 ≡ ret (some (join not_found (wrapf "database: rollback: %w" [] rb))))
        × (terminal r.1.trace ≡ fresh conn 7 ∷ rollback ∷ []))
resolve_error_example = resolve_error broken conn (some 4) 7 refl not_found empty_world

resolve_panic_example :
    let r = resolve broken conn (some 4) 7 (panics (raised 0)) empty_world in
    (r.0 ≡ panics (raised 0)) × (terminal r.1.trace ≡ fresh conn 7 ∷ [])
resolve_panic_example = resolve_panic broken conn (some 4) 7 refl (raised 0) empty_world

runs : (run_transactional healthy 1 none conn succeeds hooked).0 ≡ ret none
unfolding run_transactional resolve observed registry_of
runs = refl

abbrev begun_world : World
begun_world = started healthy conn refl 1 none succeeds hooked

transaction_committed_example :
    (tx : Handle) × (healthy.handle begun_world.trace ≡ ok tx)
    × ((succeeds (derive conn tx) begun_world).0 ≡ ret none)
    × (healthy.failure (committing conn tx ∷ begun_world.trace) ≡ none)
transaction_committed_example = transaction_committed healthy conn refl 1 none succeeds hooked runs

found : is not_found no_rows ≡ true
unfolding is
found = refl

parsed : parse_isolation_level (codes " Serializable ") ≡ ok (codes "serializable")
unfolding parse_isolation_level text_eq codes trim_space to_lower
parsed = refl

-- a level that SQL knows and the library does not
abbrev uncommitted : Text
uncommitted = codes "read uncommitted"

differs : (s : Text) → text_eq (normal_level uncommitted) s ≡ false → normal_level uncommitted ≢ s
differs s h e = let k = (text_eq_iff (normal_level uncommitted) s).1 e in cc

refused :
    (text_eq (normal_level uncommitted) (codes "read committed") ≡ false)
    × (text_eq (normal_level uncommitted) (codes "repeatable read") ≡ false)
    × (text_eq (normal_level uncommitted) (codes "serializable") ≡ false)
unfolding text_eq codes trim_space to_lower
refused = (refl, refl, refl)

-- two statements, on a server that lost the session when the transaction ends
abbrev transfer : Script
transfer =
    (codes "UPDATE accounts SET balance = balance - $1 WHERE id = 1", 5 ∷ [])
    ∷ (codes "UPDATE accounts SET balance = balance + $1 WHERE id = 2", 5 ∷ [])
    ∷ []

-- in a world whose collector 4 is in use, and a session that is lost
run_transactional-Recorded_example :
    let v = started broken conn refl 1 none succeeds hooked in
    Recorded broken conn 4 7
      (ret none)
      v
      (run_transactional broken 1 none conn succeeds hooked).1.trace
unfolding observed registry_of
run_transactional-Recorded_example =
    run_transactional-Recorded broken conn refl 1 none succeeds hooked 7 4 refl refl
