-- ===== src/Examples.antt =====
-- Concrete runs: a configuration, a server that answers, one that fails in a chosen place, and what
-- the operations do there. The children hold a run for each of the theorems that have hypotheses.
pub mod Retry
pub mod Transactions
pub mod Statements
pub mod Hooks
pub mod Settings
pub mod Routing
pub mod Sessions
pub mod Listening
pub mod Metering
pub mod Loading
pub mod Naming
pub mod Tracing
pub mod Requesting
use hellnet_lib_database.Prelude.{ℕ, Bool, false, Option, none, some, [], ◌∷◌}
use hellnet_lib_database.Prelude.Int.{pos}
use hellnet_lib_database.Errors.{Err, pg_error}
use hellnet_lib_database.World.{
  background, Trace, commit_tx, rollback_tx, ok, Env, user, collector, World, Event, Registry,
}
use hellnet_lib_database.Options.{default}
use hellnet_lib_database.Core.{Conn, new_conn}

-- a server that answers every call, five nanoseconds later
abbrev pub healthy : Env
healthy = record {
  rows_affected = λ _. ok (pos 1);
  handle = λ _. ok 7;
  failure = λ _. none;
  hook_panics = λ _. false;
  since = λ _. 5;
  ctx_err = λ _ _. none;
}

abbrev pub serialization_failure : Err
serialization_failure = pg_error "40001"

-- a server that lost the session: neither a commit nor a rollback works
abbrev pub lost : Trace → Option Err
lost (commit_tx _ _ ∷ _) = some serialization_failure
lost (rollback_tx _ _ ∷ _) = some (pg_error "08006")
lost _ = none

abbrev pub broken : Env
broken = record healthy { failure = lost }

-- a connection at pool 1, with its hooks behind pointer 0
abbrev pub conn : Conn
conn = new_conn 1 default background 0

-- a world whose registry 0 has a hook of the application and collector 4, in use
abbrev pub hooked : World
hooked = record {
  trace = [];
  registry = λ _. record { hs = user 3 false ∷ collector 4 ∷ []; met = some 4 };
}
