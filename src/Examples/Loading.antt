-- ===== src/Examples/Loading.antt =====
-- Options from the environment, and a DB that is built from options.
use hellnet_lib_database.Prelude.{arith, ◌≡◌, refl, ◌⊎◌, true, false, none, some, [], ◌∷◌}
use hellnet_lib_database.Prelude.Int.{ℤ, pos}
use hellnet_lib_database.Text.{codes}
use hellnet_lib_database.Options.{Options, default, with_defaults, validate}
use hellnet_lib_database.Environment.{load_from_env, itoa_int, atoi, Durations, net_split_host_port}
use hellnet_lib_database.Errors.{Err, errorf}
use hellnet_lib_database.World.{background, ret, ok, err, Env}
use hellnet_lib_database.Hooks.{new_hook_registry}
use hellnet_lib_database.Database.{Db}
use hellnet_lib_database.PoolMetrics.{Measured, pool_calls}
use hellnet_lib_database.Construction.{
  url_of, Packages, with_instrumentation, new_db, new_with_options,
}
use hellnet_lib_database.Construction.Endpoint.{load_from_env-url_of}
use hellnet_lib_database.Options.Pool.{Sized}
use hellnet_lib_database.Construction.Opened.{opening, new_db_lem, new_with_options-instrumentation}
use hellnet_lib_database.Sqlx.{new_sqlx}
use hellnet_lib_database.Sqlx.Opened.{Settled, new_sqlx_lem}
use hellnet_lib_database.Examples.{healthy, hooked}

-- durations printed as their nanoseconds
abbrev nanoseconds : Durations
nanoseconds = record { print = itoa_int; parse = atoi; clock = λ _. none }

-- an IPv6 address needs its brackets
ipv6_test :
    (net_split_host_port (codes "[::1]:5432") ≡ some (codes "::1", codes "5432"))
    × (net_split_host_port (codes "::1") ≡ none)
    × (net_split_host_port (codes "postgres") ≡ none)
unfolding net_split_host_port codes
ipv6_test = (refl, refl, refl)

abbrev remote : Options
remote = record default { host = codes "fe80::1"; port = pos 5433 }

load_from_env-url_of_example :
    ((load_from_env (λ _. (url_of remote).host) nanoseconds).host ≡ codes "fe80::1")
    × ((load_from_env (λ _. (url_of remote).host) nanoseconds).port ≡ pos 5433)
unfolding codes
load_from_env-url_of_example =
    load_from_env-url_of remote (λ _. (url_of remote).host) nanoseconds refl refl refl
      (ground arith) (ground arith) refl

abbrev packages : Packages
packages = record {
  print_url = λ u. u.host;
  parse_config = λ _. none;
  counts = λ _. true;
  is_client = λ _. false;
  resolve = λ i. i;
}

abbrev given : Options
given = record default {
  database = codes "shop";
  username = codes "ada";
  password = codes "secret";
  pool_min_size = pos 500;
}

new_db_lem_example :
    let r = new_db healthy packages background 3 given none hooked in
    let o = with_defaults given in
    ((e : Err) × (r.0 ≡ ret (err e)) × (r.1.registry ≡ hooked.registry))
    ⊎ ((db : Db) × (r.0 ≡ ret (ok db))
        × (validate o ≡ none)
        × (db.conn.o ≡ o)
        × (lo hi : ℤ) × Sized o lo hi
        × (healthy.handle (opening healthy packages background 3 o lo hi hooked).trace ≡ ok db.pool)
        × Measured healthy pool_calls
            (opening healthy packages background 3 o lo hi hooked).trace
            db.pool_metrics
            r.1.trace
        × (r.1.registry 3 ≡ new_hook_registry o))
new_db_lem_example = new_db_lem healthy packages background 3 given none hooked

new_with_options-instrumentation_example :
    new_with_options healthy packages background 3
      (λ _. [])
      nanoseconds
      (with_instrumentation (some 9) ∷ given ∷ [])
      hooked
    ≡ (
      ret (
          err (
            errorf "database: missing or invalid configuration: %s"
              (codes "DATABASE_NAME, DATABASE_USERNAME, DATABASE_PASSWORD" ∷ []))),
      hooked,
    )
new_with_options-instrumentation_example =
    new_with_options-instrumentation healthy packages background 3 (λ _. []) nanoseconds 9 given []
      hooked

-- a server that is down when the sqlx pool is pinged
abbrev down : Env
down = record healthy { failure = λ _. some (errorf "connection refused" []) }

new_sqlx_lem_example :
    Settled down packages
      (λ _. [])
      background
      (with_defaults given)
      7
      hooked
      (new_sqlx down packages (λ _. []) background (λ _. []) nanoseconds (given ∷ []) 7 hooked)
new_sqlx_lem_example =
    new_sqlx_lem down packages (λ _. []) background (λ _. []) nanoseconds (given ∷ []) 7 hooked
