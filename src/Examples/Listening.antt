-- ===== src/Examples/Listening.antt =====
-- A listener on channel `jobs`: the server hands out one job, then drops every session, and a stop is
-- requested when forty calls have been made.
use hellnet_lib_database.Prelude.{
  ◌+◌, ◌≡◌, refl, ◌⊎◌, true, leb, Option, none, some, [], ◌∷◌, all, length, arith,
}
use hellnet_lib_database.Prelude.Int.{ℤ, pos}
use hellnet_lib_database.Text.{Text, codes}
use hellnet_lib_database.Errors.{Err, pg_error, is}
use hellnet_lib_database.World.{Ctx, Trace, Reply, ok, err, Env, exec, release_conn, ret}
use hellnet_lib_database.World.Exec.{◌>>=◌}
use hellnet_lib_database.Core.{derive, fire_before_context, finish, track, fire_after_context}
use hellnet_lib_database.Core.Operations.{execute_context, exec_replied}
use hellnet_lib_database.Connection.{Pinned, release}
use hellnet_lib_database.Listen.{
  ListenOptions, Surroundings, Session, pooled, normalized, is_channel, listen_sql, unlisten_sql,
  listen, stop,
}
use hellnet_lib_database.Listen.Loop.{run_listener, listen_with_reconnect}
use hellnet_lib_database.Listen.Loans.{loans, returns}
use hellnet_lib_database.Listen.Payloads.{Delivered, dispatched, run_listener-Delivered}
use hellnet_lib_database.Listen.Delays.{is_allowed, listen_with_reconnect-delays}
use hellnet_lib_database.Listen.Setup.{CanWait, listen-safe, stop-again}
use hellnet_lib_database.Listen.Shutdown.{run_listener-returns}
use hellnet_lib_database.Examples.{healthy, conn, hooked}

abbrev jobs : Text
jobs = codes "jobs"

abbrev one_job : Trace → Reply (Option Text)
one_job (a ∷ b ∷ c ∷ d ∷ e ∷ f ∷ g ∷ u) = err (pg_error "57P01")
one_job _ = ok (some (codes "resize"))

-- every LISTEN behind the first is refused
abbrev refused : Trace → Reply ℤ
refused (a ∷ b ∷ c ∷ d ∷ e ∷ f ∷ g ∷ u) = err (pg_error "57P01")
refused _ = ok (pos 0)

abbrev dropping : Env
dropping = record healthy { rows_affected = refused }

abbrev surroundings : Surroundings
surroundings = record {
  kind = λ h. pooled (h + 100);
  pool = some 1;
  stopped = λ t. leb 40 (length t);
  notification = one_job;
}

abbrev pinned : Pinned
pinned = record { conn = derive conn 7; session = 7; closer = some (release 7) }

abbrev quick : ListenOptions
quick = record { retry_delay = pos 100; max_backoff = pos 700; reacquire_after = pos 2 }

run_listener-returns_example :
    let r = run_listener dropping surroundings jobs quick true 41 pinned true hooked in
    ((e : Option Err) × (r.0 ≡ ret e))
    × (loans dropping 7 r.1.trace + returns 7 hooked.trace
        ≡ returns 7 r.1.trace + loans dropping 7 hooked.trace)
run_listener-returns_example =
    run_listener-returns dropping surroundings jobs quick true 40 41 pinned (λ t h. ground arith)
      (omega arith) refl true hooked 7

run_listener-Delivered_example :
    Delivered surroundings hooked.trace
      (run_listener dropping surroundings jobs quick true 41 pinned true hooked).1.trace
run_listener-Delivered_example =
    run_listener-Delivered dropping surroundings jobs quick true 41 pinned true hooked

listen_with_reconnect-delays_example :
    all
      (is_allowed (normalized quick))
      (listen_with_reconnect dropping surroundings jobs quick 41 pinned true hooked).1.trace
    ≡ true
listen_with_reconnect-delays_example =
    listen_with_reconnect-delays dropping surroundings jobs quick 41 pinned true hooked
      (omega arith) (omega arith) refl

listen-safe_example :
    ((e : Err) × (listen dropping surroundings jobs pinned true hooked ≡ (ret (err e), hooked)))
    ⊎ ((is_channel jobs ≡ true)
        × (true ≡ true)
        × (dropping.ctx_err pinned.conn.ctx hooked.trace ≡ none)
        × CanWait dropping surroundings jobs (surroundings.kind pinned.conn.r)
        × ((listen dropping surroundings jobs pinned true hooked).1
            ≡ (execute_context dropping pinned.conn.ctx pinned.conn (listen_sql jobs) [] hooked).1))
listen-safe_example = listen-safe dropping surroundings jobs pinned true hooked

abbrev moved : Session
moved = record { cur = derive conn 9; waiter = 109; replacement = some 9 }

stop-again_example :
    (first second : Ctx) × (((stop healthy surroundings jobs pinned moved >>= λ r.
    stop healthy surroundings jobs pinned r.1)
        hooked).1.trace
      ≡ exec 9 second (unlisten_sql jobs) []
        ∷ release_conn 9
        ∷ exec 9 first (unlisten_sql jobs) []
        ∷ hooked.trace)
stop-again_example = stop-again healthy surroundings jobs pinned moved hooked refl

-- This run delivers the job, borrows connection 7 twice and gives it back twice.
run_test :
    (dispatched (run_listener dropping surroundings jobs quick true 41 pinned true hooked).1.trace
      ≡ codes "resize" ∷ [])
    × (loans dropping 7
          (run_listener dropping surroundings jobs quick true 41 pinned true hooked).1.trace
        ≡ 2)
    × (returns 7 (run_listener dropping surroundings jobs quick true 41 pinned true hooked).1.trace
        ≡ 2)
unfolding run_listener codes execute_context fire_before_context exec_replied finish track
    fire_after_context is
run_test = (refl, refl, refl)
