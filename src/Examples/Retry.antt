-- ===== src/Examples/Retry.antt =====
-- Runs of the retry loop: an operation that fails once, then succeeds.
use hellnet_lib_database.Prelude.{ℕ, ◌≤◌, ◌≡◌, refl, ◌≢◌, true, Option, none, some, [], ◌∷◌}
use hellnet_lib_database.Prelude.Int.{pos}
use hellnet_lib_database.Errors.{Err, is, as_pg_error}
use hellnet_lib_database.World.{
  Trace, World, background, exec, World, ret, no_fuel, push, empty_world,
}
use hellnet_lib_database.World.Exec.{M}
use hellnet_lib_database.Resilience.{
  RetryPolicy, new_retry_policy, is_transient, is_permanent, should_retry, do_retry,
}
use hellnet_lib_database.Resilience.Retry.{
  Attempts, again, succeeded, calls, slept, do_retry-Attempts, do_retry_unique,
}
use hellnet_lib_database.Examples.{healthy, serialization_failure}

abbrev policy : RetryPolicy
policy = new_retry_policy true (pos 3) (pos 100)

-- sends a statement; only the first time it fails
abbrev answer : Trace → ℕ × Option Err
answer [] = (0, some serialization_failure)
answer (_ ∷ _) = (1, none)

abbrev flaky : M (ℕ × Option Err)
flaky w = (ret (answer w.trace), push (exec 1 background [] []) w)

flaky_ends : (w : World) → (flaky w).0 ≢ no_fuel
flaky_ends w h = cc h

do_retry-Attempts_example :
    (run : Attempts healthy policy background flaky 0 empty_world
      (do_retry healthy policy background flaky empty_world))
    × (calls healthy policy background flaky run ≤ 4)
do_retry-Attempts_example =
    do_retry-Attempts healthy policy background flaky flaky_ends empty_world refl

abbrev first_call : World
first_call = push (exec 1 background [] []) empty_world

abbrev after_backoff : World
after_backoff = slept healthy policy background flaky 0 first_call

retried_once :
    Attempts healthy policy background flaky 0 empty_world
      (ret (1, none), push (exec 1 background [] []) after_backoff)
unfolding should_retry is_transient is as_pg_error is_permanent
retried_once = again refl refl refl (succeeded refl)

do_retry_unique_example :
    do_retry healthy policy background flaky empty_world
    ≡ (ret (1, none), push (exec 1 background [] []) after_backoff)
do_retry_unique_example =
    do_retry_unique healthy policy background flaky empty_world
      (ret (1, none), push (exec 1 background [] []) after_backoff) refl retried_once
