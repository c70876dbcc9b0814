-- ===== src/Resilience.antt =====
-- database/resilience.go and `retried` of database/core.go. A closure that assigns captured
-- variables beside its error returns both: `fn : M (T × Option Err)`, with `T` the variables.
pub mod Classify
pub mod Retry
pub mod Count
use text.Mathlib.Text.{◌==◌ as str_eq}
use hellnet_lib_database.Prelude.{
  ℕ, zero, suc, ◌+◌, ◌^◌, String, Bool, true, false, ◌||◌, not, Option, none, some, List, [], ◌∷◌,
  any, if◌then◌else◌,
}
use hellnet_lib_database.Prelude.Int.{ℤ, pos, pos_part, leb_ℤ, ◌*ℤ◌, int64}
use hellnet_lib_database.Errors.{Err, canceled, deadline_exceeded, wrapf, join, is, as_pg_error}
use hellnet_lib_database.World.{
  World, Ctx, background, Env, Event, Outcome, no_fuel, log_warn, retry_count, wait, panics,
  nil_logger,
}
use hellnet_lib_database.World.Exec.{M, pure, ◌>>=◌, ◌>>◌, emit, ask, continue}

abbrev pub non_transient_sql_states : List String
non_transient_sql_states = "42601" ∷ "23505" ∷ "23503" ∷ "42501" ∷ "42P01" ∷ "42703" ∷ []

pub record RetryPolicy : Type 0 where
  pub enabled : Bool
  pub max_count : ℤ
  pub base_delay : ℤ
  pub counted : Bool  -- p.retries is not nil

-- NewRetryPolicy
abbrev pub new_retry_policy : Bool → ℤ → ℤ → RetryPolicy
new_retry_policy enabled max_count base_delay = record {
  enabled = enabled;
  max_count = max_count;
  base_delay = base_delay;
  counted = false;
}

-- withObservability, by whether the observability has a counter of retries
abbrev pub with_observability : Bool → RetryPolicy → RetryPolicy
with_observability counter p = record p { counted = counter }

unfoldable pub is_permanent : Option String → Bool
is_permanent none = false
is_permanent (some code) = any (str_eq code) non_transient_sql_states

-- IsTransient
unfoldable pub is_transient : Option Err → Bool
unfolding is_permanent
is_transient none = false
is_transient (some e) =
    if is e canceled
    then false
    else if is e deadline_exceeded
    then false
    else if is_permanent (as_pg_error e)
    then false
    else true

-- shouldRetry
unfoldable pub should_retry : RetryPolicy → Option Err → ℕ → Bool
should_retry p none attempt = false
should_retry p (some e) attempt =
    if not p.enabled || leb_ℤ p.max_count (pos attempt) then false else is_transient (some e)

-- p.baseDelay << attempt, as time.Duration keeps it
unfoldable pub backoff : RetryPolicy → ℕ → ℤ
backoff p attempt = int64 (p.base_delay *ℤ pos (2 ^ attempt))

abbrev discard : {T : Type 0} → T → T → Option Err → T × Option Err
discard zero_value out none = (out, none)
discard zero_value out (some e) = (zero_value, some e)

module _ (env : Env) where
  -- The `select` between ctx.Done() and the timer: an error is ctx.Err().
  unfoldable pub sleep : RetryPolicy → Ctx → ℕ → M (Option Err)
  unfolding backoff
  sleep p ctx attempt = ask (λ w. env.failure w.trace) (wait ctx (backoff p attempt))

  unfoldable pub count_retry : Bool → M (Unit {0})
  count_retry true = emit retry_count
  count_retry false = pure tt

  module _ {T : Type 0} (p : RetryPolicy) (ctx : Ctx) (fn : M (T × Option Err)) where
    -- an interrupted backoff joins the error of the operation with that of the context
    unfoldable pub resume : M (T × Option Err) → T → Err → Option Err → M (T × Option Err)
    resume next out e none = next
    resume next out e (some s) =
        pure (out, some (join e (wrapf "database: retry aborted: %w" [] s)))

    unfoldable pub settle : ℕ → M (T × Option Err) → T → Option Err → M (T × Option Err)
    unfolding should_retry sleep count_retry resume
    settle attempt next out none = pure (out, none)
    settle attempt next out (some e) =
        if not (should_retry p (some e) attempt) then pure (out, some e) else do
          emit (log_warn "database transient error, retrying")
          count_retry p.counted
          s ← sleep p ctx attempt
          resume next out e s

    -- the `for` of `do`
    unfoldable pub do_loop : ℕ → ℕ → M (T × Option Err)
    unfolding settle
    do_loop zero attempt w = (no_fuel, w)
    do_loop (suc fuel) attempt w =
        let next = do_loop fuel (suc attempt) in
        continue (fn w).0 (λ r. settle attempt next r.0 r.1) (fn w).1

    -- `do`. The loop makes at most max_count + 1 rounds, so this fuel is enough.
    unfoldable pub do_retry : M (T × Option Err)
    unfolding do_loop
    do_retry = if not p.enabled then fn else do_loop (suc (pos_part p.max_count)) 0

    -- `retried`: the variable keeps what the last attempt assigned
    unfoldable pub retried : M (T × Option Err)
    unfolding do_retry
    retried = do_retry

  -- `Do`
  abbrev pub do_background : {T : Type 0} → RetryPolicy → M (T × Option Err) → M (T × Option Err)
  do_background p = do_retry p background

  -- `DoValue`, with the zero value of T
  unfoldable pub do_value : {T : Type 0} → RetryPolicy → T → M (T × Option Err) → M (T × Option Err)
  unfolding do_retry
  do_value p zero_value fn = do r ← do_background p fn; pure (discard zero_value r.0 r.1)
