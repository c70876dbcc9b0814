-- ===== src/Core/HookCalls.antt =====
-- Which hooks an operation calls, and with what. Passes has what a pass over them leaves.
pub mod Passes
use hellnet_lib_database.Prelude.{
  ℕ, ◌≡◌, ◌≢◌, refl, ap, ◌∙◌, Bool, true, false, Option, none, List, [], ◌∷◌, arith, Option-cases,
  inl, inr, if◌then◌else◌,
}
use hellnet_lib_database.Prelude.Int.{ℤ, pos}
use hellnet_lib_database.Text.{Text}
use hellnet_lib_database.Errors.{Err}
use hellnet_lib_database.World.{
  Value, Ctx, Op, QueryInfo, Hook, user, collector, Event, before_hook, after_hook, exec, begin,
  commit_tx, rollback_tx, query, query_row, start_span, span_error, span_status, observe_operation,
  end_span, Trace, Env, World, Outcome, ret, panics, no_fuel,
}
use hellnet_lib_database.World.Exec.{M, pure, ◌>>◌, bind_ret}
use hellnet_lib_database.Hooks.{snapshot}
use hellnet_lib_database.Core.{
  Conn, attached, registry_of, visible_args, call_before, call_after, recovered, hook_loop,
  fire_before_context, fire_after_context, track, finish,
}

-- the calls of BeforeHook and AfterHook, the statements, the ends of transactions, and the spans
abbrev pub is_mark : Event → Bool
is_mark (before_hook _ _) = true
is_mark (after_hook _ _) = true
is_mark (exec _ _ _ _) = true
is_mark (query _ _ _ _) = true
is_mark (query_row _ _ _ _) = true
is_mark (begin _ _ _) = true
is_mark (commit_tx _ _) = true
is_mark (rollback_tx _ _) = true
is_mark (start_span _) = true
is_mark (span_error _) = true
is_mark (span_status _) = true
is_mark (observe_operation _ _) = true
is_mark end_span = true
is_mark _ = false

abbrev pub marks : Trace → Trace
marks [] = []
marks (e ∷ t) = let rest = marks t in if is_mark e then e ∷ rest else rest

-- one event for each hook, in the order of the registry
abbrev pub push_all : (Hook → Event) → List Hook → Trace → Trace
push_all f [] t = t
push_all f (h ∷ hs) t = push_all f hs (f h ∷ t)

-- what the hooks are told before a statement, and after it
abbrev pub info_before : Conn → Op → Text → List Value → QueryInfo
info_before c op sql args = record {
  op = op;
  sql = sql;
  args = visible_args c.o args;
  duration = 0;
  err = none;
  rows = pos 0;
}

abbrev pub info_after : Conn → Op → Text → List Value → ℕ → Option Err → ℤ → QueryInfo
info_after c op sql args d e rows = record {
  op = op;
  sql = sql;
  args = visible_args c.o args;
  duration = d;
  err = e;
  rows = rows;
}

-- one run of an operation: its statement between two passes over the hooks, in the order of the registry
abbrev pub observed_run :
    Conn → Op → Text → List Value → List Hook → Event → ℕ → Option Err → ℤ → Trace → Trace
observed_run c op sql args hs statement d e rows t =
    push_all (λ h. after_hook h (info_after c op sql args d e rows)) hs
      (statement ∷ push_all (λ h. before_hook h (info_before c op sql args)) hs t)

-- The operation returns `result`, having called each registered hook once, then sent `statement` and
-- nothing else, then called each hook once more, with the error and the row count.
abbrev pub Observed :
    {A : Type 0}
    → Conn
    → Op
    → Text
    → List Value
    → Event
    → Outcome A × World
    → World
    → A
    → Option Err
    → ℤ
    → Type 0
Observed c op sql args statement r w result e rows =
    (r.0 ≡ ret result)
    × ((d : ℕ) × (marks r.1.trace
          ≡ observed_run c op sql args (snapshot (registry_of c w)) statement d e rows
              (marks w.trace)))
    × (r.1.registry ≡ w.registry)
