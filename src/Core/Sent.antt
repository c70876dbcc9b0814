-- ===== src/Core/Sent.antt =====
-- How many statements the operations of a connection send.
use hellnet_lib_database.Prelude.{ℕ, ◌+◌, ◌≤◌, ◌≡◌, true, false, arith}
use hellnet_lib_database.World.{Event, Trace, before_hook}
use hellnet_lib_database.World.Exec.{M}
use hellnet_lib_database.Resilience.Count.{count}
use hellnet_lib_database.Core.Growth.{Growth, Runs, is_statement, is_quiet}

-- at most `k` statements more
abbrev pub AtMost : ℕ → Trace → Trace → Type 0
AtMost k t u = count is_statement u ≤ k + count is_statement t

pub quiet-ne_statement : (e : Event) → is_quiet e ≡ true → is_statement e ≡ false
quiet-ne_statement (before_hook _ _) q = ground arith
quiet-ne_statement e q = ground arith

abbrev pub at_most : Growth AtMost
at_most = record {
  here = λ t. omega arith;
  chain = λ j k t u v a b. omega (arith, a, b);
  more = λ j k t u a. omega (arith, a);
  quiet = λ e t q. let n = quiet-ne_statement e q in rw n (omega arith);
  sent = λ e t s. rw s (omega arith);
}

-- `Sends k m`: the call ends, having sent at most `k` statements.
abbrev pub Sends : {A : Type 0} → ℕ → M A → Type 0
Sends k m = Runs AtMost k m
