-- ===== src/Transaction/Recorded.antt =====
-- What the collector in use records of a transaction.
use hellnet_lib_database.Prelude.{
  ◌≡◌, refl, ◌⊎◌, inl, inr, Bool, true, false, Option, none, some, [], ◌∷◌, arith, ℕ, Option-cases,
  if◌then◌else◌,
}
use hellnet_lib_database.Text.{Text}
use hellnet_lib_database.Errors.{Err}
use hellnet_lib_database.World.{
  Handle, Event, record_tx, record_compensation, commit, rollback, panic, Trace, ok, Env, World,
  Outcome, ret, panics, no_fuel,
}
use hellnet_lib_database.World.Exec.{M}
use hellnet_lib_database.Hooks.{observed}
use hellnet_lib_database.Core.{Conn, attached, derive, registry_of}
use hellnet_lib_database.Transaction.{resolve, run_transactional}
use hellnet_lib_database.Transaction.Resolve.{committing, rolling}
use hellnet_lib_database.Transaction.Atomic.{started, transaction_begun}

abbrev is_record : Event → Bool
is_record (record_tx _ _) = true
is_record (record_compensation _) = true
is_record _ = false

-- what the collectors were told of transactions, the newest first
abbrev pub records : Trace → Trace
records [] = []
records (e ∷ t) = let rest = records t in if is_record e then e ∷ rest else rest

module _ (env : Env) (src : Conn) (m : ℕ) (tx : Handle) where
  -- Collector `m` was told how the transaction ended whose function ended as `o` in the world `w`.
  abbrev pub Recorded : Outcome (Option Err) → World → Trace → Type 0
  Recorded (ret none) w t =
      ((env.failure (committing src tx ∷ w.trace) ≡ none)
        × (records t ≡ record_tx m commit ∷ records w.trace))
      ⊎ ((e : Err) × (env.failure (committing src tx ∷ w.trace) ≡ some e)
          × (records t ≡ record_tx m rollback ∷ record_compensation m ∷ records w.trace))
  Recorded (ret (some e)) w t =
      ((env.failure (rolling env src tx w ∷ w.trace) ≡ none)
        × (records t ≡ record_tx m rollback ∷ records w.trace))
      ⊎ ((rb : Err) × (env.failure (rolling env src tx w ∷ w.trace) ≡ some rb)
          × (records t ≡ record_tx m panic ∷ record_compensation m ∷ records w.trace))
  Recorded (panics x) w t = records t ≡ record_tx m panic ∷ record_compensation m ∷ records w.trace
  Recorded no_fuel w t = records t ≡ records w.trace

  resolve-Recorded :
      src.obs ≡ attached
      → (o : Outcome (Option Err)) (w : World)
      → Recorded o w (resolve env src (some m) tx o w).1.trace
  unfolding resolve
  resolve-Recorded logged (ret none) w =
      elim (Option-cases (env.failure (committing src tx ∷ w.trace))) [
        | inl n ↦ inl (n, rw n (ground arith))
        | inr (e, s) ↦ inr (e, s, rw s (rw logged (ground arith)))
      ]
  resolve-Recorded logged (ret (some e)) w =
      elim (Option-cases (env.failure (rolling env src tx w ∷ w.trace))) [
        | inl n ↦ inl (n, rw n (ground arith))
        | inr (rb, s) ↦ inr (rb, s, rw s (rw logged (ground arith)))
      ]
  resolve-Recorded logged (panics x) w = rw logged (ground arith)
  resolve-Recorded logged no_fuel w = refl

-- On a connection with its logger, the collector that is in use when a transaction has begun, and no other, is told
-- how it ended, once its function has: `commit` if the commit worked; `rollback` if the function returned an
-- error and the rollback worked; `rollback`, after a compensation, if the commit failed; and `panic`, after a
-- compensation, if the function panicked, or returned an error and the rollback failed too.
pub run_transactional-Recorded :
    (env : Env) (src : Conn) (logged : src.obs ≡ attached) (h : Handle) (level : Option Text)
    (fn : Conn → M (Option Err)) (w : World) (tx : Handle) (m : ℕ)
    → env.handle (started env src logged h level fn w).trace ≡ ok tx
    → observed (registry_of src (started env src logged h level fn w)) ≡ some m
    → let r = fn (derive src tx) (started env src logged h level fn w) in
      Recorded env src m tx r.0 r.1 (run_transactional env h level src fn w).1.trace
run_transactional-Recorded env src logged h level fn w tx m began in_use =
    let r = fn (derive src tx) (started env src logged h level fn w) in
    rw (transaction_begun env src logged h level fn w tx began, in_use)
      (resolve-Recorded env src m tx logged r.0 r.1)
