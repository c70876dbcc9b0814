-- ===== src/Transaction.antt =====
-- database/transaction.go: runTransactional and what is built on it. `fn` is the application's, an
-- arbitrary call that gets the connection of the transaction. The connection `src` is one that has its
-- providers, as that of every DB, Conn and Tx has.
pub mod Resolve
pub mod Atomic
pub mod Script
pub mod Recorded
pub mod Level
use hellnet_lib_database.Prelude.{
  ℕ, String, Bool, true, false, Option, none, some, List, [], ◌∷◌, map, if◌then◌else◌,
}
use hellnet_lib_database.Text.{Text, codes, text_eq, to_lower, trim_space}
use hellnet_lib_database.Errors.{Err, errorf, wrapf, join}
use hellnet_lib_database.World.{
  Handle, Ctx, with_timeout, Event, begin, commit_tx, rollback_tx, log_warn, record_tx,
  record_compensation, observe_transaction, TxResult, commit, rollback, panic, Reply, ok, err, Env,
  World, Outcome, ret, panics, no_fuel,
}
use hellnet_lib_database.World.Exec.{M, pure, continue, ◌>>=◌, ◌>>◌, emit, ask}
use hellnet_lib_database.Options.{Options}
use hellnet_lib_database.Hooks.{observed}
use hellnet_lib_database.Core.{Conn, derive, registry_of, warn_to, fresh_rollback_ctx}

-- recordTx and recordRollbackCompensation, on a collector that may be nil
unfoldable pub record_result : Option ℕ → TxResult → M (Unit {0})
record_result none r = pure tt
record_result (some m) r = emit (record_tx m r)

unfoldable pub record_rollback_compensation : Option ℕ → M (Unit {0})
record_rollback_compensation none = pure tt
record_rollback_compensation (some m) = emit (record_compensation m)

module _ (env : Env) where
  -- rollbackCtx, by the state of the base context when it is called
  unfoldable pub rollback_ctx : Ctx → Options → World → Ctx
  rollback_ctx base o w = elim (env.ctx_err base w.trace) [
    | some e ↦ fresh_rollback_ctx base o
    | none ↦ with_timeout base o.command_timeout
  ]

  abbrev pub rolled_back : Handle → Ctx → M (Option Err)
  rolled_back h ctx = ask (λ w. env.failure w.trace) (rollback_tx h ctx)

  abbrev pub warn_if : Conn → String → Option Err → M (Unit {0})
  warn_if src message none = pure tt
  warn_if src message (some e) = warn_to src.obs message

  -- beginTxBounded
  abbrev begun : Reply Handle → Reply Handle
  begun (ok h) = ok h
  begun (err e) = err (wrapf "database: begin transaction: %w" [] e)

  unfoldable pub begin_tx_bounded : Conn → Handle → Option Text → M (Reply Handle)
  begin_tx_bounded src h level = do
    reply ←
        ask (λ w. env.handle w.trace)
          (begin h level (with_timeout src.ctx src.o.connection_timeout))
    pure (begun reply)

  module _ (src : Conn) (met : Option ℕ) (tx : Handle) where
    -- the deferred function, when `done` was not set
    unfoldable pub deferred_rollback : M (Unit {0})
    unfolding record_rollback_compensation record_result warn_to
    deferred_rollback = do
      record_rollback_compensation met
      record_result met panic
      emit (observe_transaction panic)
      e ← rolled_back tx (fresh_rollback_ctx src.ctx src.o)
      warn_if src "database deferred rollback after panic" e

    -- `fn` returned the error `e`, and its rollback answered
    unfoldable pub fn_failed : Err → Option Err → M (Option Err)
    unfolding deferred_rollback
    fn_failed e (some rb) = do
      deferred_rollback
      pure (some (join e (wrapf "database: rollback: %w" [] rb)))
    fn_failed e none = do
      record_result met rollback
      emit (observe_transaction rollback)
      pure (some e)

    -- the commit answered
    unfoldable pub committed : Option Err → M (Option Err)
    unfolding record_rollback_compensation record_result warn_to
    committed none = do record_result met commit; emit (observe_transaction commit); pure none
    committed (some e) = do
      record_rollback_compensation met
      record_result met rollback
      emit (observe_transaction rollback)
      rb ← rolled_back tx (fresh_rollback_ctx src.ctx src.o)
      warn_if src "database post-commit rollback" rb
      pure (some (wrapf "database: commit: %w" [] e))

    -- what runTransactional does once `fn` has ended
    unfoldable pub resolve : Outcome (Option Err) → M (Option Err)
    unfolding fn_failed committed rollback_ctx
    resolve (ret (some e)) w =
        let ctx = rollback_ctx src.ctx src.o w in (rolled_back tx ctx >>= fn_failed e) w
    resolve (ret none) w =
        (ask (λ v. env.failure v.trace) (commit_tx tx (with_timeout src.ctx src.o.command_timeout))
            >>= committed)
          w
    resolve (panics x) w = let r = deferred_rollback w in continue r.0 (λ _ v. (panics x, v)) r.1
    resolve no_fuel w = (no_fuel, w)

  unfoldable pub with_tx : Conn → (Conn → M (Option Err)) → Reply Handle → M (Option Err)
  with_tx src fn (err e) w = (ret (some e), w)
  with_tx src fn (ok tx) w =
      let met = observed (registry_of src w) in
      let r = fn (derive src tx) w in resolve src met tx r.0 r.1

  -- runTransactional, beginning at `h` with the isolation level `level` if any
  unfoldable pub run_transactional :
      Handle → Option Text → Conn → (Conn → M (Option Err)) → M (Option Err)
  unfolding begin_tx_bounded with_tx
  run_transactional h level src fn = do reply ← begin_tx_bounded src h level; with_tx src fn reply

  -- DB.Transactional with `h` the pool, Conn.Transactional with `h` the connection
  unfoldable pub transactional : Handle → Conn → (Conn → M (Option Err)) → M (Option Err)
  unfolding run_transactional
  transactional h src fn = run_transactional h none src fn

  -- TransactionalContext, of either
  unfoldable pub transactional_context :
      Handle → Conn → Ctx → (Ctx → Conn → M (Option Err)) → M (Option Err)
  unfolding run_transactional
  transactional_context h src ctx fn = run_transactional h none (record src { ctx = ctx }) (fn ctx)

abbrev pub isolation_levels : List Text
isolation_levels = codes "read committed" ∷ codes "repeatable read" ∷ codes "serializable" ∷ []

abbrev find_text : Text → List Text → Option Text
find_text t [] = none
find_text t (s ∷ ss) = if text_eq s t then some s else find_text t ss

abbrev level_or : Text → Option Text → Reply Text
level_or level (some s) = ok s
level_or level none = err (
    errorf "database: invalid isolation level %q; valid levels: %q, %q, %q"
      (level ∷ isolation_levels))

-- parseIsolationLevel
unfoldable pub parse_isolation_level : Text → Reply Text
parse_isolation_level level =
    level_or level (find_text (map to_lower (trim_space level)) isolation_levels)

module _ (env : Env) (supports_levels : Handle → Bool) (unsupported : String) where
  unfoldable pub at_level : Handle → Conn → (Conn → M (Option Err)) → Reply Text → M (Option Err)
  at_level h src fn (err e) = pure (some e)
  at_level h src fn (ok level) =
      if supports_levels h
      then run_transactional env h (some level) src fn
      else pure (some (errorf unsupported []))

  -- DB.TransactionalLevel and Conn.TransactionalLevel, which differ in the message `unsupported`
  unfoldable pub transactional_level :
      Text → Handle → Conn → (Conn → M (Option Err)) → M (Option Err)
  transactional_level level h src fn = at_level h src fn (parse_isolation_level level)
