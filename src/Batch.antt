-- ===== src/Batch.antt =====
-- database/batch.go: a queue of statements that is sent in one round trip, and its results.
pub mod Refused
use hellnet_lib_database.Prelude.{
  ℕ, Bool, true, false, Option, none, some, List, [], ◌∷◌, ◌++◌, length, if◌then◌else◌,
}
use hellnet_lib_database.Prelude.Int.{ℤ, pos}
use hellnet_lib_database.Text.{Text}
use hellnet_lib_database.Errors.{Err, errorf}
use hellnet_lib_database.World.{
  Value, Handle, with_timeout, send_batch as send_batch_event, batch_exec, batch_row, batch_close,
  Reply, ok, err, Env, World, nil_result, push,
}
use hellnet_lib_database.World.Exec.{M, pure, throw, ◌>>=◌, ask}
use hellnet_lib_database.Core.{Conn}

-- Batch, by the statements queued so far
pub record Batch : Type 0 where
  pub queued : List (Text × List Value)

-- (*Tx).Batch
abbrev pub new_batch : Batch
new_batch = record { queued = [] }

-- Queue
unfoldable pub queue : Text → List Value → Batch → Batch
queue sql args b = record { queued = b.queued ++ (sql, args) ∷ [] }

-- Len
unfoldable pub len : Batch → ℕ
len b = length b.queued

-- BatchResults: the driver's results, whether the context is still to be released, and the error of
-- a batch that was not sent
pub record BatchResults : Type 0 where
  pub res : Option Handle
  pub cancel : Bool
  pub failed : Option Err

module _ (env : Env) where
  -- SendBatch; the driver's results are named by the transaction
  unfoldable pub send_batch : (Handle → Bool) → Conn → Batch → M BatchResults
  send_batch supports tx b =
      if supports tx.r
      then ask (λ _. record { res = some tx.r; cancel = true; failed = none })
          (send_batch_event tx.r (with_timeout tx.ctx tx.o.command_timeout) b.queued)
      else pure (record {
        res = none;
        cancel = false;
        failed = some (errorf "database: this transaction does not support batch" []);
      })

  -- a call of the driver's results, which may be a nil interface
  unfoldable pub on_results : {A : Type 0} → Option Handle → (Handle → M A) → M A
  on_results none f = throw nil_result
  on_results (some h) f = f h

  unfoldable pub exec_value : Reply ℤ → ℤ × Option Err
  exec_value (ok n) = (n, none)
  exec_value (err e) = (pos 0, some e)

  -- ExecResult
  unfoldable pub exec_result : BatchResults → M (ℤ × Option Err)
  unfolding on_results exec_value
  exec_result br = elim br.failed [
    | some e ↦ pure (pos 0, some e)
    | none ↦
        on_results br.res
          (λ h. do r ← ask (λ w. env.rows_affected w.trace) (batch_exec h); pure (exec_value r))
  ]

  -- RowScan, without what it assigns
  unfoldable pub row_scan : BatchResults → M (Option Err)
  unfolding on_results
  row_scan br = elim br.failed [
    | some e ↦ pure (some e)
    | none ↦ on_results br.res (λ h. ask (λ w. env.failure w.trace) (batch_row h))
  ]

  -- Close
  unfoldable pub close_batch : BatchResults → M (Option Err × BatchResults)
  unfolding on_results
  close_batch br =
      let released = record br { cancel = false } in
      elim br.failed [
        | some e ↦ pure (some e, released)
        | none ↦ do
          e ← on_results br.res (λ h. ask (λ w. env.failure w.trace) (batch_close h))
          pure (e, released)
      ]
