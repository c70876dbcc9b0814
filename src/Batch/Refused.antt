-- ===== src/Batch/Refused.antt =====
-- The results of a batch that the transaction could not send, and of one that it did.
use hellnet_lib_database.Prelude.{◌≡◌, refl, Bool, false, Option, none, some, List, [], ◌∷◌}
use hellnet_lib_database.Errors.{Err, errorf}
use hellnet_lib_database.World.{Handle, Env, World, ret}
use hellnet_lib_database.World.Exec.{M, pure, ◌>>=◌}
use hellnet_lib_database.Core.{Conn}
use hellnet_lib_database.Batch.{Batch, BatchResults, send_batch, exec_result, row_scan, close_batch}

-- the calls of a caller that reads results
pub data Call : Type 0 where
  exec_call row_call close_call : Call

abbrev pub run_call : Env → Call → BatchResults → M (Option Err × BatchResults)
run_call env exec_call br = do r ← exec_result env br; pure (r.1, br)
run_call env row_call br = do e ← row_scan env br; pure (e, br)
run_call env close_call br = close_batch env br

abbrev pub run_calls : Env → List Call → BatchResults → M (List (Option Err))
run_calls env [] br = pure []
run_calls env (c ∷ cs) br = do r ← run_call env c br; es ← run_calls env cs r.1; pure (r.0 ∷ es)

abbrev pub all_fail : Err → List Call → List (Option Err)
all_fail e [] = []
all_fail e (c ∷ cs) = some e ∷ all_fail e cs

-- the results of a batch that was not sent because of `e`
abbrev pub unsent : Err → BatchResults
unsent e = record { res = none; cancel = false; failed = some e }

refused_calls :
    (env : Env) (e : Err) (calls : List Call) (w : World)
    → run_calls env calls (unsent e) w ≡ (ret (all_fail e calls), w)
unfolding exec_result row_scan close_batch
refused_calls env e [] w = refl
refused_calls env e (exec_call ∷ cs) w = rw (refused_calls env e cs w)
refused_calls env e (row_call ∷ cs) w = rw (refused_calls env e cs w)
refused_calls env e (close_call ∷ cs) w = rw (refused_calls env e cs w)

-- On a transaction that cannot send a batch, every later call on its results, in whatever order and
-- number, returns the same error and reaches no driver: none of them meets the missing results.
pub send_batch-refused :
    (env : Env) (supports : Handle → Bool) (tx : Conn) (b : Batch) (calls : List Call) (w : World)
    → supports tx.r ≡ false
    → (send_batch env supports tx b >>= run_calls env calls) w
      ≡ (ret (all_fail (errorf "database: this transaction does not support batch" []) calls), w)
unfolding send_batch
send_batch-refused env supports tx b calls w h =
    rw h (refused_calls env (errorf "database: this transaction does not support batch" []) calls w)
