-- ===== src/Transaction/Script.antt =====
-- A transaction whose function is a list of statements, run in turn by the Execute of its Tx: the whole of
-- what the server is sent, from the begin to the commit or the rollback.
use hellnet_lib_database.Prelude.{◌≡◌, ◌⊎◌, Option, none, some, List, [], ◌∷◌, ℕ, false}
use hellnet_lib_database.Prelude.Int.{ℤ}
use hellnet_lib_database.Text.{Text}
use hellnet_lib_database.Errors.{Err, wrapf, join}
use hellnet_lib_database.World.{
  Value, Handle, Ctx, with_timeout, op_exec, Hook, begin, rollback_tx, Trace, ok, err, Env, World,
  Outcome, ret, push, Event,
}
use hellnet_lib_database.World.Exec.{M, pure, ◌>>=◌}
use hellnet_lib_database.Hooks.{snapshot}
use hellnet_lib_database.Core.{Conn, attached, derive, registry_of}
use hellnet_lib_database.Core.HookCalls.{marks, observed_run}
use hellnet_lib_database.Core.Observed.{exec_sent}
use hellnet_lib_database.Database.{Span}
use hellnet_lib_database.Connection.{tx_execute}
use hellnet_lib_database.Transaction.Resolve.{fresh, committing}

abbrev pub Script : Type 0
Script = List (Text × List Value)

-- `for … { if _, err := tx.Execute(…); err != nil { return err } }; return nil`
abbrev pub next_if : M (Option Err) → ℤ × Option Err → M (Option Err)
next_if next (n, none) = next
next_if next (n, some e) = pure (some e)

unfoldable pub run_script : Env → Span → Script → Conn → M (Option Err)
run_script env span [] tx = pure none
run_script env span ((sql, args) ∷ more) tx =
    let next = run_script env span more tx in tx_execute env span sql args tx >>= next_if next

-- `Scripted tx hs s e t u`: between `t` and `u` the statements of `s` were sent on `tx`, in their order and each
-- once, with the hooks called around it; all of them if `e` is none, otherwise up to the one that failed with it.
pub data Scripted (tx : Conn) (hs : List Hook) : Script → Option Err → Trace → Trace → Type 0 where
  all_sent : {t : Trace} → Scripted tx hs [] none t t
  sent :
      {sql : Text} {args : List Value} {more : Script} {e : Option Err} {t u v : Trace} (d : ℕ)
      (n : ℤ)
      → v ≡ observed_run tx op_exec sql args hs (exec_sent tx.ctx tx sql args) d none n t
      → Scripted tx hs more e v u
      → Scripted tx hs ((sql, args) ∷ more) e t u
  stopped :
      {sql : Text} {args : List Value} {more : Script} {e : Err} {t u : Trace} (d : ℕ) (n : ℤ)
      → u ≡ observed_run tx op_exec sql args hs (exec_sent tx.ctx tx sql args) d (some e) n t
      → Scripted tx hs ((sql, args) ∷ more) (some e) t u

module _ (env : Env) (span : Span) (tx : Conn) (logged : tx.obs ≡ attached)
    (untraced : tx.ops ≡ false) (w0 : World) where
  abbrev hooks : List Hook
  hooks = snapshot (registry_of tx w0)

module _ (env : Env) (src : Conn) (logged : src.obs ≡ attached) where
  -- How the server saw the end of the transaction `tx`, whose function ended with `e` at the trace `t`: one commit,
  -- and a rollback if that failed; or one rollback, and another if that failed.
  abbrev pub Concluded : Handle → Option Err → Trace → Outcome (Option Err) × World → Type 0
  Concluded tx none t r =
      ((r.0 ≡ ret none) × (marks r.1.trace ≡ committing src tx ∷ t))
      ⊎ ((c : Err) × (r.0 ≡ ret (some (wrapf "database: commit: %w" [] c)))
          × (marks r.1.trace ≡ fresh src tx ∷ committing src tx ∷ t))
  Concluded tx (some e) t r =
      (ctx : Ctx) × (((r.0 ≡ ret (some e)) × (marks r.1.trace ≡ rollback_tx tx ctx ∷ t))
        ⊎ ((rb : Err) × (r.0 ≡ ret (some (join e (wrapf "database: rollback: %w" [] rb))))
            × (marks r.1.trace ≡ fresh src tx ∷ rollback_tx tx ctx ∷ t)))

  module _ (span : Span) (h : Handle) (level : Option Text) (s : Script) (w : World) where
    abbrev pub began : Event
    began = begin h level (with_timeout src.ctx src.o.connection_timeout)

    abbrev pub Transacted : Outcome (Option Err) × World → Type 0
    Transacted r =
        ((e : Err) × (env.handle (push began w).trace ≡ err e)
          × (r.0 ≡ ret (some (wrapf "database: begin transaction: %w" [] e)))
          × (marks r.1.trace ≡ began ∷ marks w.trace))
        ⊎ ((tx : Handle) × (e : Option Err) × (t : Trace) × (env.handle (push began w).trace
              ≡ ok tx)
            × Scripted (derive src tx) (snapshot (registry_of src w)) s e (began ∷ marks w.trace) t
            × Concluded tx e t r)
