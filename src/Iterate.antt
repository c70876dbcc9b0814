-- ===== src/Iterate.antt =====
-- runIter of database/iterate.go. What the driver delivers is a stream: the decoded rows, or errors
-- of decoding, that rows.Next() steps through, and the error that rows.Err() has at the end.
pub mod Watchdog
pub mod Consumer
pub mod Delivered
use hellnet_lib_database.Prelude.{
  Bool, true, false, ◌&&◌, not, Option, none, some, List, [], ◌∷◌, if◌then◌else◌,
}
use hellnet_lib_database.Prelude.Int.{ℤ}
use hellnet_lib_database.Text.{Text}
use hellnet_lib_database.Errors.{Err, deadline_exceeded, wrapf, is}
use hellnet_lib_database.World.{
  Value, Handle, with_cancel, query, watchdog_stop, close_rows, Reply, ok, err, Env, World, Outcome,
  push,
}
use hellnet_lib_database.World.Exec.{M, pure, ◌>>=◌, ◌>>◌, emit, ask}
use hellnet_lib_database.Core.{Conn, track}
use hellnet_lib_database.Database.{Db}
use hellnet_lib_database.Connection.{Pinned}

pub record Stream (T : Type 0) : Type 0 where
  pub rows : List (Reply T)
  pub final : Option Err

-- disarmAfter
unfoldable pub disarm_after : Bool → M Bool
disarm_after false = pure false
disarm_after true = do emit watchdog_stop; pure true

-- what is returned when rows.Next() is false, where `within` is the printed CommandTimeout
unfoldable pub stream_end : Text → Bool → Option Err → Option Err
stream_end within first_row none = none
stream_end within first_row (some e) =
    if first_row && is e deadline_exceeded
    then some (wrapf "database: first row not available within %s: %w" (within ∷ []) e)
    else some e

module _ {T : Type 0} (within : Text) (fn : T → M (Option Err)) (final : Option Err) where
  abbrev pub stop_or : M (Option Err) → Option Err → M (Option Err)
  stop_or next none = next
  stop_or next (some e) = pure (some (wrapf "database: iterator stopped by consumer: %w" [] e))

  abbrev pub consume : M (Option Err) → Reply T → M (Option Err)
  consume next (err e) = pure (some e)
  consume next (ok row) = fn row >>= stop_or next

  -- the loop of runIter, with the variable `firstRow`
  unfoldable pub iter_loop : Bool → List (Reply T) → M (Option Err)
  unfolding disarm_after stream_end
  iter_loop first_row [] = pure (stream_end within first_row final)
  iter_loop first_row (r ∷ rs) =
      let on_first = iter_loop (not true) rs in
      let on_later = iter_loop (not false) rs in
      do disarmed ← disarm_after first_row; consume (if disarmed then on_first else on_later) r

-- the deferred calls of runIter on a result set: watchdog.Stop, then rows.Close
abbrev pub closed : {A : Type 0} → Handle → Outcome A × World → Outcome A × World
closed rows (o, w) = (o, push (close_rows rows) (push watchdog_stop w))

-- `print` is Duration.String of package time
module _ (env : Env) (print : ℤ → Text) where
  unfoldable pub streamed :
      {T : Type 0}
      → Conn
      → (Handle → Stream T)
      → (T → M (Option Err))
      → Reply Handle
      → M (Option Err)
  unfolding iter_loop track
  streamed c stream fn (err e) w = (track env c >> pure (some e)) w
  streamed c stream fn (ok rows) w =
      closed rows
        (iter_loop (print c.o.command_timeout) fn (stream rows).final true (stream rows).rows w)

  -- runIter
  unfoldable pub run_iter :
      {T : Type 0}
      → Conn
      → Text
      → List Value
      → (Handle → Stream T)
      → (T → M (Option Err))
      → M (Option Err)
  unfolding streamed
  run_iter c sql args stream fn =
      ask (λ w. env.handle w.trace) (query c.r (with_cancel c.ctx) sql args)
      >>= streamed c stream fn

  module _ {T : Type 0} (sql : Text) (args : List Value) (stream : Handle → Stream T)
      (fn : T → M (Option Err)) where
    -- Iter, ConnIter, and TxIter on the connection of a transaction
    abbrev pub iter : Db → M (Option Err)
    iter db = run_iter db.conn sql args stream fn

    abbrev pub conn_iter : Pinned → M (Option Err)
    conn_iter c = run_iter c.conn sql args stream fn

    abbrev pub tx_iter : Conn → M (Option Err)
    tx_iter tx = run_iter tx sql args stream fn
