-- ===== src/Listen/Loop.antt =====
-- database/listen.go: listenLoop. Each round of its two loops waits or sleeps once, so that the fuel of a
-- run bounds the events that come before its end.
use hellnet_lib_database.Prelude.{
  ℕ, zero, suc, Bool, true, false, not, ◌||◌, Option, none, some, [], if◌then◌else◌,
}
use hellnet_lib_database.Prelude.Int.{ℤ, pos, leb_ℤ, ltb_ℤ, ◌*ℤ◌, int64}
use hellnet_lib_database.Text.{Text}
use hellnet_lib_database.Errors.{Err, is, deadline_exceeded, canceled}
use hellnet_lib_database.World.{
  Handle, with_timeout, wait_notification, go_handler, sleep_backoff, log_warn, log_info, Reply, ok,
  err, Env, ret, no_fuel,
}
use hellnet_lib_database.World.Exec.{M, pure, ◌>>=◌, ◌>>◌, emit, ask}
use hellnet_lib_database.Core.{Conn}
use hellnet_lib_database.Core.Operations.{execute_context}
use hellnet_lib_database.Listen.{
  ListenOptions, no_options, normalized, Surroundings, Session, listen_sql, relisten_on_fresh,
  listen, stop,
}
use hellnet_lib_database.Connection.{Pinned}

-- `min(backoff*2, opts.MaxBackoff)`, on int64
unfoldable pub next_backoff : ListenOptions → ℤ → ℤ
next_backoff opts b =
    let doubled = int64 (b *ℤ pos 2) in
    if ltb_ℤ opts.max_backoff doubled then opts.max_backoff else doubled

module _ (env : Env) (l : Surroundings) (channel : Text) (opts : ListenOptions) where
  -- what ends the inner loop: a stop, or a LISTEN that worked, with the backoff by then
  abbrev pub Relistened : Type 0
  Relistened = Option ℤ × Session

  -- relistenOnFreshConn answered
  unfoldable pub on_fresh : (ℕ → Session → M Relistened) → ℤ → Bool × Session → M Relistened
  on_fresh next b (true, s) = do
    emit (log_info "database re-listen succeeded on a fresh pooled connection")
    pure (some b, s)
  on_fresh next b (false, s) = next 0 s

  unfoldable pub reacquire :
      (ℕ → Session → M Relistened) → Conn → ℕ → ℤ → Session → Option Handle → M Relistened
  unfolding on_fresh relisten_on_fresh
  reacquire next c failures b s none = next failures s
  reacquire next c failures b s (some pool) =
      if leb_ℤ opts.reacquire_after (pos failures)
      then relisten_on_fresh env l channel s c pool >>= on_fresh next b
      else next failures s

  -- LISTEN on the connection of the session answered
  unfoldable pub relisten_answered :
      (ℕ → Session → M Relistened) → Conn → ℕ → ℤ → Session → ℤ × Option Err → M Relistened
  unfolding reacquire
  relisten_answered next c failures b s (n, none) = do
    emit (log_info "database re-listen succeeded")
    pure (some b, s)
  relisten_answered next c failures b s (n, some e) = do
    emit (log_warn "database re-listen attempt failed")
    reacquire next c (suc failures) b s l.pool

  -- sleepCancellable answered whether a stop came
  unfoldable pub sleep_answered :
      (ℕ → Session → M Relistened) → Conn → ℕ → ℤ → Session → Bool → M Relistened
  unfolding relisten_answered
  sleep_answered next c failures b s true = pure (none, s)
  sleep_answered next c failures b s false = do
    r ← execute_context env c.ctx c (listen_sql channel) []
    relisten_answered next c failures b s r

  -- the inner `for`
  unfoldable pub relisten : ℕ → Conn → ℤ → ℕ → Session → M Relistened
  unfolding next_backoff sleep_answered
  relisten zero c backoff failures s w = (no_fuel, w)
  relisten (suc fuel) c backoff failures s w =
      let b = next_backoff opts backoff in
      let next = relisten fuel c b in
      (ask (λ v. l.stopped v.trace) (sleep_backoff backoff) >>= sleep_answered next c failures b s)
        w

  module _ (reconnect : Bool) where
    unfoldable pub resumed : (ℤ → Session → M Session) → Relistened → M Session
    resumed next (none, s) = pure s
    resumed next (some b, s) = next b s

    -- a real transport failure
    unfoldable pub failed : M Relistened → (ℤ → Session → M Session) → Session → M Session
    unfolding resumed
    failed again next s w =
        if l.stopped w.trace
        then (ret s, w)
        else if not reconnect
        then (emit (log_warn "database listen aborted by connection error") >> pure s) w
        else (emit (log_warn "database listen failed; scheduling re-listen")
              >> (again >>= resumed next))
            w

    -- WaitForNotification answered; a payload starts a goroutine of the handler
    unfoldable pub received :
        M Relistened → (ℤ → Session → M Session) → ℤ → Session → Reply (Option Text) → M Session
    unfolding failed
    received again next backoff s (ok (some payload)) = do
      emit (go_handler payload)
      next opts.retry_delay s
    received again next backoff s (ok none) = next opts.retry_delay s
    received again next backoff s (err e) =
        if is e deadline_exceeded || is e canceled then next backoff s else failed again next s

    -- a round of the outer `for`, by the state of the stored context at its top
    unfoldable pub round :
        M Relistened → (ℤ → Session → M Session) → ℤ → Session → Option Err → M Session
    unfolding received
    round again next backoff s (some e) w =
        (emit (log_warn "database listen stopped: context done") >> pure s) w
    round again next backoff s none w =
        if l.stopped w.trace
        then (ret s, w)
        else (ask (λ v. l.notification v.trace)
                (wait_notification s.waiter (with_timeout s.cur.ctx (pos 1000000000)))
              >>= received again next backoff s)
            w

    -- the outer `for`
    unfoldable pub listen_loop : ℕ → ℤ → Session → M Session
    unfolding round relisten
    listen_loop zero backoff s w = (no_fuel, w)
    listen_loop (suc fuel) backoff s w =
        let next = listen_loop fuel in
        let again = relisten fuel s.cur backoff 0 s in
        round again next backoff s (env.ctx_err s.cur.ctx w.trace) w

    unfoldable pub listened : ℕ → Pinned → Reply Session → M (Option Err)
    unfolding listen_loop stop
    listened fuel c (err e) = pure (some e)
    listened fuel c (ok s) = do
      s' ← listen_loop fuel opts.retry_delay s
      r ← stop env l channel c s'
      pure r.0

    -- a whole listener: `listen`, its loop, and the stopFn that joins it
    unfoldable pub run_listener : ℕ → Pinned → Bool → M (Option Err)
    unfolding listened listen
    run_listener fuel c handled = do r ← listen env l channel c handled; listened fuel c r

-- Listen, with what its caller does until it stops
unfoldable pub listen_once : Env → Surroundings → Text → ℕ → Pinned → Bool → M (Option Err)
unfolding run_listener
listen_once env l channel = run_listener env l channel no_options false

-- ListenWithReconnect, likewise
unfoldable pub listen_with_reconnect :
    Env → Surroundings → Text → ListenOptions → ℕ → Pinned → Bool → M (Option Err)
unfolding run_listener normalized
listen_with_reconnect env l channel opts = run_listener env l channel (normalized opts) true
