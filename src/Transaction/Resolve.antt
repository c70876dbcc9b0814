-- ===== src/Transaction/Resolve.antt =====
-- How a transaction ends, by how its function ended.
use hellnet_lib_database.Prelude.{
  ℕ, ◌≡◌, Bool, true, false, Option, none, some, [], ◌∷◌, arith, Option-cases, ◌⊎◌, inl, inr,
  if◌then◌else◌,
}
use hellnet_lib_database.Errors.{Err, wrapf, join}
use hellnet_lib_database.World.{
  Handle, with_timeout, without_cancel, Event, commit_tx, rollback_tx, Trace, Env, World, ret,
  panics, Panic,
}
use hellnet_lib_database.Core.{Conn, attached}
use hellnet_lib_database.Transaction.{resolve, rollback_ctx, deferred_rollback}

-- the statements that end a transaction
abbrev pub is_terminal : Event → Bool
is_terminal (commit_tx _ _) = true
is_terminal (rollback_tx _ _) = true
is_terminal _ = false

abbrev pub terminal : Trace → Trace
terminal [] = []
terminal (e ∷ t) = let rest = terminal t in if is_terminal e then e ∷ rest else rest

-- the statements that runTransactional sends to end the transaction `tx`
module _ (src : Conn) (tx : Handle) where
  abbrev pub fresh : Event
  fresh = rollback_tx tx (with_timeout (without_cancel src.ctx) src.o.command_timeout)

  abbrev pub committing : Event
  committing = commit_tx tx (with_timeout src.ctx src.o.command_timeout)

abbrev pub rolling : Env → Conn → Handle → World → Event
rolling env src tx w = rollback_tx tx (rollback_ctx env src.ctx src.o w)

module _ (env : Env) (src : Conn) (met : Option ℕ) (tx : Handle) (logged : src.obs ≡ attached) where
  deferred_rollback_ends :
      (w : World)
      → ((deferred_rollback env src met tx w).0 ≡ ret tt)
        × (terminal (deferred_rollback env src met tx w).1.trace ≡ fresh src tx ∷ terminal w.trace)
  unfolding deferred_rollback
  deferred_rollback_ends w = rw logged (ground arith)

  -- On a connection with its logger, a function that returns no error has its transaction committed. If the commit fails, its error
  -- is returned, wrapped, after one rollback under a context that inherits no cancellation.
  pub resolve_success :
      (w : World)
      → let r = resolve env src met tx (ret none) w in
        ((env.failure (committing src tx ∷ w.trace) ≡ none)
          × (r.0 ≡ ret none)
          × (terminal r.1.trace ≡ committing src tx ∷ terminal w.trace))
        ⊎ ((e : Err) × (env.failure (committing src tx ∷ w.trace) ≡ some e)
            × (r.0 ≡ ret (some (wrapf "database: commit: %w" [] e)))
            × (terminal r.1.trace ≡ fresh src tx ∷ committing src tx ∷ terminal w.trace))
  unfolding resolve
  resolve_success w = elim (Option-cases (env.failure (committing src tx ∷ w.trace))) [
    | inl n ↦ inl (n, rw n (ground arith), rw n (ground arith))
    | inr (e, s) ↦ inr (e, s, rw s (rw logged (ground arith)), rw s (rw logged (ground arith)))
  ]

  -- On a connection with its logger, a function that returns the error `e` has its transaction rolled back and never committed. If
  -- the rollback works, `e` is returned. If it fails, its error is joined to `e`, and a second
  -- rollback is sent.
  pub resolve_error :
      (e : Err) (w : World)
      → let r = resolve env src met tx (ret (some e)) w in
        ((env.failure (rolling env src tx w ∷ w.trace) ≡ none)
          × (r.0 ≡ ret (some e))
          × (terminal r.1.trace ≡ rolling env src tx w ∷ terminal w.trace))
        ⊎ ((rb : Err) × (env.failure (rolling env src tx w ∷ w.trace) ≡ some rb)
            × (r.0 ≡ ret (some (join e (wrapf "database: rollback: %w" [] rb))))
            × (terminal r.1.trace ≡ fresh src tx ∷ rolling env src tx w ∷ terminal w.trace))
  unfolding resolve
  resolve_error e w = elim (Option-cases (env.failure (rolling env src tx w ∷ w.trace))) [
    | inl n ↦ inl (n, rw n (ground arith), rw n (ground arith))
    | inr (rb, s) ↦ inr (rb, s, rw s (rw logged (ground arith)), rw s (rw logged (ground arith)))
  ]

  -- On a connection with its logger, a panic of the function passes on, after one rollback under a context that inherits no
  -- cancellation; nothing is committed.
  pub resolve_panic :
      (x : Panic) (w : World)
      → let r = resolve env src met tx (panics x) w in
        (r.0 ≡ panics x) × (terminal r.1.trace ≡ fresh src tx ∷ terminal w.trace)
  unfolding resolve
  resolve_panic x w = rw logged (ground arith)
