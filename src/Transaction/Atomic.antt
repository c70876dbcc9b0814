-- ===== src/Transaction/Atomic.antt =====
-- What a caller of runTransactional may conclude from its result.
use hellnet_lib_database.Prelude.{ℕ, ◌≡◌, refl, inl, inr, true, Option, none, some, [], ◌∷◌}
use hellnet_lib_database.Text.{Text}
use hellnet_lib_database.Errors.{Err, Sentinel, wrapf, join, is}
use hellnet_lib_database.World.{
  Handle, with_timeout, begin, ok, err, Reply-cases, Env, World, Outcome, ret, panics, no_fuel,
  push,
}
use hellnet_lib_database.World.Exec.{M}
use hellnet_lib_database.Hooks.{observed}
use hellnet_lib_database.Core.{Conn, attached, derive, registry_of}
use hellnet_lib_database.Transaction.{resolve, run_transactional}
use hellnet_lib_database.Transaction.Resolve.{
  committing, resolve_success, resolve_error, resolve_panic,
}

module _ (env : Env) (src : Conn) (logged : src.obs ≡ attached) where
  resolve-none :
      (met : Option ℕ) (tx : Handle) (o : Outcome (Option Err)) (w : World)
      → (resolve env src met tx o w).0 ≡ ret none
      → (o ≡ ret none) × (env.failure (committing src tx ∷ w.trace) ≡ none)
  resolve-none met tx (ret none) w h = elim (resolve_success env src met tx logged w) [
    | inl (n, _, _) ↦ (refl, n)
    | inr (e, _, r, _) ↦ cc
  ]
  resolve-none met tx (ret (some e)) w h = elim (resolve_error env src met tx logged e w) [
    | inl (_, r, _) ↦ cc
    | inr (rb, _, r, _) ↦ cc
  ]
  resolve-none met tx (panics x) w h = let (r, _) = resolve_panic env src met tx logged x w in cc
  resolve-none met tx no_fuel w h = unfold resolve in cc

  module _ (h : Handle) (level : Option Text) (fn : Conn → M (Option Err)) where
    abbrev pub started : World → World
    started w = push (begin h level (with_timeout src.ctx src.o.connection_timeout)) w

    -- A transaction that cannot begin does not run its function and sends nothing more; the error
    -- of the driver is returned, wrapped.
    pub transaction_not_begun :
        (w : World) (e : Err)
        → env.handle (started w).trace ≡ err e
        → run_transactional env h level src fn w
          ≡ (ret (some (wrapf "database: begin transaction: %w" [] e)), started w)
    unfolding run_transactional
    transaction_not_begun w e p = rw p

    pub transaction_begun :
        (w : World) (tx : Handle)
        → env.handle (started w).trace ≡ ok tx
        → let r = fn (derive src tx) (started w) in
          run_transactional env h level src fn w
          ≡ resolve env src (observed (registry_of src (started w))) tx r.0 r.1
    unfolding run_transactional
    transaction_begun w tx p = rw p

    -- On a connection with its logger, no error from a transaction means that it began, that its function returned no error, and
    -- that the server confirmed the commit.
    pub transaction_committed :
        (w : World)
        → (run_transactional env h level src fn w).0 ≡ ret none
        → (tx : Handle) × (env.handle (started w).trace ≡ ok tx)
          × ((fn (derive src tx) (started w)).0 ≡ ret none)
          × (env.failure (committing src tx ∷ (fn (derive src tx) (started w)).1.trace) ≡ none)
    transaction_committed w r = elim (Reply-cases (env.handle (started w).trace)) [
      | inl (tx, p) ↦
          let met = observed (registry_of src (started w)) in
          let (o, u) = fn (derive src tx) (started w) in
          let (a, b) = resolve-none met tx o u (rw (transaction_begun w tx p) at r) in (tx, p, a, b)
      | inr (e, p) ↦ let q = transaction_not_begun w e p in cc
    ]

    -- On a connection with its logger, if a transaction begins and its function returns an error, so
    -- does the transaction, and whatever sentinel errors.Is
    -- finds in the function's error it finds in that of the transaction too.
    transaction_error :
        (w : World) (tx : Handle) (e : Err) (s : Sentinel)
        → env.handle (started w).trace ≡ ok tx
        → (fn (derive src tx) (started w)).0 ≡ ret (some e)
        → is e s ≡ true
        → (e' : Err) × ((run_transactional env h level src fn w).0 ≡ ret (some e'))
          × (is e' s ≡ true)
    transaction_error w tx e s p q k =
        let met = observed (registry_of src (started w)) in
        let u = (fn (derive src tx) (started w)).1 in
        rw (transaction_begun w tx p, q)
          (elim (resolve_error env src met tx logged e u) [
            | inl (_, r, _) ↦ (e, r, k)
            | inr (rb, _, r, _) ↦
                (join e (wrapf "database: rollback: %w" [] rb), r, unfold is in rw k)
          ])
