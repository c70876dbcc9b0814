-- ===== src/Construction/Opened.antt =====
-- What a constructed DB is, and options that are lost on the way.
use hellnet_lib_database.Prelude.{
  ◌≡◌, refl, ◌⊎◌, inl, inr, Option, none, some, List, [], ◌∷◌, ℕ, ==_iff,
}
use hellnet_lib_database.Text.{Text, codes, trim_space, join}
use hellnet_lib_database.Errors.{Err, errorf}
use hellnet_lib_database.World.{
  Handle, Ctx, new_pool, Reply, ok, err, Env, World, Outcome, ret, push,
}
use hellnet_lib_database.Options.{
  Options, text_or, int_or, with_defaults, validate, min_conns, max_conns,
}
use hellnet_lib_database.Options.Pool.{Sized, conns-Sized}
use hellnet_lib_database.Prelude.Int.{ℤ}
use hellnet_lib_database.Environment.{Durations}
use hellnet_lib_database.Hooks.{new_hook_registry}
use hellnet_lib_database.Database.{Db}
use hellnet_lib_database.Metrics.{update_registry}
use hellnet_lib_database.PoolMetrics.{Measured, pool_calls, register_pool_metrics_lem}
use hellnet_lib_database.Construction.{
  Packages, dsn, with_instrumentation, pool_opened, configured, new_db, new_with_options,
  chosen_options,
}

module _ (env : Env) (packages : Packages) (ctx : Ctx) (p : ℕ) where
  -- the pool of the sizes `lo` and `hi` that newDB opens for the options with their defaults
  abbrev pub opening : Options → ℤ → ℤ → World → World
  opening o lo hi w = push (new_pool (dsn packages o) lo hi o.connection_timeout) w

  -- an error that leaves the registries alone, or a DB on the pool that answered
  abbrev Built : Options → Reply Handle → World → Outcome (Reply Db) × World → Type 0
  Built o reply w r =
      ((e : Err) × (r.0 ≡ ret (err e)) × (r.1.registry ≡ w.registry))
      ⊎ ((db : Db) × (r.0 ≡ ret (ok db))
          × (db.conn.o ≡ o)
          × (reply ≡ ok db.pool)
          × Measured env pool_calls w.trace db.pool_metrics r.1.trace
          × (r.1.registry p ≡ new_hook_registry o))

  pool_opened-Built :
      (o : Options) (inst : Option ℕ) (reply : Reply Handle) (w : World)
      → Built o reply w (pool_opened env packages ctx p o inst reply w)
  unfolding pool_opened
  pool_opened-Built o inst (err e) w = inl (_, refl, refl)
  pool_opened-Built o inst (ok x) w =
      let v = (update_registry p (λ _. new_hook_registry o) w).1 in
      let (m, r, g, measured) = register_pool_metrics_lem env v in
      rw r (inr (_, refl, refl, refl, measured, rw g (rw ((==_iff p p).1 refl) refl)))

  configured_lem :
      (o : Options) (inst : Option ℕ) (invalid parsed : Option Err) (w : World)
      → let r = configured env packages ctx p o inst invalid parsed w in
        ((e : Err) × (r.0 ≡ ret (err e)) × (r.1.registry ≡ w.registry))
        ⊎ ((db : Db) × (r.0 ≡ ret (ok db))
            × (invalid ≡ none)
            × (db.conn.o ≡ o)
            × (lo hi : ℤ) × Sized o lo hi
            × (env.handle (opening o lo hi w).trace ≡ ok db.pool)
            × Measured env pool_calls (opening o lo hi w).trace db.pool_metrics r.1.trace
            × (r.1.registry p ≡ new_hook_registry o))
  unfolding configured
  configured_lem o inst (some e) parsed w = inl (e, refl, refl)
  configured_lem o inst none (some e) w = inl (_, refl, refl)
  configured_lem o inst none none w =
      elim (pool_opened-Built o inst (env.handle (opening o (min_conns o) (max_conns o) w).trace)
        (opening o (min_conns o) (max_conns o) w)) [
          | inl e ↦ inl e
          | inr (db, r, s, h, t, g) ↦
              inr (db, r, refl, s, min_conns o, max_conns o, conns-Sized o, h, t, g)
        ]

  -- newDB returns an error and leaves the registries of hooks alone; or the options with their defaults are
  -- valid, one pool was opened, by their URL, and the DB stands on that pool, with
  -- these options and a new registry that has the hooks of the options. The pool's sizes are not negative, in
  -- the range of int32, and the minimum is below the maximum unless both are the largest int32; each is the
  -- size of the options wherever that allows it. The DB then holds the registration of
  -- the pool's gauges that the meter answered, or none and an error was logged: a meter that refuses does
  -- not make newDB fail.
  pub new_db_lem :
      (given : Options) (inst : Option ℕ) (w : World)
      → let r = new_db env packages ctx p given inst w in
        let o = with_defaults given in
        ((e : Err) × (r.0 ≡ ret (err e)) × (r.1.registry ≡ w.registry))
        ⊎ ((db : Db) × (r.0 ≡ ret (ok db))
            × (validate o ≡ none)
            × (db.conn.o ≡ o)
            × (lo hi : ℤ) × Sized o lo hi
            × (env.handle (opening o lo hi w).trace ≡ ok db.pool)
            × Measured env pool_calls (opening o lo hi w).trace db.pool_metrics r.1.trace
            × (r.1.registry p ≡ new_hook_registry o))
  unfolding new_db
  new_db_lem given inst w = configured_lem _ _ _ _ w

  -- NewWithOptions drops what follows WithInstrumentation: given it and then explicit options, these or others,
  -- it returns the error that name, user and password are missing, and opens no pool.
  pub new_with_options-instrumentation :
      (getenv : Text → Text) (time : Durations) (i : ℕ) (explicit : Options) (others : List Options)
      (w : World)
      → new_with_options env packages ctx p getenv time
          (with_instrumentation (some i) ∷ explicit ∷ others)
          w
        ≡ (
          ret (
              err (
                errorf "database: missing or invalid configuration: %s"
                  (codes "DATABASE_NAME, DATABASE_USERNAME, DATABASE_PASSWORD" ∷ []))),
          w,
        )
  unfolding new_with_options new_db chosen_options configured with_defaults validate codes
      trim_space text_or join int_or
  new_with_options-instrumentation getenv time i explicit others w = refl
