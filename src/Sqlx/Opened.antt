-- ===== src/Sqlx/Opened.antt =====
-- What NewSQLX leaves behind: a pool that answered, or none.
use hellnet_lib_database.Prelude.{◌≡◌, refl, ◌⊎◌, inl, inr, Option, none, some, List, Option-cases}
use hellnet_lib_database.Text.{Text}
use hellnet_lib_database.Errors.{Err}
use hellnet_lib_database.World.{
  Handle, Ctx, with_timeout, ping, open_sqlx, close_sqlx, Reply, ok, err, Env, World, Outcome, ret,
  push,
}
use hellnet_lib_database.Options.{Options, with_defaults, validate}
use hellnet_lib_database.Environment.{Durations, load_from_env}
use hellnet_lib_database.Construction.{Packages, dsn, first_options}
use hellnet_lib_database.Sqlx.{Sqlx, pinged, sqlx_configured, new_sqlx}

module _ (env : Env) (packages : Packages) (error_text : Err → Text) (ctx : Ctx) where
  -- the pool was opened for the options `o`, and asked once whether it is there
  abbrev pub tried : Options → Handle → World → World
  tried o h w =
      push (ping h (with_timeout ctx o.connection_timeout))
        (push (open_sqlx (dsn packages o) o.connection_timeout o.pool_max_size o.pool_min_size) w)

  -- Nothing was done; or the pool was opened, did not answer, and was closed; or it stands open and answered.
  abbrev pub Settled : Options → Handle → World → Outcome (Reply Sqlx) × World → Type 0
  Settled o h w r =
      ((e : Err) × (r ≡ (ret (err e), w)))
      ⊎ ((e : Err) × (down : Err) × (r ≡ (ret (err e), push (close_sqlx h) (tried o h w)))
          × (env.failure (tried o h w).trace ≡ some down))
      ⊎ ((validate o ≡ none)
          × (env.failure (tried o h w).trace ≡ none)
          × (r ≡ (ret (ok (record { db = h; opts = o })), tried o h w)))

  pinged-Settled :
      (o : Options) (h : Handle) (w : World)
      → validate o ≡ none
      → Settled o h w
          (pinged env packages error_text ctx o h (env.failure (tried o h w).trace) (tried o h w))
  unfolding pinged
  pinged-Settled o h w valid = elim (Option-cases (env.failure (tried o h w).trace)) [
    | inl e ↦ rw e (inr (inr (valid, refl, refl)))
    | inr (down, e) ↦ rw e (inr (inl (_, down, refl, refl)))
  ]

  configured-Settled :
      (o : Options) (h : Handle) (invalid parsed : Option Err) (w : World)
      → validate o ≡ invalid
      → Settled o h w (sqlx_configured env packages error_text ctx o h invalid parsed w)
  unfolding sqlx_configured
  configured-Settled o h (some e) parsed w v = inl (e, refl)
  configured-Settled o h none (some e) w v = inl (_, refl)
  configured-Settled o h none none w v = pinged-Settled o h w v

  -- NewSQLX does nothing and returns an error; or opens one pool, by the options with their defaults, finds that
  -- it does not answer, closes it and returns an error; or returns the open pool, which answered, for
  -- options that are valid.
  pub new_sqlx_lem :
      (getenv : Text → Text) (time : Durations) (opts : List Options) (h : Handle) (w : World)
      → Settled
          (with_defaults (first_options (load_from_env getenv time) opts))
          h
          w
          (new_sqlx env packages error_text ctx getenv time opts h w)
  unfolding new_sqlx
  new_sqlx_lem getenv time opts h w = configured-Settled _ h _ _ w refl
