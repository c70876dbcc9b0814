-- ===== src/View/Statement.antt =====
-- What a statement on a view does beside running.
use hellnet_lib_database.Prelude.{
  ◌≡◌, refl, ◌⊎◌, inl, inr, Bool, true, ◌&&◌, some, List, arith, Bool-cases,
}
use hellnet_lib_database.Prelude.Int.{ℤ, pos, ltb_ℤ, ◌≤ℤ◌}
use hellnet_lib_database.Text.{Text}
use hellnet_lib_database.World.{
  Value, with_timeout, exec, Env, World, ret, panics, nil_logger, push, Reply-cases,
}
use hellnet_lib_database.Resilience.{retried}
use hellnet_lib_database.Resilience.Retry.{do_retry-unwound}
use hellnet_lib_database.Core.{finish, track, fire_before_context}
use hellnet_lib_database.Core.Operations.{execute_context, exec_replied}
use hellnet_lib_database.Database.{Db}
use hellnet_lib_database.View.{
  View, min_command_timeout, with_command_timeout, conn_of, view_execute,
}

-- A view's timeout is the requested one, raised to the floor of 50 ms.
pub with_command_timeout_floor :
    (db : Db) (d : ℤ) (w : World)
    → (v : View) × ((with_command_timeout db d w).0 ≡ ret v)
      × (v.db ≡ db)
      × (min_command_timeout ≤ℤ v.cmd_timeout)
      × ((v.cmd_timeout ≡ d) ⊎ (v.cmd_timeout ≡ min_command_timeout))
unfolding with_command_timeout
with_command_timeout_floor db d w = elim (Bool-cases (ltb_ℤ d min_command_timeout)) [
  | inl y ↦
      rw y
        (record { db = db; cmd_timeout = min_command_timeout }, refl, refl, omega arith, inr refl)
  | inr n ↦ rw n (record { db = db; cmd_timeout = d }, refl, refl, ground (arith, n), inl refl)
]

module _ (env : Env) (v : View) (sql : Text) (args : List Value) where
  -- the world once the statement was answered
  abbrev pub sent : World → World
  sent w = push (exec v.db.conn.r (with_timeout v.db.conn.ctx v.cmd_timeout) sql args) w

  abbrev pub is_slow : World → Bool
  is_slow w =
      ltb_ℤ (pos 0) v.db.conn.o.slow_query
      && ltb_ℤ v.db.conn.o.slow_query (pos (env.since (sent w).trace))

  slow_attempt :
      (w : World)
      → is_slow w ≡ true
      → execute_context env v.db.conn.ctx (conn_of v) sql args w ≡ (panics nil_logger, sent w)
  unfolding execute_context exec_replied finish track fire_before_context conn_of
  slow_attempt w h = elim (Reply-cases (env.rows_affected (sent w).trace)) [
    | inl (n, e) ↦ rw e (rw h)
    | inr (x, e) ↦ rw e (rw h)
  ]

  -- A statement of a view that takes longer than SlowQuery ends in a nil pointer panic, since the
  -- view's connection has no logger to report it to. It is not retried.
  pub slow_view_panics :
      (w : World)
      → is_slow w ≡ true
      → view_execute env (some v) sql args w ≡ (panics nil_logger, sent w)
  unfolding view_execute retried
  slow_view_panics w h =
      do_retry-unwound env v.db.retry v.db.conn.ctx
        (execute_context env (conn_of v).ctx (conn_of v) sql args) w (sent w) nil_logger
        (unfold conn_of in slow_attempt w h)
