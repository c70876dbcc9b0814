-- ===== src/Connection/Lifecycle.antt =====
-- A pinned connection is given back once, however often it is closed.
use hellnet_lib_database.Prelude.{ℕ, zero, suc, ◌≡◌, refl, none, some}
use hellnet_lib_database.World.{World, Env, Event, release_conn, close_conn, Ctx, ret, push}
use hellnet_lib_database.Connection.{Pinned, Closer, release, close_link, closes, run_closer}

-- what a closer does
abbrev pub closing : Ctx → Closer → Event
closing ctx (release h) = release_conn h
closing ctx (close_link h) = close_conn h ctx

-- a connection with the closer `k`, or a closed one
abbrev pub open_by : Pinned → Closer → Pinned
open_by c k = record c { closer = some k }

abbrev pub closed : Pinned → Pinned
closed c = record c { closer = none }

module _ (env : Env) where
  closes-closed : (n : ℕ) (c : Pinned) (w : World) → closes env n (closed c) w ≡ (ret (closed c), w)
  unfolding closes
  closes-closed zero c w = refl
  closes-closed (suc n) c w = closes-closed n c w

  -- An open connection that is closed any number of times, once or more, releases its pooled
  -- connection or closes its link at the first of them, and does nothing at the others.
  pub closes-once :
      (n : ℕ) (c : Pinned) (k : Closer) (w : World)
      → closes env (suc n) (open_by c k) w ≡ (ret (closed c), push (closing c.conn.ctx k) w)
  unfolding closes run_closer
  closes-once n c (release x) w = closes-closed n c _
  closes-once n c (close_link x) w = closes-closed n c _
