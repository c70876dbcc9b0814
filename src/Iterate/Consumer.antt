-- ===== src/Iterate/Consumer.antt =====
-- What the consumer of a stream sees of its rows.
use hellnet_lib_database.Prelude.{
  ◌≡◌, Bool, true, false, Option, none, some, List, [], ◌∷◌, ◌++◌, map,
}
use hellnet_lib_database.Text.{Text}
use hellnet_lib_database.Errors.{Err, wrapf}
use hellnet_lib_database.World.{Reply, ok, World, ret, push, watchdog_stop}
use hellnet_lib_database.World.Exec.{M, bind_ret}
use hellnet_lib_database.Iterate.{iter_loop, stop_or}

module _ {T : Type 0} (within : Text) (fn : T → M (Option Err)) (final : Option Err)
    (rest : List (Reply T)) where
  -- the consumer accepts each of the rows
  abbrev pub Accepts : List T → Type 0
  Accepts [] = Unit {0}
  Accepts (x ∷ xs) = ((w : World) → (fn x w).0 ≡ ret none) × Accepts xs

  abbrev pub stopped : Err → Option Err
  stopped e = some (wrapf "database: iterator stopped by consumer: %w" [] e)

  -- When the consumer refuses a row, having accepted those before it, the iteration returns its
  -- error, wrapped, and ends in the very state in which the consumer left: no later row is read.
  consumer_stops :
      (pre : List T) (x : T) (e : Err) (first_row : Bool) (w : World)
      → Accepts pre
      → ((v : World) → (fn x v).0 ≡ ret (some e))
      → (v : World) × (iter_loop within fn final first_row (map ok pre ++ (ok x ∷ rest)) w
          ≡ (ret (stopped e), (fn x v).1))
  unfolding iter_loop
  consumer_stops [] x e true w a h = (
    push watchdog_stop w,
    bind_ret (fn x) (stop_or within fn final _) _ (h (push watchdog_stop w)),
  )
  consumer_stops [] x e false w a h = (w, bind_ret (fn x) (stop_or within fn final _) w (h w))
  consumer_stops (y ∷ ys) x e true w a h =
      let w' = push watchdog_stop w in
      let (v, p) = consumer_stops ys x e false (fn y w').1 a.1 h in (v, rw (a.0 w') p)
  consumer_stops (y ∷ ys) x e false w a h =
      let (v, p) = consumer_stops ys x e true (fn y w).1 a.1 h in (v, rw (a.0 w) p)
