-- ===== src/Listen/Returns/Loop.antt =====
-- What the outer loop of a listener returns.
use hellnet_lib_database.Prelude.{
  ℕ, zero, suc, inl, inr, Bool, ◌||◌, Option, none, some, Bool-cases,
}
use hellnet_lib_database.Prelude.Int.{ℤ}
use hellnet_lib_database.Text.{Text}
use hellnet_lib_database.Errors.{Err, is, canceled, deadline_exceeded}
use hellnet_lib_database.World.{log_warn, go_handler, Reply, ok, err, Env, World, push}
use hellnet_lib_database.World.Exec.{M}
use hellnet_lib_database.Core.{Conn}
use hellnet_lib_database.Listen.{ListenOptions, Surroundings, Session}
use hellnet_lib_database.Listen.Loop.{relisten, resumed, failed, received, round, listen_loop}
use hellnet_lib_database.Listen.Returns.{
  Sound, continue-Sound, Rule, Good, Relisten, relisten-Sound,
}

module _ {env : Env} {opts : ListenOptions} {crash : Type 0} {D : ℤ → Type 0} {G : Conn → Type 0}
    (rule : Rule env opts crash D G) (l : Surroundings) (channel : Text) where
  module _ (reconnect : Bool) where
    module _ (next : ℤ → Session → M Session)
        (ih : (b : ℤ) (s : Session) (w : World)
          → D b
          → G s.cur
          → Sound crash (Good rule l channel) (next b s w).0) where
      resumed-Sound :
          (r : Option ℤ × Session) (w : World)
          → Relisten rule l channel r
          → Sound crash (Good rule l channel) (resumed env l channel opts reconnect next r w).0
      unfolding resumed Sound
      resumed-Sound (none, s) w g = g
      resumed-Sound (some b, s) w g = ih b s w g.0 g.1

      module _ (again : M (Option ℤ × Session)) (s : Session) (good : G s.cur)
          (a : (w : World) → Sound crash (Relisten rule l channel) (again w).0) where
        failed-Sound :
            (w : World)
            → Sound crash
                (Good rule l channel)
                (failed env l channel opts reconnect again next s w).0
        unfolding failed Sound
        failed-Sound w = elim (Bool-cases (l.stopped w.trace)) [
          | inl y ↦ rw y good
          | inr n ↦ rw n (elim (Bool-cases reconnect) [
            | inr off ↦ rw off good
            | inl on ↦
                let v = push (log_warn "database listen failed; scheduling re-listen") w in
                rw on (
                  continue-Sound crash (Relisten rule l channel) (Good rule l channel) (again v).0
                    (resumed env l channel opts reconnect next) (again v).1 (a v)
                    (λ r g u. resumed-Sound r u g))
          ])
        ]

        received-Sound :
            (backoff : ℤ) (reply : Reply (Option Text)) (w : World)
            → D backoff
            → Sound crash
                (Good rule l channel)
                (received env l channel opts reconnect again next backoff s reply w).0
        unfolding received
        received-Sound backoff (ok (some payload)) w d =
            ih opts.retry_delay s (push (go_handler payload) w) rule.first good
        received-Sound backoff (ok none) w d = ih opts.retry_delay s w rule.first good
        received-Sound backoff (err x) w d =
            elim (Bool-cases (is x deadline_exceeded || is x canceled)) [
              | inl y ↦ rw y (ih backoff s w d good)
              | inr n ↦ rw n (failed-Sound w)
            ]

        round-Sound :
            (backoff : ℤ) (stored : Option Err) (w : World)
            → D backoff
            → Sound crash
                (Good rule l channel)
                (round env l channel opts reconnect again next backoff s stored w).0
        unfolding round Sound
        round-Sound backoff (some e) w d = good
        round-Sound backoff none w d = elim (Bool-cases (l.stopped w.trace)) [
          | inl y ↦ rw y good
          | inr n ↦ rw n (received-Sound backoff _ _ d)
        ]

    pub listen_loop-Sound :
        (fuel : ℕ) (backoff : ℤ) (s : Session) (w : World)
        → D backoff
        → G s.cur
        → Sound crash
            (Good rule l channel)
            (listen_loop env l channel opts reconnect fuel backoff s w).0
    unfolding listen_loop Sound
    listen_loop-Sound zero backoff s w d g = tt
    listen_loop-Sound (suc fuel) backoff s w d g =
        round-Sound (listen_loop env l channel opts reconnect fuel)
          (λ b s v. listen_loop-Sound fuel b s v)
          (relisten env l channel opts fuel s.cur backoff 0 s) s g
          (λ v. relisten-Sound rule l channel fuel s.cur backoff 0 s v d g g) backoff _ w d
