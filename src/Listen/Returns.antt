-- ===== src/Listen/Returns.antt =====
-- What the loops of a listener return: a delay that they may sleep, and a session on a connection of the
-- same kind.
pub mod Loop
use hellnet_lib_database.Prelude.{
  ℕ, zero, suc, ◌≡◌, refl, inl, inr, Bool, true, false, ◌||◌, Option, none, some, [], Bool-cases,
}
use hellnet_lib_database.Prelude.Int.{ℤ, pos, leb_ℤ}
use hellnet_lib_database.Text.{Text}
use hellnet_lib_database.Errors.{Err, is, canceled, deadline_exceeded}
use hellnet_lib_database.World.{
  Handle, sleep_backoff, log_warn, go_handler, Reply, ok, err, Env, World, push, Panic, Outcome,
  ret, panics, no_fuel,
}
use hellnet_lib_database.World.Exec.{M, continue}
use hellnet_lib_database.Core.{Conn, derive}
use hellnet_lib_database.Core.Operations.{execute_context}
use hellnet_lib_database.Listen.{
  ListenOptions, Surroundings, Session, listen_sql, release_old, swap, fresh_listened,
  fresh_resolved, fresh_acquired, relisten_on_fresh, resolve_listen_backend,
}
use hellnet_lib_database.Listen.Loop.{
  next_backoff, on_fresh, reacquire, relisten_answered, sleep_answered, relisten,
}

-- What a call returned satisfies `G`; it panicked only if `crash`.
unfoldable pub Sound : Type 0 → {A : Type 0} → (A → Type 0) → Outcome A → Type 0
Sound crash G (ret a) = G a
Sound crash G (panics x) = crash
Sound crash G no_fuel = Unit

pub continue-Sound :
    {A B : Type 0} (crash : Type 0) (F : A → Type 0) (G : B → Type 0) (o : Outcome A) (k : A → M B)
    (w : World)
    → Sound crash F o
    → ((a : A) → F a → (v : World) → Sound crash G (k a v).0)
    → Sound crash G (continue o k w).0
unfolding Sound
continue-Sound crash F G (ret a) k w s h = h a s w
continue-Sound crash F G (panics x) k w s h = s
continue-Sound crash F G no_fuel k w s h = tt

pub release_old-ret : (old : Option Handle) (w : World) → (release_old old w).0 ≡ ret tt
unfolding release_old
release_old-ret none w = refl
release_old-ret (some h) w = refl

-- Delays that are closed under the steps of the backoff, connections that are closed under `derive`, and
-- when a statement of these may panic.
pub record Rule (env : Env) (opts : ListenOptions) (crash : Type 0) (D : ℤ → Type 0)
    (G : Conn → Type 0) : Type 0 where
  pub first : D opts.retry_delay
  pub doubled : (b : ℤ) → D b → D (next_backoff opts b)
  pub derived : (c : Conn) (h : Handle) → G c → G (derive c h)
  pub safe :
      (c : Conn) (sql : Text) (w : World) (x : Panic)
      → G c
      → (execute_context env c.ctx c sql [] w).0 ≡ panics x
      → crash

-- the rule that allows everything
abbrev pub free_Rule :
    (env : Env) (opts : ListenOptions) → Rule env opts Unit (λ _. Unit) (λ _. Unit)
free_Rule env opts = record {
  first = tt;
  doubled = λ b d. tt;
  derived = λ c h g. tt;
  safe = λ c sql w x g e. tt;
}

module _ {env : Env} {opts : ListenOptions} {crash : Type 0} {D : ℤ → Type 0} {G : Conn → Type 0}
    (rule : Rule env opts crash D G) (l : Surroundings) (channel : Text) where
  abbrev pub Good : Session → Type 0
  Good s = G s.cur

  abbrev Moved : Bool × Session → Type 0
  Moved r = G r.1.cur

  abbrev pub Relisten : Option ℤ × Session → Type 0
  Relisten (none, s) = G s.cur
  Relisten (some b, s) = D b × G s.cur

  pub execute-Sound :
      (c : Conn) (w : World)
      → G c
      → Sound crash (λ _. Unit) (execute_context env c.ctx c (listen_sql channel) [] w).0
  unfolding Sound
  execute-Sound c w g = by_outcome _ refl
    where
      by_outcome :
          (o : Outcome (ℤ × Option Err))
          → (execute_context env c.ctx c (listen_sql channel) [] w).0 ≡ o
          → Sound crash (λ _. Unit) o
      by_outcome (ret r) e = tt
      by_outcome (panics x) e = rule.safe c (listen_sql channel) w x g e
      by_outcome no_fuel e = tt

  module _ (s : Session) (good : G s.cur) where
    fresh_listened-Sound :
        (fresh : Conn) (waiter : Handle) (r : ℤ × Option Err) (w : World)
        → G fresh
        → Sound crash Moved (fresh_listened env l channel s fresh waiter r w).0
    unfolding fresh_listened swap Sound
    fresh_listened-Sound fresh waiter (n, some e) w g = good
    fresh_listened-Sound fresh waiter (n, none) w g = rw (release_old-ret s.replacement w) g

    fresh_resolved-Sound :
        (fresh : Conn) (reply : Reply Handle) (w : World)
        → G fresh
        → Sound crash Moved (fresh_resolved env l channel s fresh reply w).0
    unfolding fresh_resolved Sound
    fresh_resolved-Sound fresh (err e) w g = good
    fresh_resolved-Sound fresh (ok waiter) w g =
        let r = execute_context env fresh.ctx fresh (listen_sql channel) [] w in
        continue-Sound crash (λ _. Unit) Moved r.0 (fresh_listened env l channel s fresh waiter) r.1
          (execute-Sound fresh w g) (λ a _ v. fresh_listened-Sound fresh waiter a v g)

    fresh_acquired-Sound :
        (from : Conn) (reply : Reply Handle) (w : World)
        → G from
        → Sound crash Moved (fresh_acquired env l channel s from reply w).0
    unfolding fresh_acquired Sound
    fresh_acquired-Sound from (err e) w g = good
    fresh_acquired-Sound from (ok h) w g =
        fresh_resolved-Sound (derive from h) (resolve_listen_backend l.kind h) w
          (rule.derived from h g)

    relisten_on_fresh-Sound :
        (from : Conn) (pool : Handle) (w : World)
        → G from
        → Sound crash Moved (relisten_on_fresh env l channel s from pool w).0
    unfolding relisten_on_fresh
    relisten_on_fresh-Sound from pool w g = fresh_acquired-Sound from _ _ g

  module _ (next : ℕ → Session → M (Option ℤ × Session)) (c : Conn) (b : ℤ) (d : D b) (g : G c)
      (ih : (n : ℕ) (s : Session) (w : World) → G s.cur → Sound crash Relisten (next n s w).0) where
    on_fresh-Sound :
        (r : Bool × Session) (w : World)
        → Moved r
        → Sound crash Relisten (on_fresh env l channel opts next b r w).0
    unfolding on_fresh Sound
    on_fresh-Sound (true, s) w m = (d, m)
    on_fresh-Sound (false, s) w m = ih 0 s w m

    reacquire-Sound :
        (failures : ℕ) (s : Session) (pool : Option Handle) (w : World)
        → G s.cur
        → Sound crash Relisten (reacquire env l channel opts next c failures b s pool w).0
    unfolding reacquire
    reacquire-Sound failures s none w m = ih failures s w m
    reacquire-Sound failures s (some pool) w m =
        elim (Bool-cases (leb_ℤ opts.reacquire_after (pos failures))) [
          | inl y ↦ rw y (
              continue-Sound crash Moved Relisten (relisten_on_fresh env l channel s c pool w).0
                (on_fresh env l channel opts next b) _ (relisten_on_fresh-Sound s m c pool w g)
                (λ r q v. on_fresh-Sound r v q))
          | inr n ↦ rw n (ih failures s w m)
        ]

    relisten_answered-Sound :
        (failures : ℕ) (s : Session) (r : ℤ × Option Err) (w : World)
        → G s.cur
        → Sound crash Relisten (relisten_answered env l channel opts next c failures b s r w).0
    unfolding relisten_answered Sound
    relisten_answered-Sound failures s (n, none) w m = (d, m)
    relisten_answered-Sound failures s (n, some e) w m =
        reacquire-Sound (suc failures) s l.pool
          (push (log_warn "database re-listen attempt failed") w) m

    sleep_answered-Sound :
        (failures : ℕ) (s : Session) (stop : Bool) (w : World)
        → G s.cur
        → Sound crash Relisten (sleep_answered env l channel opts next c failures b s stop w).0
    unfolding sleep_answered Sound
    sleep_answered-Sound failures s true w m = m
    sleep_answered-Sound failures s false w m =
        let r = execute_context env c.ctx c (listen_sql channel) [] w in
        continue-Sound crash (λ _. Unit) Relisten r.0
          (relisten_answered env l channel opts next c failures b s) r.1 (execute-Sound c w g)
          (λ a _ v. relisten_answered-Sound failures s a v m)

  pub relisten-Sound :
      (fuel : ℕ) (c : Conn) (backoff : ℤ) (failures : ℕ) (s : Session) (w : World)
      → D backoff
      → G c
      → G s.cur
      → Sound crash Relisten (relisten env l channel opts fuel c backoff failures s w).0
  unfolding relisten Sound
  relisten-Sound zero c backoff failures s w d g m = tt
  relisten-Sound (suc fuel) c backoff failures s w d g m =
      let b = next_backoff opts backoff in
      let d' = rule.doubled backoff d in
      sleep_answered-Sound (relisten env l channel opts fuel c b) c b d' g
        (λ n s w. relisten-Sound fuel c b n s w d' g) failures s
        (l.stopped (push (sleep_backoff backoff) w).trace) (push (sleep_backoff backoff) w) m
