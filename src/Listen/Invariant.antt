-- ===== src/Listen/Invariant.antt =====
-- The loops of a listener keep what each of their steps keeps.
use hellnet_lib_database.Prelude.{
  ℕ, zero, suc, ◌≡◌, inl, inr, Bool, true, false, ◌||◌, Option, none, some, List, ◌∷◌, Bool-cases,
  ap, refl,
}
use hellnet_lib_database.Prelude.Int.{ℤ, pos, leb_ℤ}
use hellnet_lib_database.Text.{Text}
use hellnet_lib_database.Errors.{Err, is, canceled, deadline_exceeded}
use hellnet_lib_database.World.{
  Handle, with_timeout, wait_notification, sleep_backoff, go_handler, Ctx, Trace, Reply, ok, err,
  Env, World, push, Outcome, ret, panics, no_fuel,
}
use hellnet_lib_database.World.Exec.{M, continue, ◌>>=◌}
use hellnet_lib_database.Core.{Conn}
use hellnet_lib_database.Listen.{ListenOptions, Surroundings, Session, listen_sql}
use hellnet_lib_database.Listen.Loop.{
  next_backoff, on_fresh, reacquire, relisten_answered, sleep_answered, relisten, resumed, failed,
  received, round, listen_loop,
}
use hellnet_lib_database.Listen.Returns.{Rule, Sound, Relisten, relisten-Sound}
use hellnet_lib_database.Listen.Kept.{
  Kept, Keeps, held, Left, payload_of, pure-Keeps, bind-Keeps, warned-Kept, informed-Kept,
  execute-Kept, relisten_on_fresh-Kept, moved_held,
}

abbrev pub session_held : Session → List Handle
session_held s = held s.replacement

abbrev pub relistened_held : Option ℤ × Session → List Handle
relistened_held r = held r.1.replacement

module _ {env : Env} {l : Surroundings} {D : ℤ → Type 0} {P : List Handle → Trace → Type 0}
    {crash : Type 0} {G : Conn → Type 0} {opts : ListenOptions} (k : Kept env l D P)
    (rule : Rule env opts crash D G) (channel : Text) where
  module _ (next : ℕ → Session → M (Option ℤ × Session)) (c : Conn) (failures : ℕ) (b : ℤ)
      (ih : (n : ℕ) (s : Session) → Keeps P (session_held s) relistened_held (next n s)) where
    on_fresh-Kept :
        (r : Bool × Session)
        → Keeps P (moved_held k channel r) relistened_held (on_fresh env l channel opts next b r)
    unfolding on_fresh
    on_fresh-Kept (true, s) =
        informed-Kept k (session_held s) relistened_held _ _
          (pure-Keeps relistened_held (some b, s))
    on_fresh-Kept (false, s) = ih 0 s

    reacquire-Kept :
        (s : Session) (pool : Option Handle)
        → Keeps P
            (session_held s)
            relistened_held
            (reacquire env l channel opts next c failures b s pool)
    unfolding reacquire
    reacquire-Kept s none = ih failures s
    reacquire-Kept s (some pool) = elim (Bool-cases (leb_ℤ opts.reacquire_after (pos failures))) [
      | inl y ↦ rw y (
          bind-Keeps _ _ relistened_held _ _ (relisten_on_fresh-Kept k channel s c pool)
            on_fresh-Kept)
      | inr n ↦ rw n (ih failures s)
    ]

  relisten_answered-Kept :
      (next : ℕ → Session → M (Option ℤ × Session)) (c : Conn) (failures : ℕ) (b : ℤ) (s : Session)
      → ((n : ℕ) (s : Session) → Keeps P (session_held s) relistened_held (next n s))
      → (r : ℤ × Option Err)
      → Keeps P
          (session_held s)
          relistened_held
          (relisten_answered env l channel opts next c failures b s r)
  unfolding relisten_answered
  relisten_answered-Kept next c failures b s ih (n, none) =
      informed-Kept k (session_held s) relistened_held _ _ (pure-Keeps relistened_held (some b, s))
  relisten_answered-Kept next c failures b s ih (n, some e) =
      warned-Kept k (session_held s) relistened_held _ _
        (reacquire-Kept next c (suc failures) b ih s l.pool)

  sleep_answered-Kept :
      (next : ℕ → Session → M (Option ℤ × Session)) (c : Conn) (failures : ℕ) (b : ℤ) (s : Session)
      → ((n : ℕ) (s : Session) → Keeps P (session_held s) relistened_held (next n s))
      → (stop : Bool)
      → Keeps P
          (session_held s)
          relistened_held
          (sleep_answered env l channel opts next c failures b s stop)
  unfolding sleep_answered
  sleep_answered-Kept next c failures b s ih true = pure-Keeps relistened_held (none, s)
  sleep_answered-Kept next c failures b s ih false =
      bind-Keeps _ _ relistened_held _ _ (execute-Kept k (session_held s) c (listen_sql channel))
        (relisten_answered-Kept next c failures b s ih)

  pub relisten-Kept :
      (fuel : ℕ) (c : Conn) (backoff : ℤ) (failures : ℕ) (s : Session)
      → D backoff
      → Keeps P
          (session_held s)
          relistened_held
          (relisten env l channel opts fuel c backoff failures s)
  unfolding relisten
  relisten-Kept zero c backoff failures s d = record { kept = λ w p. (session_held s, p) }
  relisten-Kept (suc fuel) c backoff failures s d =
      let b = next_backoff opts backoff in
      let ih = λ (n : ℕ) (s : Session). relisten-Kept fuel c b n s (rule.doubled backoff d) in
      record {
        kept = λ w p.
            (sleep_answered-Kept (relisten env l channel opts fuel c b) c failures b s ih
                (l.stopped (push (sleep_backoff backoff) w).trace)).kept
              (push (sleep_backoff backoff) w) (k.slept backoff (session_held s) w.trace d p);
      }

  module _ (reconnect : Bool) where
    resumed-Kept :
        (next : ℤ → Session → M Session)
        → ((b : ℤ) (s : Session) → D b → G s.cur → Keeps P (session_held s) session_held (next b s))
        → (o : Outcome (Option ℤ × Session)) (w : World) → Left P relistened_held o w.trace
        → Sound crash (Relisten rule l channel) o
        → let r = continue o (resumed env l channel opts reconnect next) w in
          Left P session_held r.0 r.1.trace
    unfolding resumed Sound
    resumed-Kept next ih (ret (none, s)) w p a = p
    resumed-Kept next ih (ret (some b, s)) w p a = (ih b s a.0 a.1).kept w p
    resumed-Kept next ih (panics x) w p a = p
    resumed-Kept next ih no_fuel w p a = p

    failed-Kept :
        (again : M (Option ℤ × Session)) (next : ℤ → Session → M Session) (s : Session)
        → ((b : ℤ) (s : Session) → D b → G s.cur → Keeps P (session_held s) session_held (next b s))
        → Keeps P (session_held s) relistened_held again
        → ((w : World) → Sound crash (Relisten rule l channel) (again w).0)
        → Keeps P (session_held s) session_held (failed env l channel opts reconnect again next s)
    unfolding failed
    failed-Kept again next s ih a d = record {
      kept = λ w p. elim (Bool-cases (l.stopped w.trace)) [
        | inl y ↦ rw y p
        | inr n ↦ rw n (elim (Bool-cases reconnect) [
          | inr off ↦ rw off (
              (warned-Kept k (session_held s) session_held
                  "database listen aborted by connection error" _ (pure-Keeps session_held s)).kept
                w p)
          | inl on ↦ rw on (
              (warned-Kept k (session_held s) session_held
                  "database listen failed; scheduling re-listen"
                  (again >>= resumed env l channel opts reconnect next)
                  (record {
                    kept = λ v q. resumed-Kept next ih (again v).0 (again v).1 (a.kept v q) (d v);
                  })).kept
                w p)
        ])
      ];
    }

    module _ (again : M (Option ℤ × Session)) (next : ℤ → Session → M Session) (s : Session)
        (backoff : ℤ) (ok_delay : D backoff) (good : G s.cur)
        (ih : (b : ℤ) (s : Session)
          → D b
          → G s.cur
          → Keeps P (session_held s) session_held (next b s))
        (a : Keeps P (session_held s) relistened_held again)
        (d : (w : World) → Sound crash (Relisten rule l channel) (again w).0) where
      received-Kept :
          (h : Handle) (ctx : Ctx) (reply : Reply (Option Text)) (w : World)
          → l.notification (wait_notification h ctx ∷ w.trace) ≡ reply
          → P (session_held s) w.trace
          → let r =
              received env l channel opts reconnect again next backoff s reply
                (push (wait_notification h ctx) w) in
            Left P session_held r.0 r.1.trace
      unfolding received
      received-Kept h ctx (ok (some payload)) w e p =
          (ih opts.retry_delay s rule.first good).kept
            (push (go_handler payload) (push (wait_notification h ctx) w))
            (k.delivered h ctx payload (session_held s) w.trace (ap payload_of e) p)
      received-Kept h ctx (ok none) w e p =
          (ih opts.retry_delay s rule.first good).kept (push (wait_notification h ctx) w)
            (k.silent h ctx (session_held s) w.trace (ap payload_of e) p)
      received-Kept h ctx (err x) w e p =
          let q = k.silent h ctx (session_held s) w.trace (ap payload_of e) p in
          let v = push (wait_notification h ctx) w in
          elim (Bool-cases (is x deadline_exceeded || is x canceled)) [
            | inl y ↦ rw y ((ih backoff s ok_delay good).kept v q)
            | inr n ↦ rw n ((failed-Kept again next s ih a d).kept v q)
          ]

      round-Kept :
          (stored : Option Err)
          → Keeps P
              (session_held s)
              session_held
              (round env l channel opts reconnect again next backoff s stored)
      unfolding round
      round-Kept (some e) =
          warned-Kept k (session_held s) session_held "database listen stopped: context done" _
            (pure-Keeps session_held s)
      round-Kept none = record {
        kept = λ w p. elim (Bool-cases (l.stopped w.trace)) [
          | inl y ↦ rw y p
          | inr n ↦
              rw n (received-Kept s.waiter (with_timeout s.cur.ctx (pos 1000000000)) _ w refl p)
        ];
      }

    pub listen_loop-Kept :
        (fuel : ℕ) (backoff : ℤ) (s : Session)
        → D backoff
        → G s.cur
        → Keeps P
            (session_held s)
            session_held
            (listen_loop env l channel opts reconnect fuel backoff s)
    unfolding listen_loop
    listen_loop-Kept zero backoff s ok_delay good = record { kept = λ w p. (session_held s, p) }
    listen_loop-Kept (suc fuel) backoff s ok_delay good = record {
      kept = λ w p.
          (round-Kept (relisten env l channel opts fuel s.cur backoff 0 s)
              (listen_loop env l channel opts reconnect fuel) s backoff ok_delay good
              (listen_loop-Kept fuel) (relisten-Kept fuel s.cur backoff 0 s ok_delay)
              (λ v. relisten-Sound rule l channel fuel s.cur backoff 0 s v ok_delay good good)
              (env.ctx_err s.cur.ctx w.trace)).kept
            w p;
    }
