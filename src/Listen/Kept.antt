-- ===== src/Listen/Kept.antt =====
-- What stays true of a listener's trace and of the connections that it borrowed, through its loop.
use hellnet_lib_database.Prelude.{
  ℕ, ◌≡◌, refl, ap, inl, inr, Bool, true, false, String, Option, none, some, List, [], ◌∷◌,
}
use hellnet_lib_database.Prelude.Int.{ℤ}
use hellnet_lib_database.Text.{Text}
use hellnet_lib_database.Errors.{Err}
use hellnet_lib_database.World.{
  Handle, Ctx, with_timeout, acquire, wait_notification, go_handler, sleep_backoff, release_conn,
  log_warn, log_info, Event, Trace, Reply, ok, err, Reply-cases, Env, World, Outcome, ret, panics,
  no_fuel, push,
}
use hellnet_lib_database.World.Exec.{M, pure, continue, ◌>>=◌, ◌>>◌, emit}
use hellnet_lib_database.Core.{Conn, derive}
use hellnet_lib_database.Core.Operations.{execute_context}
use hellnet_lib_database.Core.Growth.{Growth, Runs}
use hellnet_lib_database.Core.Once.{execute_context-Runs}
use hellnet_lib_database.Listen.{
  Surroundings, Session, listen_sql, resolve_listen_backend, release_old, swap, fresh_listened,
  fresh_resolved, fresh_acquired, relisten_on_fresh,
}

-- the payload that an answer brings, and the connection
abbrev pub payload_of : Reply (Option Text) → Option Text
payload_of (ok p) = p
payload_of (err e) = none

abbrev pub handle_of : Reply Handle → Option Handle
handle_of (ok h) = some h
handle_of (err e) = none

-- the connections that a session has to give back
abbrev pub held : Option Handle → List Handle
held none = []
held (some h) = h ∷ []

-- `f` says what a call that returned holds; a call that did not may hold anything.
abbrev pub Left :
    (List Handle → Trace → Type 0) → {A : Type 0} → (A → List Handle) → Outcome A → Trace → Type 0
Left P f (ret a) t = P (f a) t
Left P f (panics x) t = (hs : List Handle) × P hs t
Left P f no_fuel t = (hs : List Handle) × P hs t

-- `Keeps P hs f m`: begun with `hs` borrowed, the call keeps `P`, whatever its outcome.
pub record Keeps (P : List Handle → Trace → Type 0) {A : Type 0} (hs : List Handle)
    (f : A → List Handle) (m : M A) : Type 0 where
  pub kept : (w : World) → P hs w.trace → Left P f (m w).0 (m w).1.trace

-- What `P`, for the connections that are held, must bear: any delay that `D` allows among the sleeps.
pub record Kept (env : Env) (l : Surroundings) (D : ℤ → Type 0) (P : List Handle → Trace → Type 0)
    : Type 0 where
  pub grow : Growth (λ _ t u. (hs : List Handle) → P hs t → P hs u)
  pub informed : (s : String) (hs : List Handle) (t : Trace) → P hs t → P hs (log_info s ∷ t)
  pub slept : (d : ℤ) (hs : List Handle) (t : Trace) → D d → P hs t → P hs (sleep_backoff d ∷ t)
  pub silent :
      (h : Handle) (ctx : Ctx) (hs : List Handle) (t : Trace)
      → payload_of (l.notification (wait_notification h ctx ∷ t)) ≡ none
      → P hs t
      → P hs (wait_notification h ctx ∷ t)
  pub delivered :
      (h : Handle) (ctx : Ctx) (p : Text) (hs : List Handle) (t : Trace)
      → payload_of (l.notification (wait_notification h ctx ∷ t)) ≡ some p
      → P hs t
      → P hs (go_handler p ∷ wait_notification h ctx ∷ t)
  pub refused :
      (pool : Handle) (ctx : Ctx) (hs : List Handle) (t : Trace)
      → handle_of (env.handle (acquire pool ctx ∷ t)) ≡ none
      → P hs t
      → P hs (acquire pool ctx ∷ t)
  pub borrowed :
      (pool : Handle) (ctx : Ctx) (h : Handle) (hs : List Handle) (t : Trace)
      → handle_of (env.handle (acquire pool ctx ∷ t)) ≡ some h
      → P hs t
      → P (h ∷ hs) (acquire pool ctx ∷ t)
  pub returned :
      (h : Handle) (hs : List Handle) (t : Trace) → P (h ∷ hs) t → P hs (release_conn h ∷ t)
  pub replaced :
      (h q : Handle) (hs : List Handle) (t : Trace)
      → P (h ∷ q ∷ hs) t
      → P (h ∷ hs) (release_conn q ∷ t)

module _ (P : List Handle → Trace → Type 0) where
  const-Left :
      {A : Type 0} (hs : List Handle) (o : Outcome A) (t : Trace) → P hs t → Left P (λ _. hs) o t
  const-Left hs (ret a) t p = p
  const-Left hs (panics x) t p = (hs, p)
  const-Left hs no_fuel t p = (hs, p)

module _ {P : List Handle → Trace → Type 0} where
  pub pure-Keeps : {A : Type 0} (f : A → List Handle) (a : A) → Keeps P (f a) f (pure a)
  pure-Keeps f a = record { kept = λ w p. p }

  pub continue-Left :
      {A B : Type 0} (f : A → List Handle) (g : B → List Handle) (k : A → M B) (o : Outcome A)
      (w : World)
      → Left P f o w.trace
      → ((a : A) → Keeps P (f a) g (k a))
      → Left P g (continue o k w).0 (continue o k w).1.trace
  continue-Left f g k (ret a) w p s = (s a).kept w p
  continue-Left f g k (panics x) w p s = p
  continue-Left f g k no_fuel w p s = p

  pub bind-Keeps :
      {A B : Type 0} (hs : List Handle) (f : A → List Handle) (g : B → List Handle) (m : M A)
      (k : A → M B)
      → Keeps P hs f m
      → ((a : A) → Keeps P (f a) g (k a))
      → Keeps P hs g (m >>= k)
  bind-Keeps hs f g m k s t = record {
    kept = λ w p. continue-Left f g k (m w).0 (m w).1 (s.kept w p) t;
  }

  -- an event, and what follows it
  pub emit-Keeps :
      {B : Type 0} (hs hs' : List Handle) (g : B → List Handle) (e : Event) (m : M B)
      → ((t : Trace) → P hs t → P hs' (e ∷ t))
      → Keeps P hs' g m
      → Keeps P hs g (emit e >> m)
  emit-Keeps hs hs' g e m a s = record { kept = λ w p. s.kept (push e w) (a w.trace p) }

  pub Runs-Keeps :
      {A : Type 0} {n : ℕ} (hs : List Handle) (m : M A)
      → Runs (λ _ t u. (hs : List Handle) → P hs t → P hs u) n m
      → Keeps P hs (λ _. hs) m
  Runs-Keeps hs m r = record { kept = λ w p. const-Left P hs (m w).0 _ ((r.ended w).1 hs p) }

module _ {env : Env} {l : Surroundings} {D : ℤ → Type 0} {P : List Handle → Trace → Type 0}
    (k : Kept env l D P) where
  pub warned-Kept :
      {B : Type 0} (hs : List Handle) (g : B → List Handle) (s : String) (m : M B)
      → Keeps P hs g m
      → Keeps P hs g (emit (log_warn s) >> m)
  warned-Kept hs g s m r =
      emit-Keeps hs hs g (log_warn s) m (λ t p. k.grow.quiet (log_warn s) t refl hs p) r

  pub informed-Kept :
      {B : Type 0} (hs : List Handle) (g : B → List Handle) (s : String) (m : M B)
      → Keeps P hs g m
      → Keeps P hs g (emit (log_info s) >> m)
  informed-Kept hs g s m r = emit-Keeps hs hs g (log_info s) m (λ t p. k.informed s hs t p) r

  pub execute-Kept :
      (hs : List Handle) (c : Conn) (sql : Text)
      → Keeps P hs (λ _. hs) (execute_context env c.ctx c sql [])
  execute-Kept hs c sql = Runs-Keeps hs _ (execute_context-Runs k.grow env c.ctx c sql [])

  pub release_old-Kept :
      (h : Handle) (old : Option Handle) → Keeps P (h ∷ held old) (λ _. h ∷ []) (release_old old)
  unfolding release_old
  release_old-Kept h none = pure-Keeps (λ _. h ∷ []) tt
  release_old-Kept h (some q) = record { kept = λ w p. k.replaced h q [] w.trace p }

  module _ (channel : Text) where
    -- the connections held behind a call that moves the session or not
    abbrev pub moved_held : Bool × Session → List Handle
    moved_held r = held r.1.replacement

    module _ (s : Session) where
      given_back-Kept :
          (h : Handle)
          → Keeps P (h ∷ held s.replacement) moved_held (do
            emit (release_conn h)
            emit (log_warn "database re-listen on a fresh connection failed")
            pure (false, s))
      given_back-Kept h =
          emit-Keeps (h ∷ held s.replacement) (held s.replacement) moved_held (release_conn h) _
            (λ t p. k.returned h (held s.replacement) t p)
            (warned-Kept (held s.replacement) moved_held _ _ (pure-Keeps moved_held (false, s)))

      fresh_listened-Kept :
          (fresh : Conn) (waiter : Handle) (r : ℤ × Option Err)
          → Keeps P
              (fresh.r ∷ held s.replacement)
              moved_held
              (fresh_listened env l channel s fresh waiter r)
      unfolding fresh_listened swap
      fresh_listened-Kept fresh waiter (n, some e) = given_back-Kept fresh.r
      fresh_listened-Kept fresh waiter (n, none) =
          bind-Keeps _ (λ s'. held s'.replacement) moved_held _ _
            (bind-Keeps _ (λ _. fresh.r ∷ []) (λ s'. held s'.replacement) _ _
              (release_old-Kept fresh.r s.replacement)
              (λ _. pure-Keeps (λ s'. held s'.replacement) _))
            (λ s'. pure-Keeps moved_held (true, s'))

      fresh_resolved-Kept :
          (fresh : Conn) (reply : Reply Handle)
          → Keeps P
              (fresh.r ∷ held s.replacement)
              moved_held
              (fresh_resolved env l channel s fresh reply)
      unfolding fresh_resolved
      fresh_resolved-Kept fresh (err e) = given_back-Kept fresh.r
      fresh_resolved-Kept fresh (ok waiter) =
          bind-Keeps _ _ moved_held _ _
            (execute-Kept (fresh.r ∷ held s.replacement) fresh (listen_sql channel))
            (fresh_listened-Kept fresh waiter)

      pub relisten_on_fresh-Kept :
          (from : Conn) (pool : Handle)
          → Keeps P (held s.replacement) moved_held (relisten_on_fresh env l channel s from pool)
      unfolding relisten_on_fresh fresh_acquired
      relisten_on_fresh-Kept from pool = record {
        kept = λ w p.
            let ctx = with_timeout from.ctx from.o.connection_timeout in
            let v = push (acquire pool ctx) w in
            elim (Reply-cases (env.handle v.trace)) [
              | inr (e, h) ↦
                  let q = k.refused pool ctx (held s.replacement) w.trace (ap handle_of h) p in
                  rw h (
                    (warned-Kept (held s.replacement) moved_held
                        "database re-listen: acquiring a fresh connection failed" _
                        (pure-Keeps moved_held (false, s))).kept
                      v q)
              | inl (x, h) ↦
                  let q = k.borrowed pool ctx x (held s.replacement) w.trace (ap handle_of h) p in
                  rw h (
                    (fresh_resolved-Kept (derive from x) (resolve_listen_backend l.kind x)).kept v
                      q)
            ];
      }
