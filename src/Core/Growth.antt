-- ===== src/Core/Growth.antt =====
-- What a call adds to the trace, for every way of measuring it that passes over the calls of hooks.
use hellnet_lib_database.Prelude.{
  ℕ, ◌+◌, ◌≡◌, ◌≢◌, refl, Bool, true, false, Option, List, [], ◌∷◌, Bool-cases, inl, inr, ◌&&◌,
  String,
}
use hellnet_lib_database.Prelude.Int.{ℤ, pos, ltb_ℤ}
use hellnet_lib_database.Text.{Text}
use hellnet_lib_database.Errors.{Err}
use hellnet_lib_database.World.{
  Value, Ctx, Op, QueryInfo, Hook, user, collector, Event, exec, query, query_row, collect_rows,
  collect_one_row, scan, before_hook, after_hook, before_query_context, after_query_context,
  log_warn, Trace, World, Env, Outcome, ret, panics, no_fuel, push,
}
use hellnet_lib_database.World.Exec.{M, pure, continue, ◌>>=◌, ask}
use hellnet_lib_database.Core.{
  Conn, Observability, unset, attached, recovered, hook_loop, each_hook, hook_call, call_before,
  call_after, if_contextual, fire_before_context, fire_after_context, track, finish, warn_to,
}

abbrev pub is_statement : Event → Bool
is_statement (exec _ _ _ _) = true
is_statement (query _ _ _ _) = true
is_statement (query_row _ _ _ _) = true
is_statement _ = false

-- what stands on the trace beside the statement of an operation
abbrev pub is_quiet : Event → Bool
is_quiet (before_hook _ _) = true
is_quiet (after_hook _ _) = true
is_quiet (before_query_context _ _ _) = true
is_quiet (after_query_context _ _ _) = true
is_quiet (log_warn _) = true
is_quiet (collect_rows _) = true
is_quiet (collect_one_row _) = true
is_quiet (scan _) = true
is_quiet _ = false

-- `R k t u`: the trace may grow from `t` to `u` by `k` statements.
pub record Growth (R : ℕ → Trace → Trace → Type 0) : Type 0 where
  pub here : (t : Trace) → R 0 t t
  pub chain : (j k : ℕ) (t u v : Trace) → R j t u → R k u v → R (j + k) t v
  pub more : (j k : ℕ) (t u : Trace) → R j t u → R (j + k) t u
  pub quiet : (e : Event) (t : Trace) → is_quiet e ≡ true → R 0 t (e ∷ t)
  pub sent : (e : Event) (t : Trace) → is_statement e ≡ true → R 1 t (e ∷ t)

-- `Ended R k w r`: a call that began in `w` ended as `r`, and the trace grew as `R k` allows.
abbrev pub Ended :
    (ℕ → Trace → Trace → Type 0) → {A : Type 0} → ℕ → World → Outcome A × World → Type 0
Ended R k w r = (r.0 ≢ no_fuel) × R k w.trace r.1.trace

-- `Runs R k m`: the call always ends so.
pub record Runs (R : ℕ → Trace → Trace → Type 0) {A : Type 0} (k : ℕ) (m : M A) : Type 0 where
  pub ended : (w : World) → Ended R k w (m w)

module _ {R : ℕ → Trace → Trace → Type 0} (g : Growth R) where
  pub pure-Runs : {A : Type 0} (a : A) → Runs R 0 (pure a)
  pure-Runs a = record { ended = λ w. (λ h. cc h, g.here w.trace) }

  continue-Ended :
      {A B : Type 0} (j k : ℕ) (f : A → M B) (w v : World) (o : Outcome A)
      → o ≢ no_fuel
      → R j w.trace v.trace
      → ((a : A) → Runs R k (f a))
      → Ended R (j + k) w (continue o f v)
  continue-Ended j k f w v (ret a) n l s = let (m, b) = (s a).ended v in (m, g.chain j k _ _ _ l b)
  continue-Ended j k f w v (panics x) n l s = (λ h. cc h, g.more j k _ _ l)
  continue-Ended j k f w v no_fuel n l s = absurd (n refl)

  pub bind-Runs :
      {A B : Type 0} (j k : ℕ) (m : M A) (f : A → M B)
      → Runs R j m
      → ((a : A) → Runs R k (f a))
      → Runs R (j + k) (m >>= f)
  bind-Runs j k m f s t = record {
    ended = λ w. continue-Ended j k f w (m w).1 (m w).0 (s.ended w).0 (s.ended w).1 t;
  }

  warn_to-Runs : (obs : Observability) (message : String) → Runs R 0 (warn_to obs message)
  unfolding warn_to
  warn_to-Runs unset message = record { ended = λ w. (λ h. cc h, g.here w.trace) }
  warn_to-Runs attached message = record {
    ended = λ w. (λ h. cc h, g.quiet (log_warn message) w.trace refl);
  }

  recovered-Ended :
      (obs : Observability) (w : World) (r : Outcome (Unit {0}) × World)
      → Ended R 0 w r
      → Ended R 0 w (recovered obs r)
  unfolding recovered
  recovered-Ended obs w (ret a, v) h = h
  recovered-Ended obs w (panics x, v) h =
      let (m, b) = (warn_to-Runs obs "database query hook panicked (recovered)").ended v in
      (m, g.chain 0 0 _ _ _ h.1 b)
  recovered-Ended obs w (no_fuel, v) h = absurd (h.0 refl)

  hook_loop-Runs :
      (obs : Observability) (fn : Hook → M (Unit {0}))
      → ((h : Hook) → Runs R 0 (fn h))
      → (hs : List Hook) → Runs R 0 (hook_loop obs fn hs)
  unfolding hook_loop
  hook_loop-Runs obs fn s [] = record { ended = λ w. (λ h. cc h, g.here w.trace) }
  hook_loop-Runs obs fn s (h ∷ hs) = record {
    ended = λ w.
        let (n, b) = recovered-Ended obs w (fn h w) ((s h).ended w) in
        continue-Ended 0 0 (λ _. hook_loop obs fn hs) w _ _ n b (λ _. hook_loop-Runs obs fn s hs);
  }

  module _ (env : Env) where
    hook_call-Runs : (e : Event) → is_quiet e ≡ true → Runs R 0 (hook_call env e)
    unfolding hook_call
    hook_call-Runs e q = record {
      ended = λ w. elim (Bool-cases (env.hook_panics (push e w).trace)) [
        | inl y ↦ rw y (λ h. cc h, g.quiet e w.trace q)
        | inr n ↦ rw n (λ h. cc h, g.quiet e w.trace q)
      ];
    }

    if_contextual-Runs :
        (h : Hook) (m : M (Unit {0})) → Runs R 0 m → Runs R 0 (if_contextual env h m)
    if_contextual-Runs (user i true) m s = s
    if_contextual-Runs (user i false) m s = pure-Runs tt
    if_contextual-Runs (collector i) m s = pure-Runs tt

    call_before-Runs :
        (ctx : Ctx) (info : QueryInfo) (h : Hook) → Runs R 0 (call_before env ctx info h)
    unfolding call_before
    call_before-Runs ctx info h =
        bind-Runs 0 0 _ _ (hook_call-Runs _ refl)
          (λ _. if_contextual-Runs h _ (hook_call-Runs _ refl))

    call_after-Runs :
        (ctx : Ctx) (info : QueryInfo) (h : Hook) → Runs R 0 (call_after env ctx info h)
    unfolding call_after
    call_after-Runs ctx info h =
        bind-Runs 0 0 _ _ (hook_call-Runs _ refl)
          (λ _. if_contextual-Runs h _ (hook_call-Runs _ refl))

    each_hook-Runs :
        (c : Conn) (fn : Hook → M (Unit {0}))
        → ((h : Hook) → Runs R 0 (fn h))
        → Runs R 0 (each_hook c fn)
    unfolding each_hook
    each_hook-Runs c fn s = record { ended = λ w. (hook_loop-Runs c.obs fn s _).ended w }

    pub fire_before_context-Runs :
        (ctx : Ctx) (c : Conn) (op : Op) (sql : Text) (args : List Value)
        → Runs R 0 (fire_before_context env ctx c op sql args)
    unfolding fire_before_context
    fire_before_context-Runs ctx c op sql args = each_hook-Runs c _ (call_before-Runs ctx _)

    fire_after_context-Runs :
        (ctx : Ctx) (c : Conn) (op : Op) (sql : Text) (args : List Value) (e : Option Err)
        (rows : ℤ)
        → Runs R 0 (fire_after_context env ctx c op sql args e rows)
    unfolding fire_after_context
    fire_after_context-Runs ctx c op sql args e rows = record {
      ended = λ w. (each_hook-Runs c _ (call_after-Runs ctx _)).ended w;
    }

    pub track-Runs : (c : Conn) → Runs R 0 (track env c)
    unfolding track
    track-Runs c = record {
      ended = λ w.
          let slow =
            ltb_ℤ (pos 0) c.o.slow_query && ltb_ℤ c.o.slow_query (pos (env.since w.trace)) in
          elim (Bool-cases slow) [
            | inl y ↦ rw y ((warn_to-Runs c.obs "database slow query").ended w)
            | inr n ↦ rw n (λ h. cc h, g.here w.trace)
          ];
    }

    pub finish-Runs :
        {A : Type 0} (ctx : Ctx) (c : Conn) (op : Op) (sql : Text) (args : List Value)
        (e : Option Err) (rows : ℤ) (result : A)
        → Runs R 0 (finish env ctx c op sql args e rows result)
    unfolding finish
    finish-Runs ctx c op sql args e rows result = bind-Runs 0 0 _ _ (track-Runs c) (λ _.
        bind-Runs 0 0 _ _ (fire_after_context-Runs ctx c op sql args e rows)
          (λ _. pure-Runs result))

  pub ask-Runs :
      {A : Type 0} (answer : World → A) (e : Event)
      → is_statement e ≡ true
      → Runs R 1 (ask answer e)
  ask-Runs answer e q = record { ended = λ w. (λ h. cc h, g.sent e w.trace q) }

  pub ask_quiet-Runs :
      {A : Type 0} (answer : World → A) (e : Event) → is_quiet e ≡ true → Runs R 0 (ask answer e)
  ask_quiet-Runs answer e q = record { ended = λ w. (λ h. cc h, g.quiet e w.trace q) }
