-- ===== src/Core/HookCalls/Passes.antt =====
-- What a pass over the hooks leaves, before a statement and after it.
use hellnet_lib_database.Prelude.{
  ℕ, ◌≡◌, ◌≢◌, refl, ap, ◌∙◌, true, false, Option, List, [], ◌∷◌, arith, Option-cases, inl, inr,
}
use hellnet_lib_database.Prelude.Int.{ℤ}
use hellnet_lib_database.Text.{Text}
use hellnet_lib_database.Errors.{Err}
use hellnet_lib_database.World.{
  Value, Ctx, Op, QueryInfo, Hook, user, collector, Event, before_hook, after_hook, Env, World,
  Outcome, ret, panics, no_fuel,
}
use hellnet_lib_database.World.Exec.{M, pure, ◌>>◌, bind_ret}
use hellnet_lib_database.Hooks.{snapshot}
use hellnet_lib_database.Core.{
  Conn, attached, registry_of, call_before, call_after, recovered, hook_loop, fire_before_context,
  fire_after_context, track, finish,
}
use hellnet_lib_database.Core.HookCalls.{marks, push_all, info_before, info_after, Observed}

-- `m` calls one hook, by the event `e`, and returns or panics.
pub record Fires (m : M (Unit {0})) (e : Event) : Type 0 where
  pub ends : (w : World) → (m w).0 ≢ no_fuel
  pub calls : (w : World) → marks (m w).1.trace ≡ e ∷ marks w.trace
  pub keeps : (w : World) → (m w).1.registry ≡ w.registry

module _ (env : Env) (ctx : Ctx) (info : QueryInfo) where
  call_before-Fires : (h : Hook) → Fires (call_before env ctx info h) (before_hook h info)
  unfolding call_before
  call_before-Fires (user i true) = record {
    ends = λ w. ground arith;
    calls = λ w. ground arith;
    keeps = λ w. ground arith;
  }
  call_before-Fires (user i false) = record {
    ends = λ w. ground arith;
    calls = λ w. ground arith;
    keeps = λ w. ground arith;
  }
  call_before-Fires (collector i) = record {
    ends = λ w. ground arith;
    calls = λ w. ground arith;
    keeps = λ w. ground arith;
  }

  call_after-Fires : (h : Hook) → Fires (call_after env ctx info h) (after_hook h info)
  unfolding call_after
  call_after-Fires (user i true) = record {
    ends = λ w. ground arith;
    calls = λ w. ground arith;
    keeps = λ w. ground arith;
  }
  call_after-Fires (user i false) = record {
    ends = λ w. ground arith;
    calls = λ w. ground arith;
    keeps = λ w. ground arith;
  }
  call_after-Fires (collector i) = record {
    ends = λ w. ground arith;
    calls = λ w. ground arith;
    keeps = λ w. ground arith;
  }

recovered-ret :
    (o : Outcome (Unit {0})) (w : World)
    → o ≢ no_fuel
    → ((recovered attached (o, w)).0 ≡ ret tt)
      × (marks (recovered attached (o, w)).1.trace ≡ marks w.trace)
      × ((recovered attached (o, w)).1.registry ≡ w.registry)
unfolding recovered
recovered-ret (ret tt) w h = (refl, refl, refl)
recovered-ret (panics p) w h = (refl, refl, refl)
recovered-ret no_fuel w h = absurd (h refl)

-- What a fully recovered pass over the hooks leaves.
abbrev pub Passed : (Hook → Event) → List Hook → Outcome (Unit {0}) × World → World → Type 0
Passed f hs r w =
    (r.0 ≡ ret tt) × (marks r.1.trace ≡ push_all f hs (marks w.trace)) × (r.1.registry ≡ w.registry)

hook_loop-Passed :
    (fn : Hook → M (Unit {0})) (f : Hook → Event) (all : (h : Hook) → Fires (fn h) (f h))
    (hs : List Hook) (w : World)
    → Passed f hs (hook_loop attached fn hs w) w
unfolding hook_loop
hook_loop-Passed fn f all [] w = (refl, refl, refl)
hook_loop-Passed fn f all (h ∷ hs) w =
    let (r, t, g) = recovered-ret (fn h w).0 (fn h w).1 ((all h).ends w) in
    let w' = (recovered attached (fn h w)).1 in
    let (r', t', g') = hook_loop-Passed fn f all hs w' in
    let t'' : marks w'.trace ≡ f h ∷ marks w.trace = t ∙ (all h).calls w in
    rw r (r', t' ∙ ap (push_all f hs) t'', g' ∙ g ∙ (all h).keeps w)

pub same_hooks :
    (c : Conn) (v w : World)
    → v.registry ≡ w.registry
    → snapshot (registry_of c v) ≡ snapshot (registry_of c w)
unfolding registry_of
same_hooks c v w h = elim (Option-cases c.hooks) [ inl e ↦ rw e | inr (p, e) ↦ rw (e, h) ]

module _ (env : Env) (parent : Ctx) (c : Conn) (logged : c.obs ≡ attached) (op : Op) (sql : Text)
    (args : List Value) where
  pub fire_before_context-Passed :
      (w : World)
      → Passed
          (λ h. before_hook h (info_before c op sql args))
          (snapshot (registry_of c w))
          (fire_before_context env parent c op sql args w)
          w
  unfolding fire_before_context
  fire_before_context-Passed w = rw logged (
      hook_loop-Passed _ _ (call_before-Fires env parent (info_before c op sql args))
        (snapshot (registry_of c w)) w)

  track-quiet :
      (w : World)
      → ((track env c w).0 ≡ ret tt)
        × (marks (track env c w).1.trace ≡ marks w.trace)
        × ((track env c w).1.registry ≡ w.registry)
  unfolding track
  track-quiet w = rw logged (ground arith)

  fire_after_context-Passed :
      (e : Option Err) (rows : ℤ) (w : World)
      → Passed
          (λ h. after_hook h (info_after c op sql args (env.since w.trace) e rows))
          (snapshot (registry_of c w))
          (fire_after_context env parent c op sql args e rows w)
          w
  unfolding fire_after_context
  fire_after_context-Passed e rows w = rw logged (
      hook_loop-Passed _ _
        (call_after-Fires env parent (info_after c op sql args (env.since w.trace) e rows))
        (snapshot (registry_of c w)) w)

  finish_eq :
      {A : Type 0} (e : Option Err) (rows : ℤ) (result : A) (w : World)
      → finish env parent c op sql args e rows result w
        ≡ (ret result, (fire_after_context env parent c op sql args e rows (track env c w).1).1)
  unfolding finish
  finish_eq e rows result w =
      bind_ret (track env c)
        (λ _. fire_after_context env parent c op sql args e rows >> pure result) w (track-quiet w).0
      ∙ bind_ret (fire_after_context env parent c op sql args e rows) (λ _. pure result)
          (track env c w).1 (fire_after_context-Passed e rows (track env c w).1).0

  finish_passes :
      {A : Type 0} (e : Option Err) (rows : ℤ) (result : A) (w : World)
      → let r = finish env parent c op sql args e rows result w in
        (r.0 ≡ ret result)
        × ((d : ℕ) × (marks r.1.trace
              ≡ push_all
                  (λ h. after_hook h (info_after c op sql args d e rows))
                  (snapshot (registry_of c w))
                  (marks w.trace)))
        × (r.1.registry ≡ w.registry)
  unfolding finish
  finish_passes e rows result w =
      let (r, t, g) = track-quiet w in
      let w' = (track env c w).1 in
      let (r', t', g') = fire_after_context-Passed e rows w' in
      let d = env.since w'.trace in
      let f = λ (h : Hook). after_hook h (info_after c op sql args d e rows) in
      rw (finish_eq e rows result w) (
        refl,
        (
          d,
          t'
              ∙ ap (λ hs. push_all f hs (marks w'.trace)) (same_hooks c w' w g)
              ∙ ap (push_all f (snapshot (registry_of c w))) t,
        ),
        g' ∙ g,
      )

  pub finish-Observed :
      {A : Type 0} (statement : Event) (e : Option Err) (rows : ℤ) (result : A) (w w' : World)
      → marks w'.trace ≡ statement ∷ marks (fire_before_context env parent c op sql args w).1.trace
      → w'.registry ≡ (fire_before_context env parent c op sql args w).1.registry
      → Observed c op sql args statement
          (finish env parent c op sql args e rows result w')
          w
          result
          e
          rows
  finish-Observed statement e rows result w w' t g =
      let (r1, t1, g1) = fire_before_context-Passed w in
      let (r2, (d, t2), g2) = finish_passes e rows result w' in
      let f = λ (h : Hook). after_hook h (info_after c op sql args d e rows) in
      (
        r2,
        (
          d,
          t2
              ∙ ap (λ hs. push_all f hs (marks w'.trace)) (same_hooks c w' w (g ∙ g1))
              ∙ ap (push_all f (snapshot (registry_of c w))) (t ∙ ap (◌∷◌ statement) t1),
        ),
        g2 ∙ g ∙ g1,
      )
