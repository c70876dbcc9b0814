-- ===== src/Listen/Payloads.antt =====
-- The payloads that a listener receives, and the goroutines of its handler that it starts.
use hellnet_lib_database.Prelude.{
  ℕ, ◌≡◌, refl, ap, ◌∙◌, Bool, true, ◌||◌, Option, none, some, List, [], ◌∷◌, ◌++◌, inl, inr,
  Bool-cases,
}
use hellnet_lib_database.Text.{Text}
use hellnet_lib_database.World.{
  Event, Trace, go_handler, wait_notification, Env, World, Outcome, ret, panics, no_fuel,
}
use hellnet_lib_database.Core.Growth.{is_statement, is_quiet}
use hellnet_lib_database.Connection.{Pinned}
use hellnet_lib_database.Listen.{ListenOptions, Surroundings}
use hellnet_lib_database.Listen.Loop.{run_listener}
use hellnet_lib_database.Listen.Kept.{Kept, Left, payload_of}
use hellnet_lib_database.Listen.Returns.{free_Rule}
use hellnet_lib_database.Listen.Run.{run_listener-Kept}

-- the payloads that goroutines of the handler were started with, the newest first
abbrev pub dispatched : Trace → List Text
dispatched [] = []
dispatched (go_handler payload ∷ t) = payload ∷ dispatched t
dispatched (_ ∷ t) = dispatched t

abbrev pub prepend {ℓ} : {A : Type ℓ} → Option A → List A → List A
prepend none xs = xs
prepend (some x) xs = x ∷ xs

-- the payloads that the server answered with, the newest first
abbrev pub payloads : Surroundings → Trace → List Text
payloads l [] = []
payloads l (wait_notification h ctx ∷ t) =
    prepend (payload_of (l.notification (wait_notification h ctx ∷ t))) (payloads l t)
payloads l (_ ∷ t) = payloads l t

-- the same payloads were received and dispatched between two traces
abbrev pub Delivered : Surroundings → Trace → Trace → Type 0
Delivered l t0 t =
    (new : List Text) × (payloads l t ≡ new ++ payloads l t0)
    × (dispatched t ≡ new ++ dispatched t0)

-- an event that passes no payload on
quiet_payloads :
    (l : Surroundings) (e : Event) (t : Trace)
    → is_quiet e || is_statement e ≡ true
    → (payloads l (e ∷ t) ≡ payloads l t) × (dispatched (e ∷ t) ≡ dispatched t)
quiet_payloads l (wait_notification h ctx) t q = cc q
quiet_payloads l (go_handler payload) t q = cc q
quiet_payloads l e t q = (refl, refl)

passed :
    (l : Surroundings) (t0 t : Trace) (e : Event)
    → is_quiet e || is_statement e ≡ true
    → Delivered l t0 t
    → Delivered l t0 (e ∷ t)
passed l t0 t e q (new, r, d) = let n = quiet_payloads l e t q in (new, n.0 ∙ r, n.1 ∙ d)

Delivered-Kept :
    (env : Env) (l : Surroundings) (t0 : Trace) → Kept env l (λ _. Unit) (λ hs t. Delivered l t0 t)
Delivered-Kept env l t0 = record {
  grow = record {
    here = λ t hs p. p;
    chain = λ j k t u v a b hs p. b hs (a hs p);
    more = λ j k t u a hs p. a hs p;
    quiet = λ e t q hs p. passed l t0 t e (rw q refl) p;
    sent = λ e t q hs p.
        passed l t0 t e
          (elim (Bool-cases (is_quiet e)) [ inl y ↦ rw y refl | inr f ↦ rw (f, q) refl ]) p;
  };
  informed = λ s hs t p. p;
  slept = λ d hs t a p. p;
  silent = λ h ctx hs t e p. (p.0, rw e p.1, p.2);
  delivered = λ h ctx payload hs t e p.
      (payload ∷ p.0, rw e (ap (λ ps. payload ∷ ps) p.1), ap (λ ps. payload ∷ ps) p.2);
  refused = λ pool ctx hs t e p. p;
  borrowed = λ pool ctx h hs t e p. p;
  returned = λ h hs t p. p;
  replaced = λ h q hs t p. p;
}

Left-Delivered :
    {A : Type 0} (l : Surroundings) (t0 : Trace) (o : Outcome A) (t : Trace)
    → Left (λ hs t. Delivered l t0 t) (λ _. []) o t
    → Delivered l t0 t
Left-Delivered l t0 (ret a) t p = p
Left-Delivered l t0 (panics x) t p = p.1
Left-Delivered l t0 no_fuel t p = p.1

module _ (env : Env) (l : Surroundings) (channel : Text) (opts : ListenOptions)
    (reconnect : Bool) where
  -- At the end of a listener's run, or where its fuel ends, it has started one goroutine of the handler for the
  -- payload of each notification that arrived in the run, in the order of their arrival, however often the
  -- session was lost. In which order these goroutines then run is not stated.
  pub run_listener-Delivered :
      (fuel : ℕ) (c : Pinned) (handled : Bool) (w : World)
      → Delivered l w.trace (run_listener env l channel opts reconnect fuel c handled w).1.trace
  run_listener-Delivered fuel c handled w =
      Left-Delivered l w.trace (run_listener env l channel opts reconnect fuel c handled w).0 _ (
        (run_listener-Kept (free_Rule env opts) l channel reconnect fuel c tt
            (Delivered-Kept env l w.trace) handled).kept
          w ([], refl, refl))
