-- ===== src/Listen/Delays.antt =====
-- The delays between the attempts of a listener to listen again.
use hellnet_lib_database.Prelude.{
  ℕ, ◌*◌, ◌<◌, ◌≡◌, refl, ap, ◌∙◌, Bool, true, ◌&&◌, ◌||◌, [], ◌∷◌, all, inl, inr, Bool-cases,
  arith,
}
use hellnet_lib_database.Prelude.Int.{
  ℤ, pos, negsuc, ◌≤ℤ◌, ◌<ℤ◌, leb_ℤ, ◌*ℤ◌, int64, int64_small, mul_pos,
}
use hellnet_lib_database.Text.{Text}
use hellnet_lib_database.World.{
  Event, Trace, sleep_backoff, Env, World, Outcome, ret, panics, no_fuel,
}
use hellnet_lib_database.Core.Growth.{is_statement, is_quiet}
use hellnet_lib_database.Connection.{Pinned}
use hellnet_lib_database.Listen.{ListenOptions, Surroundings, normalized}
use hellnet_lib_database.Listen.Loop.{next_backoff, run_listener, listen_with_reconnect}
use hellnet_lib_database.Listen.Kept.{Kept, Left}
use hellnet_lib_database.Listen.Returns.{Rule}
use hellnet_lib_database.Listen.Run.{run_listener-Kept}

-- a delay that the options allow
abbrev pub is_allowed : ListenOptions → Event → Bool
is_allowed o (sleep_backoff d) = leb_ℤ o.retry_delay d && leb_ℤ d o.max_backoff
is_allowed o _ = true

-- half of the range of int64, below which doubling does not wrap around
abbrev pub half_range : ℤ
half_range = pos 4611686018427387904

abbrev Within : ListenOptions → ℤ → Type 0
Within o d = (leb_ℤ o.retry_delay d ≡ true) × (leb_ℤ d o.max_backoff ≡ true)

-- options whose delays are positive and in order
abbrev Ordered : ListenOptions → Type 0
Ordered o =
    (pos 1 ≤ℤ o.retry_delay) × (o.retry_delay ≤ℤ o.max_backoff) × (o.max_backoff <ℤ half_range)

normalized-Ordered :
    (o : ListenOptions)
    → o.retry_delay <ℤ half_range
    → o.max_backoff <ℤ half_range
    → Ordered (normalized o)
unfolding normalized
normalized-Ordered o a b = (ground arith, ground arith, ground arith)

-- doubling below half of the range
doubled_small : (n : ℕ) → n < 4611686018427387904 → int64 (pos n *ℤ pos 2) ≡ pos (n * 2)
doubled_small n h = ap int64 (mul_pos n 2) ∙ int64_small (n * 2) (omega (arith, h))

next_backoff-Within :
    (o : ListenOptions) (b : ℤ) → Ordered o → Within o b → Within o (next_backoff o b)
unfolding next_backoff
next_backoff-Within o (negsuc n) h w = ground arith
next_backoff-Within o (pos n) h w = let d = doubled_small n (ground arith) in rw d (ground arith)

Left-all :
    {A : Type 0} (o : ListenOptions) (r : Outcome A) (t : Trace)
    → Left (λ hs t. all (is_allowed o) t ≡ true) (λ _. []) r t
    → all (is_allowed o) t ≡ true
Left-all o (ret a) t p = p
Left-all o (panics x) t p = p.1
Left-all o no_fuel t p = p.1

module _ (env : Env) (l : Surroundings) where
  unslept :
      (o : ListenOptions) (e : Event) (t : Trace)
      → is_quiet e || is_statement e ≡ true
      → all (is_allowed o) t ≡ true
      → all (is_allowed o) (e ∷ t) ≡ true
  unslept o (sleep_backoff d) t q p = cc q
  unslept o e t q p = p

  delays-Kept : (o : ListenOptions) → Kept env l (Within o) (λ hs t. all (is_allowed o) t ≡ true)
  delays-Kept o = record {
    grow = record {
      here = λ t hs p. p;
      chain = λ j k t u v a b hs p. b hs (a hs p);
      more = λ j k t u a hs p. a hs p;
      quiet = λ e t q hs p. unslept o e t (rw q refl) p;
      sent = λ e t q hs p.
          unslept o e t
            (elim (Bool-cases (is_quiet e)) [ inl y ↦ rw y refl | inr f ↦ rw (f, q) refl ]) p;
    };
    informed = λ s hs t p. p;
    slept = λ d hs t a p. rw (a.0, a.1) p;
    silent = λ h ctx hs t e p. p;
    delivered = λ h ctx payload hs t e p. p;
    refused = λ pool ctx hs t e p. p;
    borrowed = λ pool ctx h hs t e p. p;
    returned = λ h hs t p. p;
    replaced = λ h q hs t p. p;
  }

  Within-Rule : (o : ListenOptions) → Ordered o → Rule env o Unit (Within o) (λ _. Unit)
  Within-Rule o h = record {
    first = ground arith;
    doubled = λ b d. next_backoff-Within o b h d;
    derived = λ c h g. tt;
    safe = λ c sql w x g e. tt;
  }

  -- ListenWithReconnect, at the end of a run or where its fuel ends, has slept no delay below the retry delay of its
  -- normalized options and none above their maximum, if the two that it was given are below half of the
  -- range of int64 and no earlier delay of the trace was outside.
  pub listen_with_reconnect-delays :
      (channel : Text) (o : ListenOptions) (fuel : ℕ) (c : Pinned) (handled : Bool) (w : World)
      → o.retry_delay <ℤ half_range
      → o.max_backoff <ℤ half_range
      → all (is_allowed (normalized o)) w.trace ≡ true
      → all
          (is_allowed (normalized o))
          (listen_with_reconnect env l channel o fuel c handled w).1.trace
        ≡ true
  unfolding listen_with_reconnect
  listen_with_reconnect-delays channel o fuel c handled w a b p =
      let rule = Within-Rule (normalized o) (normalized-Ordered o a b) in
      Left-all (normalized o) (run_listener env l channel (normalized o) true fuel c handled w).0 _
        ((run_listener-Kept rule l channel true fuel c tt (delays-Kept (normalized o)) handled).kept
          w p)
