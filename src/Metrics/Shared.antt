-- ===== src/Metrics/Shared.antt =====
-- Two DBs that enable their metrics on one registerer. A registerer is not code of the repository: what
-- Prometheus documents, that it refuses a metric exactly when it holds one of that name, is a hypothesis.
use text.Mathlib.Text.{◌==◌ as str_eq}
use text.Mathlib.TextPositions.{eq_refl}
use text.Mathlib.TextEquality.{eq_iff}
use hellnet_lib_database.Prelude.{
  ℕ, ◌≡◌, refl, ap, ◌∙◌, ◌==◌, ==_iff, Bool, true, false, ◌&&◌, String, none, some, [], ◌∷◌, inl,
  inr, Bool-cases, if◌then◌else◌,
}
use hellnet_lib_database.Errors.{Err, wrapf}
use hellnet_lib_database.World.{
  Handle, Metric, queries_total, register_metric, unregister_metric, Trace, err, Env, World, ret,
  push,
}
use hellnet_lib_database.Metrics.{
  register, register_each, register_answered, unregister_each, registered, enable_checked,
  enable_metrics, PoolStats,
}
use hellnet_lib_database.Metrics.Registration.{register-AllOrNone}
use hellnet_lib_database.Metrics.Described.{desc}

abbrev pub is_named : ℕ → String → ℕ → Metric → Bool
is_named reg name r c = str_eq (desc c).name name && (r == reg)

-- the world in which the first metric of the collector `m` was refused
abbrev pub refused : ℕ → ℕ → World → World
refused reg m w = push (register_metric reg m queries_total) w

pub is_named_lem :
    (reg : ℕ) (name : String) (r : ℕ) (c : Metric)
    → is_named reg name r c ≡ true
    → ((desc c).name ≡ name) × (r ≡ reg)
is_named_lem reg name r c h = elim (Bool-cases (str_eq (desc c).name name)) [
  | inl y ↦ ((eq_iff (desc c).name name).0 y, (==_iff r reg).0 (rw y at h))
  | inr n ↦ absurd (cc (rw n at h))
]

module _ (env : Env) where
  -- whether the registerer holds a metric of that name, after a trace
  abbrev pub held : ℕ → String → Trace → Bool
  held reg name [] = false
  held reg name (register_metric r m c ∷ t) =
      let before = held reg name t in
      if is_named reg name r c
      then (elim (env.failure (register_metric r m c ∷ t)) [ none ↦ true | some e ↦ before ])
      else before
  held reg name (unregister_metric r m c ∷ t) =
      let before = held reg name t in if is_named reg name r c then false else before
  held reg name (_ ∷ t) = held reg name t

  -- Register fails exactly for a name that is held
  abbrev pub RefusesDuplicates : ℕ → Err → Type 0
  RefusesDuplicates reg already =
      (m : ℕ) (c : Metric) (t : Trace)
      → env.failure (register_metric reg m c ∷ t)
        ≡ (if held reg (desc c).name t then some already else none)

  module _ (reg : ℕ) (already : Err) (refuses : RefusesDuplicates reg already) where
    held_registered :
        (m : ℕ) (c : Metric) (t : Trace)
        → held reg (desc c).name (register_metric reg m c ∷ t) ≡ true
    held_registered m c t =
        rw (eq_refl (desc c).name, (==_iff reg reg).1 refl)
          (elim (Bool-cases (held reg (desc c).name t)) [
            | inl y ↦
                let e : env.failure (register_metric reg m c ∷ t) ≡ some already =
                  refuses m c t ∙ rw y refl in
                rw e y
            | inr n ↦
                let e : env.failure (register_metric reg m c ∷ t) ≡ none =
                  refuses m c t ∙ rw n refl in
                rw e refl
          ])

    -- a collector that was registered holds its first name
    register-held :
        (m : ℕ) (w : World)
        → (register env reg m w).0 ≡ ret none
        → held reg (desc queries_total).name (register env reg m w).1.trace ≡ true
    register-held m w h = elim (register-AllOrNone env reg m w) [
      | inl r ↦ rw r (held_registered m queries_total w.trace)
      | inr (pre, c, post, e, s, f, r) ↦ absurd (cc (ap (λ q. q.0) r, h))
    ]

    register-refused :
        (m : ℕ) (w : World)
        → held reg (desc queries_total).name w.trace ≡ true
        → register env reg m w
          ≡ (ret (some (wrapf "database: registering metrics: %w" [] already)), refused reg m w)
    unfolding register register_each register_answered unregister_each
    register-refused m w h =
        let e : env.failure (refused reg m w).trace ≡ some already =
          refuses m queries_total w.trace ∙ rw h refl in
        rw e refl

    -- a refused metric leaves the registerer as it was
    refused-held :
        (m : ℕ) (w : World) (name : String)
        → held reg (desc queries_total).name w.trace ≡ true
        → held reg name (refused reg m w).trace ≡ held reg name w.trace
    refused-held m w name h =
        let e : env.failure (refused reg m w).trace ≡ some already =
          refuses m queries_total w.trace ∙ rw h refl in
        elim (Bool-cases (is_named reg name reg queries_total)) [
          | inl y ↦ rw y (rw e refl)
          | inr n ↦ rw n refl
        ]

    -- For a registerer that refuses exactly the names that it holds: when one collector was registered with it,
    -- EnableMetrics of another DB, with a collector `n` of its own, tries one metric and returns the
    -- wrapped error; the hooks of every DB and all that the registerer holds stay as they were.
    pub enable_metrics-shared :
        (stat : Trace → PoolStats) (default_registerer m n p : ℕ) (pool : Handle) (w : World)
        → (register env reg m w).0 ≡ ret none
        → ((register env reg m w).1.registry p).met ≡ none
        → let v = (register env reg m w).1 in
          let r = enable_metrics env stat default_registerer p pool (some reg) n v in
          (r.0 ≡ ret (err (wrapf "database: registering metrics: %w" [] already)))
          × (r.1.registry ≡ v.registry)
          × (r.1.trace ≡ (refused reg n v).trace)
          × ((name : String) → held reg name r.1.trace ≡ held reg name v.trace)
    unfolding enable_metrics enable_checked registered
    enable_metrics-shared stat default_registerer m n p pool w h fresh =
        let v = (register env reg m w).1 in
        let y = register-held m w h in
        rw (fresh, register-refused n v y) (refl, refl, refl, λ name. refused-held n v name y)
