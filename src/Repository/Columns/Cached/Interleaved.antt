-- ===== src/Repository/Columns/Cached/Interleaved.antt =====
-- What every interleaving of calls of columnsOf keeps, and where it ends.
use hellnet_lib_database.Prelude.{
  ℕ, suc, ◌-◌, ◌≤◌, ◌≡◌, refl, ap, ◌∙◌, ◌==◌, ==_iff, some, List, [], ◌∷◌, arith, Bool-cases, inl,
  inr, if◌then◌else◌, Option-cases,
}
use hellnet_lib_database.Text.{Text}
use hellnet_lib_database.Repository.Columns.{ElemType, ColField, fields_of, columns_of}
use hellnet_lib_database.Repository.Columns.Cached.{
  Caches, store_fields, store_columns, FieldsCall, load, store, loaded, ColumnsCall, start, sizing,
  looping, joined, done, fields_step, columns_step, System, begun, moved, run,
}

-- how many steps a call still makes
abbrev rank : ColumnsCall → ℕ
rank (start k) = 8
rank (sizing k load) = 7
rank (sizing k (store fs)) = 6
rank (sizing k (loaded fs)) = 5
rank (looping k load) = 4
rank (looping k (store fs)) = 3
rank (looping k (loaded fs)) = 2
rank (joined k s) = 1
rank (done k s) = 0

module _ (type_of : ℕ → ElemType) where
  -- A cache says nothing of a type, or what its fields give.
  pub record IsValid (c : Caches) : Type 0 where
    pub of_fields : (k : ℕ) (fs : List ColField) → c.fields k ≡ some fs → fs ≡ fields_of (type_of k)
    pub of_columns : (k : ℕ) (s : Text) → c.columns k ≡ some s → s ≡ columns_of (type_of k)

  abbrev IsRight : ℕ → FieldsCall → Type 0
  IsRight k load = Unit {0}
  IsRight k (store fs) = fs ≡ fields_of (type_of k)
  IsRight k (loaded fs) = fs ≡ fields_of (type_of k)

  -- what a call of columnsOf for the type `k` has in its hands is right
  abbrev Serves : ℕ → ColumnsCall → Type 0
  Serves k (start q) = q ≡ k
  Serves k (sizing q call) = (q ≡ k) × IsRight k call
  Serves k (looping q call) = (q ≡ k) × IsRight k call
  Serves k (joined q s) = (q ≡ k) × (s ≡ columns_of (type_of k))
  Serves k (done q s) = (q ≡ k) × (s ≡ columns_of (type_of k))

  abbrev Good : ℕ → ℕ → ColumnsCall × Caches → Type 0
  Good k n r = Serves k r.0 × IsValid r.1 × (rank r.0 ≤ n)

  store_fields-IsValid :
      (k : ℕ) (c : Caches) → IsValid c → IsValid (store_fields k (fields_of (type_of k)) c)
  store_fields-IsValid k c v = record {
    of_fields = λ q fs h. elim (Bool-cases (q == k)) [
      | inl y ↦ let e : q ≡ k = (==_iff q k).0 y in let h' = rw y at h in rw e cc
      | inr n ↦ v.of_fields q fs (rw n at h)
    ];
    of_columns = v.of_columns;
  }

  store_columns-IsValid :
      (k : ℕ) (c : Caches) → IsValid c → IsValid (store_columns k (columns_of (type_of k)) c)
  store_columns-IsValid k c v = record {
    of_fields = v.of_fields;
    of_columns = λ q s h. elim (Bool-cases (q == k)) [
      | inl y ↦ let e : q ≡ k = (==_iff q k).0 y in let h' = rw y at h in rw e cc
      | inr n ↦ v.of_columns q s (rw n at h)
    ];
  }

  -- a call in progress takes a step towards its end, and stays right
  columns_step-Good :
      (k : ℕ) (call : ColumnsCall) (c : Caches)
      → Serves k call
      → IsValid c
      → Good k (rank call - 1) (columns_step type_of call c)
  unfolding columns_step columns_of
  columns_step-Good k (start q) c e v = elim (Option-cases (c.columns q)) [
    | inl h ↦ rw (h, columns_step) ((e, tt), v, omega arith)
    | inr (s, h) ↦
        rw (h, columns_step)
          ((e, v.of_columns q s h ∙ ap (λ i. columns_of (type_of i)) e), v, omega arith)
  ]
  columns_step-Good k (sizing q load) c (e, _) v = elim (Option-cases (c.fields q)) [
    | inl h ↦
        rw (h, columns_step, fields_step) ((e, ap (λ i. fields_of (type_of i)) e), v, omega arith)
    | inr (fs, h) ↦
        rw (h, columns_step, fields_step)
          ((e, v.of_fields q fs h ∙ ap (λ i. fields_of (type_of i)) e), v, omega arith)
  ]
  columns_step-Good k (sizing q (store fs)) c (e, r) v =
      rw (e, r) ((refl, refl), store_fields-IsValid k c v, omega arith)
  columns_step-Good k (sizing q (loaded fs)) c (e, r) v = ((e, tt), v, omega arith)
  columns_step-Good k (looping q load) c (e, _) v = elim (Option-cases (c.fields q)) [
    | inl h ↦
        rw (h, columns_step, fields_step) ((e, ap (λ i. fields_of (type_of i)) e), v, omega arith)
    | inr (fs, h) ↦
        rw (h, columns_step, fields_step)
          ((e, v.of_fields q fs h ∙ ap (λ i. fields_of (type_of i)) e), v, omega arith)
  ]
  columns_step-Good k (looping q (store fs)) c (e, r) v =
      rw (e, r) ((refl, refl), store_fields-IsValid k c v, omega arith)
  columns_step-Good k (looping q (loaded fs)) c (e, r) v = rw r ((e, refl), v, omega arith)
  columns_step-Good k (joined q s) c (e, r) v =
      rw (e, r) ((refl, refl), store_columns-IsValid k c v, omega arith)
  columns_step-Good k (done q s) c (e, r) v = ((e, r), v, omega arith)

  -- every call is right, and so are the caches
  record Sound (types : ℕ → ℕ) (s : System) : Type 0 where
    pub serves : (i : ℕ) → Serves (types i) (s.calls i)
    pub valid : IsValid s.caches

  abbrev next_of : ℕ → System → System
  next_of i s = moved i s (columns_step type_of (s.calls i) s.caches)

  next_of-Sound : (types : ℕ → ℕ) (i : ℕ) (s : System) → Sound types s → Sound types (next_of i s)
  next_of-Sound types i s h =
      let (r, v, _) = columns_step-Good (types i) (s.calls i) s.caches (h.serves i) h.valid in
      record {
        serves = λ j. elim (Bool-cases (j == i)) [
          | inl y ↦ let e : j ≡ i = (==_iff j i).0 y in rw y (rw e r)
          | inr n ↦ rw n (h.serves j)
        ];
        valid = v;
      }

  begun-Sound : (types : ℕ → ℕ) → Sound types (begun types)
  begun-Sound types = record {
    serves = λ i. refl;
    valid = record { of_fields = λ k fs h. absurd (cc h); of_columns = λ k s h. absurd (cc h) };
  }

  -- how often `i` is in the schedule
  abbrev pub turns : ℕ → List ℕ → ℕ
  turns i [] = 0
  turns i (j ∷ js) = let rest = turns i js in if i == j then suc rest else rest

  next_of-rank :
      (types : ℕ → ℕ) (i j : ℕ) (s : System)
      → Sound types s
      → rank ((next_of j s).calls i) ≤ rank (s.calls i) - (if i == j then 1 else 0)
  next_of-rank types i j s h = elim (Bool-cases (i == j)) [
    | inl y ↦
        let (_, _, b) = columns_step-Good (types j) (s.calls j) s.caches (h.serves j) h.valid in
        rw y (rw ((==_iff i j).0 y) b)
    | inr n ↦ rw n (omega arith)
  ]

  run-Good :
      (types : ℕ → ℕ) (i : ℕ) (schedule : List ℕ) (s : System)
      → Sound types s
      → Sound types (run type_of schedule s)
        × (rank ((run type_of schedule s).calls i) ≤ rank (s.calls i) - turns i schedule)
  unfolding run
  run-Good types i [] s h = (h, omega arith)
  run-Good types i (j ∷ js) s h =
      let (sound, bound) = run-Good types i js (next_of j s) (next_of-Sound types j s h) in
      (sound, ground (arith, bound, next_of-rank types i j s h))

  -- Whatever the order in which the goroutines run that call columnsOf, each for a type of its own choice, with
  -- empty caches at first: a call that was given 8 turns has ended, and has returned the columns that the
  -- type has, as a call without caches does.
  pub columns_of-cached :
      (types : ℕ → ℕ) (schedule : List ℕ) (i : ℕ)
      → 8 ≤ turns i schedule
      → (run type_of schedule (begun types)).calls i
        ≡ done (types i) (columns_of (type_of (types i)))
  columns_of-cached types schedule i enough =
      let (h, bound) = run-Good types i schedule (begun types) (begun-Sound types) in
      ended (types i) _ (h.serves i) (omega (arith, bound))
    where
      ended :
          (k : ℕ) (call : ColumnsCall)
          → Serves k call
          → rank call ≤ 0
          → call ≡ done k (columns_of (type_of k))
      ended k (done q s) (e, r) l = rw (e, r) refl
      ended k (joined q s) h l = absurd (omega arith)
      ended k (start q) h l = absurd (omega arith)
      ended k (sizing q load) h l = absurd (omega arith)
      ended k (sizing q (store fs)) h l = absurd (omega arith)
      ended k (sizing q (loaded fs)) h l = absurd (omega arith)
      ended k (looping q load) h l = absurd (omega arith)
      ended k (looping q (store fs)) h l = absurd (omega arith)
      ended k (looping q (loaded fs)) h l = absurd (omega arith)
