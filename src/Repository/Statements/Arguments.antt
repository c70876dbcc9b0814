-- ===== src/Repository/Statements/Arguments.antt =====
-- Each placeholder of a built statement stands for the argument that the code means by it.
use mathlib.Core.Path.{subst₂}
use mathlib.Core.List.{append_assoc}
use hellnet_lib_database.Prelude.{
  ℕ, zero, suc, ◌+◌, ◌≡◌, refl, false, some, List, [], ◌∷◌, ◌++◌, map, length, length-append,
  get_elem?, get_elem?-middle, arith, Bool-cases, Option-cases, inl, inr,
}
use hellnet_lib_database.Text.{Text, codes, is_empty, join}
use hellnet_lib_database.World.{Value, Reply-cases, ok}
use hellnet_lib_database.Repository.Clause.{
  Specification, validate_identifier, clause_collision, paging_at,
}
use hellnet_lib_database.Repository.Columns.{
  ElemType, ColField, Entity, fields_of, entity_values, resolve_columns, name_at,
}
use hellnet_lib_database.Repository.Columns.Resolve.{names, resolve_columns-names}
use hellnet_lib_database.Repository.Statements.{
  assignments, names_at, values_at, upsert_statement, update_statement, insert_sql, on_conflict,
  some_columns,
}

name_at-get :
    (fs : List ColField) (i : ℕ) (c : Text) → get_elem? (names fs) i ≡ some c → name_at fs i ≡ c
name_at-get [] i c h = cc
name_at-get (f ∷ fs) zero c h = cc
name_at-get (f ∷ fs) (suc i) c h = name_at-get fs i c h

names_at-cols :
    (fs : List ColField) (is : List ℕ) (cols : List Text)
    → map (get_elem? (names fs)) is ≡ map some cols
    → names_at fs is ≡ cols
names_at-cols fs [] [] h = refl
names_at-cols fs [] (c ∷ cs) h = cc
names_at-cols fs (i ∷ is) [] h = cc
names_at-cols fs (i ∷ is) (c ∷ cs) h = cc (name_at-get fs i c (cc h), names_at-cols fs is cs (cc h))

-- The placeholders after `$n` stand, in order, for `vals`: `$(n + 1)` is `args[n]`.
abbrev pub Bound : List Value → ℕ → List Value → Type 0
Bound args n [] = Unit {0}
Bound args n (v ∷ vs) = (get_elem? args n ≡ some v) × Bound args (suc n) vs

Bound-append : (pre vs : List Value) → Bound (pre ++ vs) (length pre) vs
Bound-append pre [] = tt
Bound-append pre (v ∷ vs) = (
  get_elem?-middle pre vs v,
  let e : (pre ++ v ∷ []) ++ vs ≡ pre ++ (v ∷ vs) = append_assoc pre (v ∷ []) vs in
      let l : length (pre ++ v ∷ []) ≡ suc (length pre) =
        omega (arith, length-append {0} pre (v ∷ [])) in
      subst₂ (λ a n. Bound a n vs) e l (Bound-append (pre ++ v ∷ []) vs),
)

-- the arguments of a prefix keep their numbers
Bound-prefix : (pre xs rest : List Value) → Bound (pre ++ (xs ++ rest)) (length pre) xs
Bound-prefix pre [] rest = tt
Bound-prefix pre (x ∷ xs) rest = (
  get_elem?-middle pre (xs ++ rest) x,
  let e : (pre ++ x ∷ []) ++ (xs ++ rest) ≡ pre ++ (x ∷ (xs ++ rest)) =
        append_assoc pre (x ∷ []) (xs ++ rest) in
      let l : length (pre ++ x ∷ []) ≡ suc (length pre) =
        omega (arith, length-append {0} pre (x ∷ [])) in
      subst₂ (λ a n. Bound a n xs) e l (Bound-prefix (pre ++ x ∷ []) xs rest),
)

abbrev pub update_sql : Text → List Text → Specification → Text
update_sql table cols spec =
    codes "UPDATE "
    ++ (table
        ++ (codes " SET "
            ++ (join (assignments (length spec.args + 1) cols) (codes ", ")
                ++ (codes " WHERE (" ++ (spec.sql ++ codes ")")))))

-- A built UPDATE sets the requested columns, in their order, to placeholders that number on from
-- the arguments of the condition. The condition's arguments keep their numbers, and every new
-- placeholder stands for the value that the entity has for its column.
pub update_statement-Bound :
    (table : Text) (t : ElemType) (entity : Entity) (cols : List Text) (spec : Specification)
    (sql : Text) (args : List Value)
    → update_statement table t entity cols spec ≡ ok (sql, args)
    → (is : List ℕ) × (vals : List Value) × (resolve_columns (codes "set") t cols ≡ ok is)
      × (entity_values t entity ≡ ok vals)
      × (sql ≡ update_sql table cols spec)
      × Bound args 0 spec.args
      × Bound args (length spec.args) (values_at vals is)
unfolding update_statement
update_statement-Bound table t entity cols spec sql args h =
    elim (Option-cases (validate_identifier table)) [
      | inr (e, a) ↦ let h' = rw (a, update_statement) at h in cc h'
      | inl a ↦ elim (Bool-cases (is_empty spec.order_by)) [
        | inr b ↦ let h' = rw (a, b, update_statement) at h in cc h'
        | inl b ↦ elim (Option-cases (clause_collision spec.sql paging_at)) [
          | inr (f, c) ↦ let h' = rw (a, b, c, update_statement) at h in cc h'
          | inl c ↦ elim (Reply-cases (resolve_columns (codes "set") t cols)) [
            | inr (e, d) ↦ let h' = rw (a, b, c, d, update_statement) at h in cc h'
            | inl (is, d) ↦ elim (Reply-cases (entity_values t entity)) [
              | inr (e, v) ↦ let h' = rw (a, b, c, d, v, update_statement) at h in cc h'
              | inl (vals, v) ↦
                  let (_, _, n) = resolve_columns-names (codes "set") t cols is d in
                  let named = names_at-cols (fields_of t) is cols n in
                  let h' : ok (update_sql table cols spec, spec.args ++ values_at vals is)
                      ≡ ok (sql, args) =
                    rw (a, b, c, d, v, named, update_statement) at h in
                  let e : args ≡ spec.args ++ values_at vals is = cc h' in
                  (
                    is,
                    vals,
                    d,
                    v,
                    cc h',
                    rw e (Bound-prefix [] spec.args (values_at vals is)),
                    rw e (Bound-append spec.args (values_at vals is)),
                  )
            ]
          ]
        ]
      ]
    ]

some_columns-eq : (t : ElemType) (fs gs : List ColField) → some_columns t fs ≡ ok gs → fs ≡ gs
some_columns-eq t [] gs h = cc
some_columns-eq t (f ∷ fs) gs h = cc

-- What an upsert that updates on conflict sends: the INSERT of every mapped column, the conflict
-- columns as its target, and the assignments numbered behind the inserted values.
abbrev pub upsert_sql : Text → ElemType → ℕ → List Text → List Text → Text
upsert_sql table t count conflict_cols update_cols =
    (insert_sql table (fields_of t) count ++ on_conflict conflict_cols)
    ++ (codes "UPDATE SET " ++ join (assignments (count + 1) update_cols) (codes ", "))

-- A built upsert inserts the entity's values under `$1`, `$2`, …, and each placeholder of its
-- assignments stands for the value that the entity has for the assigned column.
pub upsert_statement-Bound :
    (table : Text) (t : ElemType) (entity : Entity) (conflict_cols update_cols : List Text)
    (sql : Text) (args : List Value)
    → upsert_statement table t entity conflict_cols update_cols false ≡ ok (sql, args)
    → (is : List ℕ) × (vals : List Value) × (resolve_columns (codes "update") t update_cols ≡ ok is)
      × (entity_values t entity ≡ ok vals)
      × (sql ≡ upsert_sql table t (length vals) conflict_cols update_cols)
      × Bound args 0 vals
      × Bound args (length vals) (values_at vals is)
unfolding upsert_statement
upsert_statement-Bound table t entity conflict_cols update_cols sql args h =
    elim (Option-cases (validate_identifier table)) [
      | inr (e, a) ↦ let h' = rw (a, upsert_statement) at h in cc h'
      | inl a ↦ elim (Reply-cases (some_columns t (fields_of t))) [
        | inr (e, b) ↦ let h' = rw (a, b, upsert_statement) at h in cc h'
        | inl (fs, b) ↦ elim (Reply-cases (resolve_columns (codes "conflict") t conflict_cols)) [
          | inr (e, c) ↦ let h' = rw (a, b, c, upsert_statement) at h in cc h'
          | inl (cs, c) ↦ elim (Reply-cases (entity_values t entity)) [
            | inr (e, v) ↦ let h' = rw (a, b, c, v, upsert_statement) at h in cc h'
            | inl (vals, v) ↦ elim (Reply-cases (resolve_columns (codes "update") t update_cols)) [
              | inr (e, d) ↦ let h' = rw (a, b, c, v, d, upsert_statement) at h in cc h'
              | inl (is, d) ↦
                  let fields = some_columns-eq t (fields_of t) fs b in
                  let (_, _, m) = resolve_columns-names (codes "conflict") t conflict_cols cs c in
                  let (_, _, n) = resolve_columns-names (codes "update") t update_cols is d in
                  let target = names_at-cols (fields_of t) cs conflict_cols m in
                  let named = names_at-cols (fields_of t) is update_cols n in
                  let h' : ok (
                    upsert_sql table t (length vals) conflict_cols update_cols,
                    vals ++ values_at vals is,
                  )
                      ≡ ok (sql, args) =
                    rw (a, b, c, v, d, ← fields, target, named, upsert_statement) at h in
                  let e : args ≡ vals ++ values_at vals is = cc h' in
                  (
                    is,
                    vals,
                    d,
                    v,
                    cc h',
                    rw e (Bound-prefix [] vals (values_at vals is)),
                    rw e (Bound-append vals (values_at vals is)),
                  )
            ]
          ]
        ]
      ]
    ]
