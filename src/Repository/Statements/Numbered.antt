-- ===== src/Repository/Statements/Numbered.antt =====
-- The placeholders of a built statement, one by one, with the arguments that they stand for.
use hellnet_lib_database.Prelude.{
  ℕ, suc, ◌+◌, ◌≡◌, refl, some, List, [], ◌∷◌, ◌++◌, map, length, get_elem?, arith,
}
use hellnet_lib_database.Text.{Text, codes, join, itoa, quote}
use hellnet_lib_database.World.{Value}
use hellnet_lib_database.Repository.Clause.{Specification}
use hellnet_lib_database.Repository.Columns.{
  ElemType, fields_of, value_at, placeholders, placeholder_range, quoted_list,
}
use hellnet_lib_database.Repository.Columns.Resolve.{names}
use hellnet_lib_database.Repository.Statements.{assignments, values_at, insert_sql}
use hellnet_lib_database.Repository.Statements.Arguments.{Bound, update_sql, upsert_sql}

-- `Numbered args n vs ps`: the texts `ps` are the placeholders behind `$n`, in order, and stand for the values `vs`,
-- as `$(n + 1)` stands for `args[n]`
pub data Numbered (args : List Value) : ℕ → List Value → List Text → Type 0 where
  no_more : {n : ℕ} → Numbered args n [] []
  numbered :
      {n : ℕ} {v : Value} {vs : List Value} {ps : List Text}
      → get_elem? args n ≡ some v
      → Numbered args (suc n) vs ps
      → Numbered args n (v ∷ vs) ((b'$' ∷ itoa (suc n)) ∷ ps)

-- `Assigned fields vals args n cols sets`: the texts `sets` assign to the columns `cols`, in order, the placeholders
-- behind `$n`, and each of these stands for the value in `vals` of the field that has the name of the column
pub data Assigned (fields : List Text) (vals args : List Value)
    : ℕ → List Text → List Text → Type 0 where
  none_left : {n : ℕ} → Assigned fields vals args n [] []
  assigned :
      {n : ℕ} {c : Text} {cs sets : List Text} (i : ℕ)
      → get_elem? fields i ≡ some c
      → get_elem? args n ≡ some (value_at vals i)
      → Assigned fields vals args (suc n) cs sets
      → Assigned fields vals args n (c ∷ cs) ((quote c ++ (codes " = $" ++ itoa (suc n))) ∷ sets)

pub placeholders-Numbered :
    (args : List Value) (n : ℕ) (vs : List Value)
    → Bound args n vs
    → Numbered args n vs (placeholders (suc n) (length vs))
unfolding placeholders
placeholders-Numbered args n [] b = Numbered.no_more
placeholders-Numbered args n (v ∷ vs) b =
    Numbered.numbered b.0 (placeholders-Numbered args (suc n) vs b.1)

pub assignments-Assigned :
    (fields : List Text) (vals args : List Value) (n k : ℕ) (is : List ℕ) (cols : List Text)
    → k ≡ suc n
    → map (get_elem? fields) is ≡ map some cols
    → Bound args n (values_at vals is)
    → Assigned fields vals args n cols (assignments k cols)
unfolding assignments
assignments-Assigned fields vals args n k [] [] e h b = Assigned.none_left
assignments-Assigned fields vals args n k [] (c ∷ cols) e h b = absurd (cc h)
assignments-Assigned fields vals args n k (i ∷ is) [] e h b = absurd (cc h)
assignments-Assigned fields vals args n k (i ∷ is) (c ∷ cols) e h b =
    let rest =
      assignments-Assigned fields vals args (suc n) (suc k) is cols (omega (arith, e)) (cc h) b.1 in
    rw e (Assigned.assigned i (cc h) b.0 (rw e at rest))

-- the UPDATE with the assignments `sets`
abbrev pub update_text : Text → List Text → Specification → Text
update_text table sets spec =
    codes "UPDATE "
    ++ (table
        ++ (codes " SET "
            ++ (join sets (codes ", ") ++ (codes " WHERE (" ++ (spec.sql ++ codes ")")))))

-- the INSERT of all the fields by the placeholders `ps`, which on conflict assigns `sets`
abbrev pub upsert_text : Text → ElemType → List Text → List Text → List Text → Text
upsert_text table t ps conflict_cols sets =
    (codes "INSERT INTO "
      ++ (table
          ++ (codes " ("
              ++ (join (map quote (names (fields_of t))) (codes ", ")
                  ++ (codes ") VALUES (" ++ (join ps (codes ", ") ++ codes ")")))))
      ++ (codes " ON CONFLICT (" ++ (join (map quote conflict_cols) (codes ", ") ++ codes ") DO ")))
    ++ (codes "UPDATE SET " ++ join sets (codes ", "))

pub update_sql-update_text :
    (table : Text) (cols : List Text) (spec : Specification)
    → update_sql table cols spec ≡ update_text table (assignments (length spec.args + 1) cols) spec
update_sql-update_text table cols spec = refl

pub upsert_sql-upsert_text :
    (table : Text) (t : ElemType) (count : ℕ) (conflict_cols cols : List Text)
    → upsert_sql table t count conflict_cols cols
      ≡ upsert_text table t (placeholders 1 count) conflict_cols (assignments (count + 1) cols)
unfolding insert_sql quoted_list placeholder_range
upsert_sql-upsert_text table t count conflict_cols cols = refl
