-- ===== src/Database/Rounds/Requests.antt =====
-- The operations of Repository from their arguments to the statements that the server is sent.
use hellnet_lib_database.Prelude.{
  ◌≡◌, refl, ◌⊎◌, inl, inr, false, Option, some, List, [], length, ℕ, ◌+◌, arith,
}
use hellnet_lib_database.Prelude.Int.{ℤ, pos}
use hellnet_lib_database.Text.{Text, codes}
use hellnet_lib_database.Errors.{Err}
use hellnet_lib_database.World.{
  Value, op_query, op_exec, Reply, ok, err, Reply-cases, Env, World, Outcome, ret,
}
use hellnet_lib_database.Core.{attached, Mapper}
use hellnet_lib_database.Core.Observed.{query_count, exec_count, query_sent, exec_sent}
use hellnet_lib_database.Repository.Clause.{Specification, page_sql}
use hellnet_lib_database.Repository.Clause.Safe.{Extends, page_sql-Extends}
use hellnet_lib_database.Repository.Columns.{
  ElemType, Entity, fields_of, entity_values, resolve_columns,
}
use hellnet_lib_database.Repository.Statements.{update_statement, upsert_statement}
use hellnet_lib_database.Repository.Statements.Arguments.{
  Bound, update_sql, upsert_sql, update_statement-Bound, upsert_statement-Bound,
}
use hellnet_lib_database.Repository.Statements.Numbered.{
  Numbered, Assigned, placeholders-Numbered, assignments-Assigned, update_text, upsert_text,
  upsert_sql-upsert_text,
}
use hellnet_lib_database.Repository.Columns.Resolve.{names, resolve_columns-names}
use hellnet_lib_database.Database.{Db, Span, db_query, db_execute}
use hellnet_lib_database.Database.Repositories.{Repository, find, update, upsert}
use hellnet_lib_database.Database.Rounds.Operations.{Ran, operations-Ran}

-- The statement could not be built: its error was returned, and nothing was done.
abbrev pub Declined :
    {A B : Type 0} → Reply B → A → World → Outcome (A × Option Err) × World → Type 0
Declined built zero_value w r = (e : Err) × (built ≡ err e) × (r ≡ (ret (zero_value, some e), w))

-- from `w` on, the statement was run on the DB in rounds that its policy allows
abbrev pub Queried :
    {T : Type 0} → Db → World → Text → List Value → Outcome (List T × Option Err) × World → Type 0
Queried db w sql args r =
    Ran db op_query sql args (query_sent db.conn.ctx db.conn sql args) query_count w r

abbrev pub Executed : Db → World → Text → List Value → Outcome (ℤ × Option Err) × World → Type 0
Executed db w sql args r =
    Ran db op_exec sql args (exec_sent db.conn.ctx db.conn sql args) exec_count w r

module _ (env : Env) (span : Span) {T : Type 0} (mapper : Mapper T) (repo : Repository)
    (logged : repo.db.conn.obs ≡ attached) (t : ElemType) (w : World)
    (untraced : repo.db.conn.ops ≡ false) where
  ran_query :
      (sql : Text) (args : List Value)
      → Queried repo.db w sql args (db_query env span mapper repo.db sql args w)
  ran_query sql args = (operations-Ran env span mapper repo.db logged sql args w untraced).1

  ran_execute :
      (sql : Text) (args : List Value)
      → Executed repo.db w sql args (db_execute env span repo.db sql args w)
  ran_execute sql args = (operations-Ran env span mapper repo.db logged sql args w untraced).0

  -- On a DB with its logger and no telemetry client: Find returns the error of building its statement, with
  -- nothing done, or queries, once for each attempt of its policy, the SQL of the specification with a
  -- suffix of letters, digits, `_`, `.`, `,` and white space, and with the arguments of the specification.
  pub find-Sends :
      (spec : Specification)
      → let r = find env span mapper t repo spec w in
        Declined (page_sql spec (pos 1) (pos 0)) [] w r
        ⊎ ((sql : Text) × Extends sql spec.sql × Queried repo.db w sql spec.args r)
  unfolding find
  find-Sends spec = elim (Reply-cases (page_sql spec (pos 1) (pos 0))) [
    | inr (e, h) ↦ rw h (inl (e, refl, refl))
    | inl (sql, h) ↦
        rw h (inr (sql, page_sql-Extends spec (pos 1) (pos 0) sql h, ran_query sql spec.args))
  ]

  -- On a DB with its logger and no telemetry client: Update returns the error of building its statement, with
  -- nothing done, or executes, once for each attempt of its policy, an UPDATE that sets the requested columns,
  -- in their order, to the placeholders behind those of the condition, one after the other. The condition's
  -- arguments keep their numbers, and every new placeholder stands for the value that the entity has for
  -- the field with the name of its column.
  pub update-Sends :
      (entity : Entity) (cols : List Text) (spec : Specification)
      → let r = update env span mapper t repo entity cols spec w in
        Declined (update_statement repo.table t entity cols spec) (pos 0) w r
        ⊎ ((args : List Value) × (is : List ℕ) × (vals : List Value) × (resolve_columns
                (codes "set")
                t
                cols
              ≡ ok is)
            × (entity_values t entity ≡ ok vals)
            × Bound args 0 spec.args
            × (sets : List Text) × Assigned
                (names (fields_of t))
                vals
                args
                (length spec.args)
                cols
                sets
            × Executed repo.db w (update_text repo.table sets spec) args r)
  unfolding update
  update-Sends entity cols spec =
      elim (Reply-cases (update_statement repo.table t entity cols spec)) [
        | inr (e, h) ↦ rw h (inl (e, refl, refl))
        | inl ((sql, args), h) ↦
            let (is, vals, a, b, c, d, e) =
              update_statement-Bound repo.table t entity cols spec sql args h in
            let (_, _, named) = resolve_columns-names (codes "set") t cols is a in
            let n = length spec.args in
            let sets =
              assignments-Assigned (names (fields_of t)) vals args n (n + 1) is cols (omega arith)
                named e in
            rw (h, c)
              (inr (
                args,
                is,
                vals,
                a,
                b,
                d,
                _,
                sets,
                ran_execute (update_sql repo.table cols spec) args,
              ))
      ]

  -- On a DB with its logger and no telemetry client: Upsert returns the error of building its statement, with
  -- nothing done, or executes, once for each attempt of its policy, an INSERT of the entity's values under `$1`,
  -- `$2`, … that on conflict of the conflict columns assigns to the given columns, in their order, the
  -- placeholders behind these, one after the other, each of which stands for the value that the entity has
  -- for the field with the name of its column.
  pub upsert-Sends :
      (entity : Entity) (conflict_cols cols : List Text)
      → let r = upsert env span mapper t repo entity conflict_cols cols w in
        Declined (upsert_statement repo.table t entity conflict_cols cols false) (pos 0) w r
        ⊎ ((args : List Value) × (is : List ℕ) × (vals : List Value) × (resolve_columns
                (codes "update")
                t
                cols
              ≡ ok is)
            × (entity_values t entity ≡ ok vals)
            × (ps : List Text) × Numbered args 0 vals ps
            × (sets : List Text) × Assigned (names (fields_of t)) vals args (length vals) cols sets
            × Executed repo.db w (upsert_text repo.table t ps conflict_cols sets) args r)
  unfolding upsert
  upsert-Sends entity conflict_cols cols =
      elim (Reply-cases (upsert_statement repo.table t entity conflict_cols cols false)) [
        | inr (e, h) ↦ rw h (inl (e, refl, refl))
        | inl ((sql, args), h) ↦
            let (is, vals, a, b, c, d, e) =
              upsert_statement-Bound repo.table t entity conflict_cols cols sql args h in
            let (_, _, named) = resolve_columns-names (codes "update") t cols is a in
            let n = length vals in
            let sets =
              assignments-Assigned (names (fields_of t)) vals args n (n + 1) is cols (omega arith)
                named e in
            rw (h, c)
              (inr (
                args,
                is,
                vals,
                a,
                b,
                _,
                placeholders-Numbered args 0 vals d,
                _,
                sets,
                rw (← upsert_sql-upsert_text repo.table t (length vals) conflict_cols cols)
                    (ran_execute (upsert_sql repo.table t (length vals) conflict_cols cols) args),
              ))
      ]
