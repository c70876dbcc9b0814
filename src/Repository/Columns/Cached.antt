-- ===== src/Repository/Columns/Cached.antt =====
-- fieldsOf and columnsOf with their caches, structFieldsCache and structColumnsCache, as calls of many
-- goroutines: a step is one Load or Store of a sync.Map, or the code between two of them, and a schedule says
-- whose step is next. A type is named by its reflect.Type, and `type_of` says what reflection shows of it.
pub mod Interleaved
use hellnet_lib_database.Prelude.{
  ℕ, suc, ◌-◌, ◌≤◌, ◌≡◌, refl, ap, ◌∙◌, ◌==◌, ==_iff, Option, none, some, List, [], ◌∷◌, map, arith,
  Bool-cases, inl, inr, if◌then◌else◌, Option-cases,
}
use hellnet_lib_database.Text.{Text}
use hellnet_lib_database.Repository.Columns.{ElemType, ColField, fields_of, quoted_list, columns_of}

-- the two caches
pub record Caches : Type 0 where
  pub columns : ℕ → Option Text
  pub fields : ℕ → Option (List ColField)

abbrev pub empty : Caches
empty = record { columns = λ _. none; fields = λ _. none }

abbrev pub store_fields : ℕ → List ColField → Caches → Caches
store_fields k fs c = record c { fields = λ q. if q == k then some fs else c.fields q }

abbrev pub store_columns : ℕ → Text → Caches → Caches
store_columns k s c = record c { columns = λ q. if q == k then some s else c.columns q }

-- where a call of fieldsOf stands: before its Load, before its Store, at its end
pub data FieldsCall : Type 0 where
  load : FieldsCall
  store loaded : List ColField → FieldsCall

-- where a call of columnsOf stands: before its Load, in the fieldsOf that sizes its slice, in the one that it
-- loops over, before its Store, at its end
pub data ColumnsCall : Type 0 where
  start : ℕ → ColumnsCall
  sizing looping : ℕ → FieldsCall → ColumnsCall
  joined done : ℕ → Text → ColumnsCall

abbrev within : (FieldsCall → ColumnsCall) → FieldsCall × Caches → ColumnsCall × Caches
within f (call, c) = (f call, c)

-- the goroutines, each with its call, and what they share
pub record System : Type 0 where
  pub calls : ℕ → ColumnsCall
  pub caches : Caches

abbrev pub begun : (ℕ → ℕ) → System
begun types = record { calls = λ i. start (types i); caches = empty }

abbrev pub moved : ℕ → System → ColumnsCall × Caches → System
moved i s (call, c) = record { calls = λ j. if j == i then call else s.calls j; caches = c }

module _ (type_of : ℕ → ElemType) where
  -- fieldsOf
  unfoldable pub fields_step : ℕ → FieldsCall → Caches → FieldsCall × Caches
  fields_step k load c = elim (c.fields k) [
    | some fs ↦ (loaded fs, c)
    | none ↦ (store (fields_of (type_of k)), c)
  ]
  fields_step k (store fs) c = (loaded fs, store_fields k fs c)
  fields_step k (loaded fs) c = (loaded fs, c)

  -- columnsOf
  unfoldable pub columns_step : ColumnsCall → Caches → ColumnsCall × Caches
  unfolding fields_step
  columns_step (start k) c = elim (c.columns k) [
    | some s ↦ (done k s, c)
    | none ↦ (sizing k load, c)
  ]
  columns_step (sizing k (loaded fs)) c = (looping k load, c)
  columns_step (sizing k load) c = within (sizing k) (fields_step k load c)
  columns_step (sizing k (store fs)) c = within (sizing k) (fields_step k (store fs) c)
  columns_step (looping k (loaded fs)) c =
      (joined k (quoted_list (map (λ (f : ColField). f.name) fs)), c)
  columns_step (looping k load) c = within (looping k) (fields_step k load c)
  columns_step (looping k (store fs)) c = within (looping k) (fields_step k (store fs) c)
  columns_step (joined k s) c = (done k s, store_columns k s c)
  columns_step (done k s) c = (done k s, c)

  unfoldable pub run : List ℕ → System → System
  unfolding columns_step
  run [] s = s
  run (i ∷ schedule) s = run schedule (moved i s (columns_step (s.calls i) s.caches))
