-- ===== src/Repository/Columns.antt =====
-- The mapping of a struct's fields to columns, and the resolution of column lists against it. A
-- type is what reflection shows of it. Cached has the caches of the mapping.
pub mod Resolve
pub mod Cached
use hellnet_lib_database.Prelude.{
  ℕ, zero, suc, ◌+◌, ◌==◌, ltb, Bool, true, false, ◌&&◌, ◌||◌, not, Option, none, some, List, [],
  ◌∷◌, ◌++◌, map, any, if◌then◌else◌,
}
use hellnet_lib_database.Text.{
  Text, codes, text_eq, is_empty, is_upper, is_lower, to_lower, join, quote, itoa,
}
use hellnet_lib_database.Errors.{Err, errorf, wrapf, first}
use hellnet_lib_database.World.{Value, Reply, ok, err}
use hellnet_lib_database.Repository.Clause.{validate_identifier, check, ◌>>=◌}

-- reflect.StructField: the `db` tag is `none` when it is absent
pub record StructField : Type 0 where
  pub name : Text
  pub exported : Bool
  pub tag : Option Text

-- the type behind `elemType`: its name, and its fields if it is a struct
pub record ElemType : Type 0 where
  pub type_name : Text
  pub struct_fields : Option (List StructField)

-- a type T, as reflection goes through it: a type with its fields, or a pointer
pub data GoType : Type 0 where
  named : ElemType → GoType
  pointer : GoType → GoType

-- elemType, which goes through one pointer: a pointer to a pointer has no name and no fields
abbrev pub elem_type : GoType → ElemType
elem_type (named e) = e
elem_type (pointer (named e)) = e
elem_type (pointer (pointer t)) = record { type_name = []; struct_fields = none }

-- tableOf
abbrev pub table_of : GoType → Text
table_of t = (elem_type t).type_name

-- colField
pub record ColField : Type 0 where
  pub name : Text
  pub index : ℕ

abbrev starts_lower : Text → Bool
starts_lower [] = false
starts_lower (c ∷ _) = is_lower c

-- whether `_` stands before a capital, by the character before it and the rest of the name
abbrev breaks : Option ℕ → Text → Bool
breaks none rest = false
breaks (some p) rest = not (is_upper p) || starts_lower rest

unfoldable pub snake_from : Option ℕ → Text → Text
unfolding to_lower
snake_from before [] = []
snake_from before (r ∷ s) =
    let rest = snake_from (some r) s in
    if is_upper r
    then if breaks before s then b'_' ∷ to_lower r ∷ rest else to_lower r ∷ rest
    else r ∷ rest

-- snakeCase
unfoldable pub snake_case : Text → Text
unfolding snake_from
snake_case s = snake_from none s

-- strings.Cut(tag, ",")
unfoldable pub before_comma : Text → Text
before_comma [] = []
before_comma (c ∷ s) = let rest = before_comma s in if c == b',' then [] else c ∷ rest

-- the column of an exported field, or `none` for `db:"-"`
unfoldable pub column_name : Text → Option Text → Option Text
unfolding snake_case before_comma
column_name name none = some (snake_case name)
column_name name (some tag) =
    let t = before_comma tag in
    if text_eq t (codes "-") then none else if is_empty t then some (snake_case name) else some t

abbrev cons_column : Option Text → ℕ → List ColField → List ColField
cons_column none i rest = rest
cons_column (some name) i rest = record { name = name; index = i } ∷ rest

-- the loop of fieldsOf from field `i` on
unfoldable pub fields_from : ℕ → List StructField → List ColField
unfolding column_name
fields_from i [] = []
fields_from i (sf ∷ sfs) =
    let rest = fields_from (suc i) sfs in
    if not sf.exported then rest else cons_column (column_name sf.name sf.tag) i rest

-- fieldsOf
unfoldable pub fields_of : ElemType → List ColField
unfolding fields_from
fields_of t = elim t.struct_fields [ none ↦ [] | some sfs ↦ fields_from 0 sfs ]

-- A lookup in positionalFieldMap: of two columns of one name the later one stays in the map.
unfoldable pub slot_from : ℕ → Text → List ColField → Option ℕ
slot_from i c [] = none
slot_from i c (f ∷ fs) = first (slot_from (suc i) c fs) (if text_eq f.name c then some i else none)

unfoldable pub slot : Text → List ColField → Option ℕ
slot c fs = slot_from 0 c fs

-- quotedList
unfoldable pub quoted_list : List Text → Text
unfolding join quote
quoted_list names = join (map quote names) (codes ", ")

-- columnsOf
unfoldable pub columns_of : ElemType → Text
unfolding quoted_list fields_of
columns_of t = quoted_list (map (λ (f : ColField). f.name) (fields_of t))

-- an entity as entityValues finds it: its fields' values, in the order of the struct
pub data Entity : Type 0 where
  nil_pointer not_struct : Entity
  struct_value : List Value → Entity

abbrev pub value_at : List Value → ℕ → Value
value_at [] i = 0
value_at (v ∷ vs) zero = v
value_at (v ∷ vs) (suc i) = value_at vs i

-- entityValues
unfoldable pub entity_values : ElemType → Entity → Reply (List Value)
unfolding fields_of
entity_values t nil_pointer =
    err (errorf "database: nil entity of type %s" ((b'*' ∷ t.type_name) ∷ []))
entity_values t not_struct =
    err (errorf "database: type %T has no db-tagged columns" (t.type_name ∷ []))
entity_values t (struct_value vs) = ok (map (λ (f : ColField). value_at vs f.index) (fields_of t))

-- the loop of validateColumnList, with the names `seen` so far
unfoldable pub column_errors : Text → List Text → List Text → Option Err
column_errors kind seen [] = none
column_errors kind seen (c ∷ cs) =
    let rest = column_errors kind (c ∷ seen) cs in
    elim (validate_identifier c) [
      | some e ↦ some (wrapf "database: invalid %s column: %w" (kind ∷ []) e)
      | none ↦
          if any (text_eq c) seen
          then some (errorf "database: duplicate %s column %q" (kind ∷ c ∷ []))
          else rest
    ]

-- validateColumnList
unfoldable pub validate_column_list : Text → List Text → Option Err
unfolding column_errors
validate_column_list kind [] = some (errorf "database: %s requires at least one column" (kind ∷ []))
validate_column_list kind (c ∷ cs) = column_errors kind [] (c ∷ cs)

unfoldable pub text_lt : Text → Text → Bool
text_lt [] [] = false
text_lt [] (_ ∷ _) = true
text_lt (_ ∷ _) [] = false
text_lt (a ∷ s) (b ∷ t) = ltb a b || (a == b && text_lt s t)

unfoldable pub insert_name : Text → List Text → List Text
unfolding text_lt
insert_name n [] = n ∷ []
insert_name n (m ∷ ms) =
    let rest = insert_name n ms in
    if text_eq n m then m ∷ ms else if text_lt n m then n ∷ m ∷ ms else m ∷ rest

-- fieldNames: the distinct names, sorted
unfoldable pub field_names : List ColField → List Text
unfolding insert_name
field_names [] = []
field_names (f ∷ fs) = insert_name f.name (field_names fs)

-- the loop of resolveColumns
unfoldable pub slots_of : Text → ElemType → List Text → Reply (List ℕ)
slots_of kind t [] = ok []
slots_of kind t (c ∷ cs) =
    let rest = slots_of kind t cs in
    elim (slot c (fields_of t)) [
      | none ↦ err (
          errorf "database: %s column %q is not mapped by %s; known columns: %q"
            (kind ∷ c ∷ t.type_name ∷ field_names (fields_of t)))
      | some i ↦ rest >>= λ is. ok (i ∷ is)
    ]

-- resolveColumns
unfoldable pub resolve_columns : Text → ElemType → List Text → Reply (List ℕ)
resolve_columns kind t cols = check (validate_column_list kind cols) (slots_of kind t cols)

abbrev pub name_at : List ColField → ℕ → Text
name_at [] i = []
name_at (f ∷ fs) zero = f.name
name_at (f ∷ fs) (suc i) = name_at fs i

-- the placeholders `$from`, `$(from + 1)`, … of placeholderRange
unfoldable pub placeholders : ℕ → ℕ → List Text
placeholders from zero = []
placeholders from (suc count) = (b'$' ∷ itoa from) ∷ placeholders (suc from) count

-- placeholderRange
unfoldable pub placeholder_range : ℕ → ℕ → Text
unfolding placeholders
placeholder_range from count = join (placeholders from count) (codes ", ")
