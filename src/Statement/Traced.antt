-- ===== src/Statement/Traced.antt =====
-- What the names that a statement is traced by can hold, and the attributes of its span:
-- TraceQueryStart and TraceQueryEnd of database/pgx_tracer.go.
pub mod Harmless
use hellnet_lib_database.Prelude.{
  ℕ, ◌≡◌, refl, inl, inr, Bool, true, false, ◌||◌, String, Option, none, some, List, [], ◌∷◌, ◌++◌,
  map, all, ◌==◌, Bool-cases, arith, if◌then◌else◌,
}
use hellnet_lib_database.Prelude.Int.{ℤ}
use hellnet_lib_database.Text.{Text, codes, text_eq, is_empty, is_upper, is_word, to_upper}
use hellnet_lib_database.Errors.{Err}
use hellnet_lib_database.Options.{Options}
use hellnet_lib_database.Statement.{blank_nested}
use hellnet_lib_database.Statement.Name.{
  take_while, is_letter, first_word, Matcher, and_then, or_else, is_table_char, nonempty,
  after_keyword, after_keywords, table_name, table_only, insert_table, update_table, delete_table,
  from_table, select_table, table_for, or_empty, named, operation_of, named_main, statement_name,
  span_name_for, main_dml, blank_literals, strip_leading_comments,
}

-- the attributes of a statement's span
pub data Attribute : Type 0 where
  system_name operation_name namespace server_address collection_name query_text : Text → Attribute
  server_port : ℤ → Attribute

abbrev pub collection : Text → List Attribute
collection table = if is_empty table then [] else collection_name table ∷ []

abbrev text_of : Bool → Text → List Attribute
text_of true sql = []
text_of false sql = query_text sql ∷ []

abbrev pub traced_as : Options → Text → Text × Text → Option (String × List Attribute)
traced_as o sql (operation, table) =
    if text_eq operation (codes "LISTEN") || text_eq operation (codes "UNLISTEN")
    then none
    else some (
      span_name_for operation,
      (system_name (codes "postgresql")
            ∷ operation_name (if is_empty operation then codes "query" else operation)
            ∷ namespace o.database
            ∷ server_address o.host
            ∷ server_port o.port
            ∷ [])
          ++ (collection table ++ text_of o.hide_query_args sql),
    )

-- TraceQueryStart: the name and the attributes of the span that it starts, if it starts one
unfoldable pub trace_query_start : Options → Text → Option (String × List Attribute)
unfolding statement_name span_name_for text_eq codes
trace_query_start o sql = traced_as o sql (statement_name sql)

-- what TraceQueryEnd calls on the span that its context holds, if it holds one
pub data SpanCall : Type 0 where
  record_error set_error : Err → SpanCall
  end_span : SpanCall

unfoldable pub trace_query_end : Bool → Option Err → List SpanCall
trace_query_end false e = []
trace_query_end true none = end_span ∷ []
trace_query_end true (some e) = record_error e ∷ set_error e ∷ end_span ∷ []

take_while-all : (p : ℕ → Bool) (s : Text) → all p (take_while p s) ≡ true
unfolding take_while
take_while-all p [] = refl
take_while-all p (c ∷ s) = elim (Bool-cases (p c)) [
  | inl y ↦ rw y (rw y (take_while-all p s))
  | inr f ↦ rw f refl
]

upper_letters : (s : Text) → all is_letter s ≡ true → all is_upper (map to_upper s) ≡ true
unfolding to_upper
upper_letters [] h = refl
upper_letters (c ∷ s) h = ground (arith, upper_letters s)

-- a table name, where there is one, is made of letters, digits, _ and .
abbrev IsPlain : Option Text → Type 0
IsPlain o = all is_table_char (or_empty o) ≡ true

nonempty-IsPlain : (s : Text) → all is_table_char s ≡ true → IsPlain (nonempty s)
nonempty-IsPlain [] h = refl
nonempty-IsPlain (c ∷ s) h = h

and_then-IsPlain :
    (o : Option Text) (f : Matcher) → ((s : Text) → IsPlain (f s)) → IsPlain (and_then o f)
and_then-IsPlain none f h = refl
and_then-IsPlain (some s) f h = h s

or_else-IsPlain : (a b : Option Text) → IsPlain a → IsPlain b → IsPlain (or_else a b)
or_else-IsPlain none b h k = k
or_else-IsPlain (some s) b h k = h

table_name-IsPlain : (s : Text) → IsPlain (table_name s)
unfolding table_name
table_name-IsPlain [] = refl
table_name-IsPlain (c ∷ s) = elim (Bool-cases (c == b'"')) [
  | inl y ↦ rw y (nonempty-IsPlain (take_while is_table_char s) (take_while-all is_table_char s))
  | inr f ↦
      rw f
        (nonempty-IsPlain (take_while is_table_char (c ∷ s)) (take_while-all is_table_char (c ∷ s)))
]

table_only-IsPlain : (s : Text) → IsPlain (table_only s)
unfolding table_only
table_only-IsPlain s =
    let only = after_keyword (codes "only") s in
    or_else-IsPlain (and_then only table_name) (table_name s)
      (and_then-IsPlain only table_name table_name-IsPlain) (table_name-IsPlain s)

select_table-IsPlain : (in_word : Bool) (s : Text) → IsPlain (select_table in_word s)
unfolding select_table
select_table-IsPlain in_word [] = refl
select_table-IsPlain true (c ∷ s) = select_table-IsPlain (is_word c) s
select_table-IsPlain false (c ∷ s) =
    or_else-IsPlain (from_table (c ∷ s)) _
      (and_then-IsPlain (after_keyword (codes "from") (c ∷ s)) table_only table_only-IsPlain)
      (select_table-IsPlain (is_word c) s)

insert_table-IsPlain : (s : Text) → IsPlain (insert_table s)
unfolding insert_table
insert_table-IsPlain s =
    and_then-IsPlain (after_keywords (codes "insert") (codes "into") s) table_name
      table_name-IsPlain

update_table-IsPlain : (s : Text) → IsPlain (update_table s)
unfolding update_table
update_table-IsPlain s =
    and_then-IsPlain (after_keyword (codes "update") s) table_only table_only-IsPlain

delete_table-IsPlain : (s : Text) → IsPlain (delete_table s)
unfolding delete_table
delete_table-IsPlain s =
    and_then-IsPlain (after_keywords (codes "delete") (codes "from") s) table_only
      table_only-IsPlain

if-IsPlain : (b : Bool) (x y : Option Text) → IsPlain x → IsPlain y → IsPlain (if b then x else y)
if-IsPlain true x y h k = h
if-IsPlain false x y h k = k

table_for-IsPlain : (operation sql : Text) → IsPlain (table_for operation sql)
unfolding table_for
table_for-IsPlain operation sql =
    if-IsPlain (text_eq operation (codes "INSERT")) (insert_table sql) _ (insert_table-IsPlain sql)
      (if-IsPlain (text_eq operation (codes "UPDATE")) (update_table sql) _
        (update_table-IsPlain sql)
        (if-IsPlain (text_eq operation (codes "DELETE")) (delete_table sql) _
          (delete_table-IsPlain sql)
          (if-IsPlain (text_eq operation (codes "SELECT")) (select_table false sql) none
            (select_table-IsPlain false sql) refl)))

-- an operation of upper-case letters, and a table of letters, digits, _ and .
abbrev pub IsLabel : Text × Text → Type 0
IsLabel r = (all is_upper r.0 ≡ true) × (all is_table_char r.1 ≡ true)

operation_of-upper : (s : Text) → all is_upper (operation_of s) ≡ true
unfolding first_word
operation_of-upper s = upper_letters (take_while is_letter s) (take_while-all is_letter s)

named-IsLabel : (s : Text) → IsLabel (named (operation_of s) s)
named-IsLabel s = (operation_of-upper s, table_for-IsPlain (operation_of s) s)

named_main-IsLabel : (o : Option Text) → IsLabel (named_main o)
unfolding codes
named_main-IsLabel none = (refl, refl)
named_main-IsLabel (some s) = named-IsLabel s

pub statement_name-IsLabel : (sql : Text) → IsLabel (statement_name sql)
unfolding statement_name
statement_name-IsLabel sql =
    let s = strip_leading_comments sql in
    elim (Bool-cases (is_empty (first_word s))) [
      | inl y ↦ rw y (refl, refl)
      | inr f ↦ rw f (elim (Bool-cases (text_eq (operation_of s) (codes "WITH"))) [
        | inl y ↦ rw y (named_main-IsLabel (main_dml false (blank_nested (blank_literals 0 s)) s))
        | inr g ↦ rw g (named-IsLabel s)
      ])
    ]
