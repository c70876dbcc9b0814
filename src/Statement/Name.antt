-- ===== src/Statement/Name.antt =====
-- database/statement.go: statementName with its regular expressions, and spanNameFor; and the attributes that
-- TraceQueryStart of database/pgx_tracer.go gives to the span of a statement.
use hellnet_lib_database.Prelude.{
  ℕ, zero, suc, Bool, true, false, ◌&&◌, ◌||◌, not, String, Option, none, some, [], ◌∷◌, map, any,
  length, ◌==◌, if◌then◌else◌,
}
use hellnet_lib_database.Text.{
  Text, codes, text_eq, is_empty, is_upper, is_lower, is_word, is_re_space, to_lower, to_upper,
}
use hellnet_lib_database.Statement.{strip_from, blank_nested}

unfoldable pub take_while : (ℕ → Bool) → Text → Text
take_while p [] = []
take_while p (c ∷ s) = let rest = take_while p s in if p c then c ∷ rest else []

unfoldable pub drop_while : (ℕ → Bool) → Text → Text
drop_while p [] = []
drop_while p (c ∷ s) = if p c then drop_while p s else c ∷ s

-- stripLeadingComments
abbrev pub strip_leading_comments : Text → Text
strip_leading_comments s = strip_from (suc (length s)) s

-- firstWord: `^[A-Za-z]+`, empty where it does not match
abbrev pub is_letter : ℕ → Bool
is_letter c = is_upper c || is_lower c

unfoldable pub first_word : Text → Text
unfolding take_while
first_word s = take_while is_letter s

-- matchers: what follows the part of a text that a pattern matches at its start
abbrev pub Matcher : Type 0
Matcher = Text → Option Text

abbrev pub and_then : Option Text → Matcher → Option Text
and_then none f = none
and_then (some s) f = f s

abbrev pub or_else : Option Text → Option Text → Option Text
or_else none b = b
or_else (some s) b = some s

-- a word in lower case, with `(?i)`
unfoldable pub word : Text → Matcher
word [] s = some s
word (p ∷ ps) [] = none
word (p ∷ ps) (c ∷ s) = if to_lower c == p then word ps s else none

-- `\s+`
unfoldable pub some_spaces : Matcher
unfolding drop_while
some_spaces [] = none
some_spaces (c ∷ s) = if is_re_space c then some (drop_while is_re_space s) else none

-- `("?[\w.]+"?)`: the name of the table, without its quotes
abbrev pub is_table_char : ℕ → Bool
is_table_char c = is_word c || c == b'.'

abbrev pub nonempty : Text → Option Text
nonempty [] = none
nonempty (c ∷ s) = some (c ∷ s)

unfoldable pub table_name : Text → Option Text
unfolding take_while
table_name [] = none
table_name (c ∷ s) =
    if c == b'"'
    then nonempty (take_while is_table_char s)
    else nonempty (take_while is_table_char (c ∷ s))

-- the keywords in front of a table, with the white space behind them
abbrev pub after_keyword : Text → Text → Option Text
after_keyword keyword s = and_then (word keyword s) some_spaces

abbrev pub after_keywords : Text → Text → Text → Option Text
after_keywords first second s = and_then (after_keyword first s) (after_keyword second)

-- `(?:only\s+)?("?[\w.]+"?)`
unfoldable pub table_only : Text → Option Text
unfolding word some_spaces table_name codes
table_only s = or_else (and_then (after_keyword (codes "only") s) table_name) (table_name s)

-- insertTable, updateTable and deleteTable
unfoldable pub insert_table : Text → Option Text
unfolding word some_spaces table_name codes
insert_table s = and_then (after_keywords (codes "insert") (codes "into") s) table_name

unfoldable pub update_table : Text → Option Text
unfolding word some_spaces table_only codes
update_table s = and_then (after_keyword (codes "update") s) table_only

unfoldable pub delete_table : Text → Option Text
unfolding word some_spaces table_only codes
delete_table s = and_then (after_keywords (codes "delete") (codes "from") s) table_only

-- selectTable, which may match behind any character that ends no word
abbrev pub from_table : Text → Option Text
from_table s = and_then (after_keyword (codes "from") s) table_only

unfoldable pub select_table : Bool → Text → Option Text
unfolding word some_spaces table_only codes
select_table in_word [] = none
select_table in_word (c ∷ s) =
    let rest = select_table (is_word c) s in
    if in_word then rest else or_else (from_table (c ∷ s)) rest

-- literal: the length of the rest of a quoted text, with its closing quote
unfoldable pub literal : Text → Option ℕ
literal [] = none
literal (c ∷ []) = if c == b'\'' then some 1 else none
literal (c ∷ d ∷ s) =
    let next = literal (d ∷ s) in
    let behind = literal s in
    if not (c == b'\'')
    then elim next [ none ↦ none | some k ↦ some (suc k) ]
    else if d == b'\''
    then elim behind [ none ↦ some 1 | some k ↦ some (suc (suc k)) ]
    else some 1

-- the text with its literals blanked, when `skip` characters of one are still to come
unfoldable pub blank_literals : ℕ → Text → Text
unfolding literal
blank_literals skip [] = []
blank_literals (suc skip) (c ∷ s) = b' ' ∷ blank_literals skip s
blank_literals zero (c ∷ s) =
    if c == b'\''
    then elim (literal s) [ none ↦ c ∷ blank_literals zero s | some k ↦ b' ' ∷ blank_literals k s ]
    else c ∷ blank_literals zero s

-- `\b` behind a word
abbrev pub ends_word : Option Text → Bool
ends_word none = false
ends_word (some []) = true
ends_word (some (c ∷ s)) = not (is_word c)

abbrev pub starts_dml : Text → Bool
starts_dml s =
    ends_word (and_then (after_keyword (codes "insert") s) (word (codes "into")))
    || (ends_word (word (codes "update") s)
        || (ends_word (and_then (after_keyword (codes "delete") s) (word (codes "from")))
            || ends_word (word (codes "select") s)))

-- mainDML in the flat text: the statement from where it matches
unfoldable pub main_dml : Bool → Text → Text → Option Text
unfolding word some_spaces codes
main_dml in_word [] sql = none
main_dml in_word (c ∷ flat) [] = none
main_dml in_word (c ∷ flat) (d ∷ sql) =
    let rest = main_dml (is_word c) flat sql in
    if not in_word && starts_dml (c ∷ flat) then some (d ∷ sql) else rest

unfoldable pub table_for : Text → Text → Option Text
unfolding insert_table update_table delete_table select_table text_eq codes
table_for operation sql =
    if text_eq operation (codes "INSERT")
    then insert_table sql
    else if text_eq operation (codes "UPDATE")
    then update_table sql
    else if text_eq operation (codes "DELETE")
    then delete_table sql
    else if text_eq operation (codes "SELECT")
    then select_table false sql
    else none

abbrev pub or_empty : Option Text → Text
or_empty none = []
or_empty (some s) = s

abbrev pub named : Text → Text → Text × Text
named operation sql = (operation, or_empty (table_for operation sql))

abbrev pub operation_of : Text → Text
operation_of sql = map to_upper (first_word sql)

-- the main statement behind the CTEs of a WITH
abbrev pub named_main : Option Text → Text × Text
named_main none = (codes "WITH", [])
named_main (some sql) = named (operation_of sql) sql

-- statementName
unfoldable pub statement_name : Text → Text × Text
unfolding first_word text_eq blank_literals main_dml table_for codes
statement_name sql =
    let s = strip_leading_comments sql in
    if is_empty (first_word s)
    then ([], [])
    else if text_eq (operation_of s) (codes "WITH")
    then named_main (main_dml false (blank_nested (blank_literals 0 s)) s)
    else named (operation_of s) s

-- spanNameFor
unfoldable pub span_name_for : Text → String
unfolding text_eq codes
span_name_for operation =
    if text_eq operation (codes "INSERT")
    then "db.insert"
    else if text_eq operation (codes "SELECT")
    then "db.select"
    else if text_eq operation (codes "UPDATE")
    then "db.update"
    else if text_eq operation (codes "DELETE")
    then "db.delete"
    else if any (text_eq operation) (
        codes "BEGIN"
        ∷ codes "START"
        ∷ codes "COMMIT"
        ∷ codes "END"
        ∷ codes "ROLLBACK"
        ∷ codes "SAVEPOINT"
        ∷ codes "RELEASE"
        ∷ [])
    then "db.transaction"
    else "db.query"
