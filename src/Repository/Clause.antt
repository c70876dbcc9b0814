-- ===== src/Repository/Clause.antt =====
-- The checks of identifiers and of ORDER BY, and the statements built from a Specification.
pub mod Safe
pub mod Page
use hellnet_lib_database.Prelude.{
  ℕ, suc, Bool, true, false, ◌&&◌, ◌||◌, not, String, Option, none, some, List, [], ◌∷◌, ◌++◌, all,
  ◌==◌, if◌then◌else◌,
}
use hellnet_lib_database.Prelude.Int.{ℤ, pos, negsuc, ltb_ℤ, ◌-ℤ◌, ◌*ℤ◌, int64}
use hellnet_lib_database.Text.{
  Text, codes, is_empty, is_upper, is_lower, is_digit, is_word, is_re_space, to_lower, contains,
  trim_space, itoa,
}
use hellnet_lib_database.Errors.{Err, errorf, first}
use hellnet_lib_database.World.{Value, Reply, ok, err}

-- Specification
pub record Specification : Type 0 where
  pub sql : Text
  pub args : List Value
  pub order_by : Text

-- identRe: `^[A-Za-z_][A-Za-z0-9_]*$`
unfoldable pub is_identifier : Text → Bool
is_identifier [] = false
is_identifier (c ∷ s) = (is_upper c || (is_lower c || c == b'_')) && all is_word s

-- validateIdentifier
unfoldable pub validate_identifier : Text → Option Err
unfolding is_identifier
validate_identifier name =
    if not (is_identifier name)
    then some (errorf "database: invalid identifier %q" (name ∷ []))
    else none

-- orderByRe: `^[A-Za-z0-9_.,\s]+$`
abbrev pub is_order_char : ℕ → Bool
is_order_char c = is_word c || (c == b'.' || (c == b',' || is_re_space c))

unfoldable pub is_order_by : Text → Bool
is_order_by [] = false
is_order_by (c ∷ s) = all is_order_char (c ∷ s)

-- validateOrderBy
unfoldable pub validate_order_by : Text → Option Err
validate_order_by s =
    let refused = some (errorf "database: invalid ORDER BY clause %q" (s ∷ [])) in
    if is_empty s
    then none
    else if contains s (codes ";")
        || (contains s (codes "--") || (contains s (codes "/*") || contains s (codes "*/")))
    then refused
    else if not (is_order_by s)
    then refused
    else none

-- The part of `s` that a lower-case word matches with `(?i)`, and what follows it.
unfoldable pub strip : Text → Text → Option (Text × Text)
strip [] s = some ([], s)
strip (p ∷ ps) [] = none
strip (p ∷ ps) (c ∷ s) =
    let rest = strip ps s in
    if p == to_lower c then elim rest [ none ↦ none | some (m, r) ↦ some (c ∷ m, r) ] else none

-- `\s*` and what follows it
unfoldable pub spaces : Text → Text × Text
spaces [] = ([], [])
spaces (c ∷ s) = let rest = spaces s in if is_re_space c then (c ∷ rest.0, rest.1) else ([], c ∷ s)

-- `\b` behind a word character
abbrev pub word_ends : Text → Bool
word_ends [] = true
word_ends (c ∷ s) = not (is_word c)

-- `\b(word)\b` at the head of `s`, with the first boundary checked
unfoldable pub word_at : Text → Text → Option Text
word_at word s = elim (strip word s) [
  | none ↦ none
  | some (m, r) ↦ if word_ends r then some m else none
]

-- orderByInSQLRe, `(?i)\bORDER\s+BY\b`, at the head of `s`
unfoldable pub order_by_at : Text → Option Text
unfolding strip spaces word_at
order_by_at s = elim (strip (codes "order") s) [
  | none ↦ none
  | some (m, r) ↦
      let gap = spaces r in
      if is_empty gap.0
      then none
      else elim (word_at (codes "by") gap.1) [ none ↦ none | some b ↦ some (m ++ (gap.0 ++ b)) ]
]

-- pagingInSQLRe, `(?i)\b(LIMIT|OFFSET|FETCH)\b`, at the head of `s`
unfoldable pub paging_at : Text → Option Text
unfolding word_at strip
paging_at s =
    first (word_at (codes "limit") s)
      (first (word_at (codes "offset") s) (word_at (codes "fetch") s))

-- FindStringIndex: the leftmost match, where `behind` says that a word character stands before
unfoldable pub find_match : (Text → Option Text) → Bool → Text → Option Text
find_match at behind [] = none
find_match at behind (c ∷ s) =
    let rest = find_match at (is_word c) s in if behind then rest else first (at (c ∷ s)) rest

-- clauseCollision, with `none` for the empty text
unfoldable pub clause_collision : Text → (Text → Option Text) → Option Text
unfolding find_match
clause_collision sql at = elim (find_match at false sql) [
  | none ↦ none
  | some m ↦ some (trim_space m)
]

-- %d
unfoldable pub itoa_ℤ : ℤ → Text
itoa_ℤ (pos n) = itoa n
itoa_ℤ (negsuc n) = b'-' ∷ itoa (suc n)

-- countSQL
unfoldable pub count_sql : Specification → Text
count_sql spec = codes "SELECT COUNT(*) FROM (" ++ (spec.sql ++ codes ") AS _count")

abbrev pub not_negative : ℤ → ℤ
not_negative offset = if ltb_ℤ offset (pos 0) then pos 0 else offset

-- the offset of a page, as `int` keeps it
unfoldable pub page_offset : ℤ → ℤ → ℤ
page_offset page page_size = not_negative (int64 (int64 (page -ℤ pos 1) *ℤ page_size))

abbrev pub already : Text → Err
already frag =
    errorf
      "database: specification SQL already contains %s; move OrderBy/Pagination into Specification fields"
      (frag ∷ [])

-- the ORDER BY of pageSQL, appended to `sql`
unfoldable pub with_order : Text → Text → Reply Text
with_order order_by sql =
    if is_empty order_by then ok sql else elim (clause_collision sql order_by_at) [
      | some frag ↦ err (already frag)
      | none ↦ ok (sql ++ (codes " ORDER BY " ++ order_by))
    ]

-- the LIMIT and OFFSET of pageSQL
unfoldable pub with_limit : ℤ → ℤ → Text → Reply Text
with_limit page page_size sql =
    if not (ltb_ℤ (pos 0) page_size) then ok sql else elim (clause_collision sql paging_at) [
      | some frag ↦ err (already frag)
      | none ↦ ok (
          sql
          ++ (codes " LIMIT "
              ++ (itoa_ℤ page_size ++ (codes " OFFSET " ++ itoa_ℤ (page_offset page page_size)))))
    ]

infixl 5 ◌>>=◌
abbrev pub ◌>>=◌ : {A B : Type 0} → Reply A → (A → Reply B) → Reply B
ok a >>= f = f a
err e >>= f = err e

-- `if err != nil { return … }`
abbrev pub check : {A : Type 0} → Option Err → Reply A → Reply A
check none r = r
check (some e) r = err e

-- pageSQL
unfoldable pub page_sql : Specification → ℤ → ℤ → Reply Text
page_sql spec page page_size =
    check (validate_order_by spec.order_by)
      (with_order spec.order_by spec.sql >>= with_limit page page_size)

-- findOneSQL
unfoldable pub find_one_sql : Specification → Reply Text
find_one_sql spec =
    check (validate_order_by spec.order_by) (elim (clause_collision spec.sql paging_at) [
      | some frag ↦ err (
          errorf "database: specification SQL already contains %s; FindOne adds LIMIT 1 internally"
            (frag ∷ []))
      | none ↦
          if is_empty spec.order_by
          then ok (spec.sql ++ codes " LIMIT 1")
          else elim (clause_collision spec.sql order_by_at) [
            | some frag ↦ err (
                errorf
                  "database: specification SQL already contains %s; move OrderBy into Specification fields"
                  (frag ∷ []))
            | none ↦ ok (spec.sql ++ (codes " ORDER BY " ++ (spec.order_by ++ codes " LIMIT 1")))
          ]
    ])

-- existsSQL
unfoldable pub exists_sql : Specification → Reply Text
exists_sql spec =
    if not (is_empty spec.order_by)
    then err (
        errorf
          "database: Exists ignores Specification.OrderBy %q; drop it or embed ordering in the specification SQL"
          (spec.order_by ∷ []))
    else elim (clause_collision spec.sql paging_at) [
      | some frag ↦ err (
          errorf
            "database: specification SQL contains %s; remove pagination from Exists specifications"
            (frag ∷ []))
      | none ↦ ok (codes "SELECT EXISTS(SELECT 1 FROM (" ++ (spec.sql ++ codes ") AS _exists)"))
    ]
