-- ===== src/Statement.antt =====
-- database/statement.go: the handling of comments and nesting. statementName is in Statement/Name.antt.
pub mod Blank
pub mod Comments
pub mod Name
pub mod Traced
use hellnet_lib_database.Prelude.{
  ℕ, zero, suc, ◌+◌, ◌-◌, ◌==◌, Bool, ltb, Option, none, some, List, [], ◌∷◌, if◌then◌else◌,
}
use hellnet_lib_database.Text.{Text, codes, has_prefix, trim_space}

-- the loop of blankNested over the bytes of a statement, at nesting `depth`
unfoldable pub blank_from : ℕ → Text → Text
blank_from depth [] = []
blank_from depth (c ∷ s) =
    let opened = blank_from (suc depth) s in
    let closed = blank_from (depth - 1) s in
    let inside = blank_from depth s in
    if c == b'('
    then c ∷ opened
    else if c == b')'
    then c ∷ closed
    else if ltb 0 depth
    then b' ' ∷ inside
    else c ∷ inside

-- blankNested
unfoldable pub blank_nested : Text → Text
unfolding blank_from
blank_nested s = blank_from 0 s

-- what follows the first line break, and the first `*/`
unfoldable pub after_newline : Text → Option Text
after_newline [] = none
after_newline (c ∷ s) = let rest = after_newline s in if c == 10 then some s else rest

unfoldable pub after_close : Text → Option Text
after_close [] = none
after_close (c ∷ []) = none
after_close (c ∷ d ∷ s) =
    let rest = after_close (d ∷ s) in
    if c == b'*' then (if d == b'/' then some s else rest) else rest

-- stripLeadingComments: each round drops a comment, so a text needs no more rounds than it has
-- characters, and one
unfoldable pub strip_from : ℕ → Text → Text
strip_from zero s = s
strip_from (suc fuel) s =
    let t = trim_space s in
    if has_prefix t (codes "--")
    then elim (after_newline t) [ none ↦ [] | some r ↦ let rest = strip_from fuel r in rest ]
    else if has_prefix t (codes "/*")
    then elim (after_close t) [ none ↦ [] | some r ↦ let rest = strip_from fuel r in rest ]
    else t
