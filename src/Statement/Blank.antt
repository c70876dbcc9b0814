-- ===== src/Statement/Blank.antt =====
-- What blankNested keeps.
use hellnet_lib_database.Prelude.{ℕ, suc, ◌-◌, ◌≡◌, refl, [], ◌∷◌, length, arith}
use hellnet_lib_database.Text.{Text}
use hellnet_lib_database.Statement.{blank_from, blank_nested}

length_blank : (s : Text) (depth : ℕ) → length (blank_from depth s) ≡ length s
unfolding blank_from
length_blank [] depth = refl
length_blank (c ∷ s) depth =
    ground (arith, length_blank s (suc depth), length_blank s (depth - 1), length_blank s depth)

-- Blanking keeps the length, so that an index into the blanked text is one into the statement.
length-blank_nested : (s : Text) → length (blank_nested s) ≡ length s
unfolding blank_nested
length-blank_nested s = length_blank s 0

blank_idem : (s : Text) (depth : ℕ) → blank_from depth (blank_from depth s) ≡ blank_from depth s
unfolding blank_from
blank_idem [] depth = refl
blank_idem (c ∷ s) depth =
    ground (arith, blank_idem s (suc depth), blank_idem s (depth - 1), blank_idem s depth)

-- Blanking a blanked text changes nothing: the nesting is still what it was.
pub blank_nested_idem : (s : Text) → blank_nested (blank_nested s) ≡ blank_nested s
unfolding blank_nested
blank_nested_idem s = blank_idem s 0
