-- ===== src/Text.antt =====
-- Go strings as lists of code points, with the parts of the packages `strings`, `strconv` and
-- `regexp` that database/*.go use. Case and space are those of ASCII.
pub mod Laws
use Prim.Native.Char.{code}
use hellnet_lib_database.Prelude.{
  ℕ, zero, suc, ◌+◌, ◌-◌, ◌/◌, ◌%◌, String, Bool, true, false, ◌&&◌, ◌||◌, not, Option, none, some,
  List, [], ◌∷◌, ◌++◌, ltb, leb, ◌==◌, if◌then◌else◌,
}

abbrev pub Text : Type 0
Text = List ℕ

unfoldable pub codes : String → Text
codes String.[] = []
codes (String.◌∷◌ c s) = code c ∷ codes s

-- s == t
unfoldable pub text_eq : Text → Text → Bool
text_eq [] [] = true
text_eq [] (_ ∷ _) = false
text_eq (_ ∷ _) [] = false
text_eq (a ∷ s) (b ∷ t) = a == b && text_eq s t

abbrev pub is_empty : Text → Bool
is_empty [] = true
is_empty (_ ∷ _) = false

abbrev pub is_upper : ℕ → Bool
is_upper c = leb b'A' c && leb c b'Z'

abbrev pub is_lower : ℕ → Bool
is_lower c = leb b'a' c && leb c b'z'

abbrev pub is_digit : ℕ → Bool
is_digit c = leb b'0' c && leb c b'9'

-- `[A-Za-z0-9_]`, the word characters of `\b` and `\w`
abbrev pub is_word : ℕ → Bool
is_word c = is_upper c || (is_lower c || (is_digit c || c == b'_'))

-- unicode.IsSpace on ASCII: \t \n \v \f \r and the blank
abbrev pub is_space : ℕ → Bool
is_space c = (leb 9 c && leb c 13) || c == 32

-- `\s` of regexp, which leaves \v out
abbrev pub is_re_space : ℕ → Bool
is_re_space c = c == 9 || (c == 10 || (c == 12 || (c == 13 || c == 32)))

unfoldable pub to_lower : ℕ → ℕ
to_lower c = if is_upper c then c + 32 else c

unfoldable pub to_upper : ℕ → ℕ
to_upper c = if is_lower c then c - 32 else c

-- strings.TrimLeft with the white space as cutset
unfoldable pub trim_left : Text → Text
trim_left [] = []
trim_left (c ∷ s) = if is_space c then trim_left s else c ∷ s

-- The same at the right end: a blank goes when all behind it went.
unfoldable pub trim_right : Text → Text
trim_right [] = []
trim_right (c ∷ s) = let rest = trim_right s in if is_space c && is_empty rest then [] else c ∷ rest

-- strings.TrimSpace
unfoldable pub trim_space : Text → Text
unfolding trim_left trim_right
trim_space s = trim_right (trim_left s)

-- strings.HasPrefix(s, p)
unfoldable pub has_prefix : Text → Text → Bool
has_prefix _ [] = true
has_prefix [] (_ ∷ _) = false
has_prefix (a ∷ s) (b ∷ p) = a == b && has_prefix s p

-- strings.Contains(s, p)
unfoldable pub contains : Text → Text → Bool
unfolding has_prefix
contains [] p = has_prefix [] p
contains (c ∷ s) p = has_prefix (c ∷ s) p || contains s p

-- strings.Join
unfoldable pub join : List Text → Text → Text
join [] sep = []
join (s ∷ []) sep = s
join (s ∷ t ∷ ts) sep = s ++ (sep ++ join (t ∷ ts) sep)

-- The digits of `n` in front of `acc`; `n` has at most `fuel` of them.
unfoldable pub digits : ℕ → ℕ → Text → Text
digits zero n acc = acc
digits (suc fuel) n acc =
    let acc' : Text = (b'0' + n % 10) ∷ acc in
    let rest = digits fuel (n / 10) acc' in if n / 10 == 0 then acc' else rest

-- strconv.Itoa and %d on a number that is not negative
unfoldable pub itoa : ℕ → Text
unfolding digits
itoa n = digits (suc n) n []

abbrev hex_digit : ℕ → ℕ
hex_digit d = if ltb d 10 then b'0' + d else b'a' + (d - 10)

-- one character of strconv.Quote; characters past ASCII are taken to be printable
unfoldable pub quote_char : ℕ → Text
quote_char c =
    if c == b'"' || c == b'\\'
    then b'\\' ∷ c ∷ []
    else if c == 7
    then b'\\' ∷ b'a' ∷ []
    else if c == 8
    then b'\\' ∷ b'b' ∷ []
    else if c == 9
    then b'\\' ∷ b't' ∷ []
    else if c == 10
    then b'\\' ∷ b'n' ∷ []
    else if c == 11
    then b'\\' ∷ b'v' ∷ []
    else if c == 12
    then b'\\' ∷ b'f' ∷ []
    else if c == 13
    then b'\\' ∷ b'r' ∷ []
    else if ltb c 32 || c == 127
    then b'\\' ∷ b'x' ∷ hex_digit (c / 16) ∷ hex_digit (c % 16) ∷ []
    else c ∷ []

unfoldable pub quote_chars : Text → Text
unfolding quote_char
quote_chars [] = []
quote_chars (c ∷ s) = quote_char c ++ quote_chars s

-- strconv.Quote and %q
unfoldable pub quote : Text → Text
unfolding quote_chars
quote s = b'"' ∷ (quote_chars s ++ b'"' ∷ [])
