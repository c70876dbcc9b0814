-- ===== src/Repository/Clause/Safe.antt =====
-- What the checks let through, and so what can be appended to a specification's SQL.
use mathlib.Core.List.{append-nil, append_assoc}
use hellnet_lib_database.Prelude.{
  ℕ, zero, suc, ◌+◌, ◌/◌, ◌%◌, ◌≡◌, refl, ap, ◌∙◌, ◌↔◌, Bool, true, false, none, List, [], ◌∷◌,
  ◌++◌, all, arith, ◌==◌, Bool-cases, Option-cases, inl, inr, if◌then◌else◌,
}
use hellnet_lib_database.Prelude.Int.{ℤ, pos, negsuc, ltb_ℤ, ◌-ℤ◌, ◌*ℤ◌, int64}
use hellnet_lib_database.Text.{
  Text, codes, is_empty, is_word, is_digit, has_prefix, contains, digits, itoa,
}
use hellnet_lib_database.World.{Reply, ok, err}
use hellnet_lib_database.Repository.Clause.{
  Specification, validate_identifier, is_order_char, is_order_by, validate_order_by,
  clause_collision, order_by_at, paging_at, with_order, with_limit, page_offset, itoa_ℤ, page_sql,
  ◌>>=◌,
}

abbrev pub starts_with_digit : Text → Bool
starts_with_digit [] = false
starts_with_digit (c ∷ _) = is_digit c

-- A name is accepted exactly when it is not empty, has only letters, digits and `_`, and does not
-- begin with a digit: no quote, blank or separator can stand in it.
validate_identifier_iff :
    (name : Text)
    → (validate_identifier name ≡ none)
      ↔ ((is_empty name ≡ false) × (starts_with_digit name ≡ false) × (all is_word name ≡ true))
unfolding validate_identifier
validate_identifier_iff [] = ground arith
validate_identifier_iff (c ∷ s) = ground arith

pub all-append {ℓ} :
    {A : Type ℓ} (p : A → Bool) (xs ys : List A)
    → all p xs ≡ true
    → all p ys ≡ true
    → all p (xs ++ ys) ≡ true
all-append p [] ys h k = k
all-append p (x ∷ xs) ys h k = ground (arith, all-append p xs ys)

-- a text of other characters does not contain a mark
not_contains :
    (m : ℕ) (ms s : Text)
    → is_order_char m ≡ false
    → all is_order_char s ≡ true
    → contains s (m ∷ ms) ≡ false
unfolding contains has_prefix
not_contains m ms [] h k = refl
not_contains m ms (c ∷ s) h k = ground (arith, not_contains m ms s)

-- An ORDER BY is accepted exactly when it is empty or made of letters, digits, `_`, `.`, `,` and
-- white space alone: `;` and the three comment marks are among what that leaves out.
validate_order_by_iff : (s : Text) → (validate_order_by s ≡ none) ↔ (all is_order_char s ≡ true)
unfolding validate_order_by is_order_by codes
validate_order_by_iff [] = ground arith
validate_order_by_iff (c ∷ s) = ground (
  arith,
  not_contains b';' [] (c ∷ s) refl,
  not_contains b'-' (b'-' ∷ []) (c ∷ s) refl,
  not_contains b'/' (b'*' ∷ []) (c ∷ s) refl,
  not_contains b'*' (b'/' ∷ []) (c ∷ s) refl,
)

digits_safe :
    (fuel n : ℕ) (acc : Text)
    → all is_order_char acc ≡ true
    → all is_order_char (digits fuel n acc) ≡ true
unfolding digits
digits_safe zero n acc h = h
digits_safe (suc fuel) n acc h =
    let acc' : Text = (b'0' + n % 10) ∷ acc in
    let safe : all is_order_char acc' ≡ true = ground arith in
    elim (Bool-cases (n / 10 == 0)) [
      | inl e ↦ rw e safe
      | inr e ↦ rw e (digits_safe fuel (n / 10) acc' safe)
    ]

itoa_safe : (n : ℕ) → all is_order_char (itoa n) ≡ true
unfolding itoa
itoa_safe n = digits_safe (suc n) n [] refl

clamp_nonneg : (z : ℤ) → ltb_ℤ (if ltb_ℤ z (pos 0) then pos 0 else z) (pos 0) ≡ false
clamp_nonneg (pos n) = ground arith
clamp_nonneg (negsuc n) = ground arith

page_offset_nonneg : (page page_size : ℤ) → ltb_ℤ (page_offset page page_size) (pos 0) ≡ false
unfolding page_offset
page_offset_nonneg page page_size = clamp_nonneg (int64 (int64 (page -ℤ pos 1) *ℤ page_size))

positive : (n : ℤ) → ltb_ℤ (pos 0) n ≡ true → ltb_ℤ n (pos 0) ≡ false
positive (pos n) h = ground arith
positive (negsuc n) h = ground arith

itoa_ℤ_safe : (n : ℤ) → ltb_ℤ n (pos 0) ≡ false → all is_order_char (itoa_ℤ n) ≡ true
unfolding itoa_ℤ
itoa_ℤ_safe (pos n) h = itoa_safe n
itoa_ℤ_safe (negsuc n) h = ground arith

-- the SQL of a specification with a suffix of safe characters behind it
abbrev pub Extends : Text → Text → Type 0
Extends sql base = (suffix : Text) × (sql ≡ base ++ suffix) × (all is_order_char suffix ≡ true)

with_order-Extends :
    (order_by sql out : Text)
    → all is_order_char order_by ≡ true
    → with_order order_by sql ≡ ok out
    → Extends out sql
unfolding with_order
with_order-Extends order_by sql out safe h = elim (Bool-cases (is_empty order_by)) [
  | inl e ↦ let h' : ok sql ≡ ok out = rw e at h in ([], cc (h', append-nil sql), refl)
  | inr e ↦ elim (Option-cases (clause_collision sql order_by_at)) [
    | inr (frag, f) ↦ let h' = rw (e, f) at h in cc h'
    | inl f ↦
        let h' : ok (sql ++ (codes " ORDER BY " ++ order_by)) ≡ ok out = rw (e, f) at h in
        (
          codes " ORDER BY " ++ order_by,
          cc h',
          all-append is_order_char (codes " ORDER BY ") order_by (unfold codes in refl) safe,
        )
  ]
]

with_limit-Extends :
    (page page_size : ℤ) (sql out : Text) → with_limit page page_size sql ≡ ok out → Extends out sql
unfolding with_limit
with_limit-Extends page page_size sql out h = elim (Bool-cases (ltb_ℤ (pos 0) page_size)) [
  | inr e ↦ let h' : ok sql ≡ ok out = rw e at h in ([], cc (h', append-nil sql), refl)
  | inl e ↦ elim (Option-cases (clause_collision sql paging_at)) [
    | inr (frag, f) ↦ let h' = rw (e, f) at h in cc h'
    | inl f ↦
        let offset = itoa_ℤ (page_offset page page_size) in
        let tail = itoa_ℤ page_size ++ (codes " OFFSET " ++ offset) in
        let h' : ok (sql ++ (codes " LIMIT " ++ tail)) ≡ ok out = rw (e, f) at h in
        let sized = itoa_ℤ_safe page_size (positive page_size e) in
        let skipped = itoa_ℤ_safe _ (page_offset_nonneg page page_size) in
        (
          codes " LIMIT " ++ tail,
          cc h',
          all-append is_order_char (codes " LIMIT ") tail (unfold codes in refl) (
              all-append is_order_char (itoa_ℤ page_size) (codes " OFFSET " ++ offset) sized (
                all-append is_order_char (codes " OFFSET ") offset (unfold codes in refl) skipped)),
        )
  ]
]

Extends-trans : (a b c : Text) → Extends b a → Extends c b → Extends c a
Extends-trans a b c (s, e, h) (t, f, k) =
    (s ++ t, f ∙ ap (λ x. x ++ t) e ∙ append_assoc a s t, all-append is_order_char s t h k)

>>=-eq-ok :
    (m : Reply Text) (f : Text → Reply Text) {b : Text}
    → (m >>= f) ≡ ok b
    → (a : Text) × (m ≡ ok a) × (f a ≡ ok b)
>>=-eq-ok (ok a) f h = (a, refl, h)
>>=-eq-ok (err e) f h = cc

-- What pageSQL returns is the SQL of the specification with a suffix of letters, digits, `_`, `.`,
-- `,` and white space alone: whatever the ORDER BY and the page are, they end no statement, open no
-- comment and quote nothing.
pub page_sql-Extends :
    (spec : Specification) (page page_size : ℤ) (out : Text)
    → page_sql spec page page_size ≡ ok out
    → Extends out spec.sql
unfolding page_sql
page_sql-Extends spec page page_size out h = elim (Option-cases (validate_order_by spec.order_by)) [
  | inr (e, f) ↦ let h' = rw f at h in cc h'
  | inl f ↦
      let h' : (with_order spec.order_by spec.sql >>= with_limit page page_size) ≡ ok out =
        rw f at h in
      let (mid, a, b) =
        >>=-eq-ok (with_order spec.order_by spec.sql) (with_limit page page_size) h' in
      Extends-trans spec.sql mid out
        (with_order-Extends spec.order_by spec.sql mid ((validate_order_by_iff spec.order_by).0 f)
          a)
        (with_limit-Extends page page_size mid out b)
]
