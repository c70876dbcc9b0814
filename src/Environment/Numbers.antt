-- ===== src/Environment/Numbers.antt =====
-- Printing an integer and parsing it.
use hellnet_lib_database.Prelude.{
  ℕ, suc, zero, ◌+◌, ◌*◌, ◌/◌, ◌%◌, ◌<◌, ◌≡◌, refl, ap, ◌∙◌, inl, inr, Bool, true, false, some, [],
  ◌∷◌, ◌==◌, ltb, leb, Bool-cases, arith,
}
use hellnet_lib_database.Prelude.Int.{ℤ, pos, negsuc, ◌≤ℤ◌, ◌<ℤ◌}
use hellnet_lib_database.Text.{Text, is_digit, digits, itoa}
use hellnet_lib_database.Environment.{itoa_int, parse_digits, parse_unsigned, positive, atoi}

-- one more digit
parse_digits-digit :
    (a n : ℕ) (acc : Text)
    → parse_digits a ((b'0' + n % 10) ∷ acc) ≡ parse_digits (a * 10 + n % 10) acc
unfolding parse_digits
parse_digits-digit a n acc =
    let d : is_digit (b'0' + n % 10) ≡ true = ground arith in
    rw d (ap (λ k. parse_digits (a * 10 + k) acc) (omega arith))

parse_digits-digits :
    (fuel n : ℕ) (acc : Text) → n < fuel → parse_digits 0 (digits fuel n acc) ≡ parse_digits n acc
unfolding digits
parse_digits-digits zero n acc h = ground arith
parse_digits-digits (suc fuel) n acc h = elim (Bool-cases (n / 10 == 0)) [
  | inl y ↦ rw y (parse_digits-digit 0 n acc ∙ ap (λ k. parse_digits k acc) (ground arith))
  | inr f ↦ rw f (
      parse_digits-digits fuel (n / 10) ((b'0' + n % 10) ∷ acc) (ground arith)
      ∙ parse_digits-digit (n / 10) n acc
      ∙ ap (λ k. parse_digits k acc) (ground arith))
]

abbrev starts_with_digit : Text → Bool
starts_with_digit [] = false
starts_with_digit (c ∷ s) = is_digit c

digits_start :
    (fuel n : ℕ) (acc : Text)
    → starts_with_digit acc ≡ true
    → starts_with_digit (digits fuel n acc) ≡ true
unfolding digits
digits_start zero n acc h = h
digits_start (suc fuel) n acc h = elim (Bool-cases (n / 10 == 0)) [
  | inl y ↦ rw y (ground arith)
  | inr f ↦ rw f (digits_start fuel (n / 10) ((b'0' + n % 10) ∷ acc) (ground arith))
]

itoa-start : (n : ℕ) → starts_with_digit (itoa n) ≡ true
unfolding itoa digits
itoa-start n = elim (Bool-cases (n / 10 == 0)) [
  | inl y ↦ rw y (ground arith)
  | inr f ↦ rw f (digits_start n (n / 10) ((b'0' + n % 10) ∷ []) (ground arith))
]

parse_unsigned-itoa : (n : ℕ) → parse_unsigned (itoa n) ≡ some n
unfolding itoa parse_digits
parse_unsigned-itoa n =
    by_text (itoa n) (itoa-start n) (parse_digits-digits (suc n) n [] (omega arith))
  where
    by_text :
        (s : Text)
        → starts_with_digit s ≡ true
        → parse_digits 0 s ≡ some n
        → parse_unsigned s ≡ some n
    by_text [] h p = cc h
    by_text (c ∷ s) h p = p

-- what starts with a digit has no sign
atoi-unsigned : (s : Text) → starts_with_digit s ≡ true → atoi s ≡ positive (parse_unsigned s)
unfolding atoi
atoi-unsigned [] h = refl
atoi-unsigned (c ∷ s) h = ground arith

-- An int64 that strconv.Itoa prints is what strconv.Atoi reads back.
pub atoi-itoa_int :
    (n : ℤ)
    → negsuc 9223372036854775807 ≤ℤ n
    → n <ℤ pos 9223372036854775808
    → atoi (itoa_int n) ≡ some n
unfolding itoa_int atoi
atoi-itoa_int (pos n) a b =
    let small : ltb n 9223372036854775808 ≡ true = ground arith in
    atoi-unsigned (itoa n) (itoa-start n) ∙ rw (parse_unsigned-itoa n) (rw small refl)
atoi-itoa_int (negsuc n) a b =
    let small : leb (suc n) 9223372036854775808 ≡ true = ground arith in
    rw (parse_unsigned-itoa (suc n)) (rw small refl)
