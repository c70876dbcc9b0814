-- ===== src/Statement/Comments.antt =====
-- What stripLeadingComments leaves.
use hellnet_lib_database.Prelude.{
  ℕ, zero, suc, ◌≤◌, ◌<◌, ◌≡◌, refl, inl, inr, false, some, [], ◌∷◌, length, arith, Bool-cases,
  Option-cases,
}
use hellnet_lib_database.Text.{Text, codes, has_prefix, trim_space, trim_left, trim_right}
use hellnet_lib_database.Statement.{after_newline, after_close, strip_from}

trim_left_shorter : (s : Text) → length (trim_left s) ≤ length s
unfolding trim_left
trim_left_shorter [] = omega arith
trim_left_shorter (c ∷ s) = ground (arith, trim_left_shorter s)

trim_right_shorter : (s : Text) → length (trim_right s) ≤ length s
unfolding trim_right
trim_right_shorter [] = omega arith
trim_right_shorter (c ∷ s) = ground (arith, trim_right_shorter s)

trim_space_shorter : (s : Text) → length (trim_space s) ≤ length s
unfolding trim_space
trim_space_shorter s = omega (arith, trim_right_shorter (trim_left s), trim_left_shorter s)

after_newline_shorter : (s r : Text) → after_newline s ≡ some r → length r < length s
unfolding after_newline
after_newline_shorter [] r h = cc h
after_newline_shorter (c ∷ s) r h = ground (arith, after_newline_shorter s r)

after_close_shorter : (s r : Text) → after_close s ≡ some r → length r < length s
unfolding after_close
after_close_shorter [] r h = cc h
after_close_shorter (c ∷ []) r h = cc h
after_close_shorter (c ∷ d ∷ s) r h = ground (arith, after_close_shorter (d ∷ s) r)

-- With as many rounds as the text has characters, and one, the loop comes to its end: no comment
-- stands at the head of what it leaves.
strip_from_lem :
    (fuel : ℕ) (s : Text)
    → length s < fuel
    → (has_prefix (strip_from fuel s) (codes "--") ≡ false)
      × (has_prefix (strip_from fuel s) (codes "/*") ≡ false)
unfolding strip_from
strip_from_lem zero s h = absurd (omega arith)
strip_from_lem (suc fuel) s h =
    let t = trim_space s in
    let l = trim_space_shorter s in
    elim (Bool-cases (has_prefix t (codes "--"))) [
      | inl a ↦ elim (Option-cases (after_newline t)) [
        | inl n ↦ rw (a, n) (unfold has_prefix codes in (refl, refl))
        | inr (r, e) ↦
            let k = after_newline_shorter t r e in rw (a, e) (strip_from_lem fuel r (omega arith))
      ]
      | inr a ↦ elim (Bool-cases (has_prefix t (codes "/*"))) [
        | inl b ↦ elim (Option-cases (after_close t)) [
          | inl n ↦ rw (a, b, n) (unfold has_prefix codes in (refl, refl))
          | inr (r, e) ↦
              let k = after_close_shorter t r e in
              rw (a, b, e) (strip_from_lem fuel r (omega arith))
        ]
        | inr b ↦ rw (a, b) (a, b)
      ]
    ]
