-- ===== src/Text/Laws.antt =====
-- Equality of texts, and trimming under a change of case.
use hellnet_lib_database.Prelude.{ℕ, ◌≡◌, refl, ◌↔◌, true, [], ◌∷◌, map, arith}
use hellnet_lib_database.Text.{
  Text, text_eq, is_space, is_empty, to_lower, to_upper, trim_left, trim_right, trim_space,
}

pub text_eq_refl : (s : Text) → text_eq s s ≡ true
unfolding text_eq
text_eq_refl [] = refl
text_eq_refl (c ∷ s) = ground (arith, text_eq_refl s)

pub eq_of_text_eq : (s t : Text) → text_eq s t ≡ true → s ≡ t
unfolding text_eq
eq_of_text_eq [] [] h = refl
eq_of_text_eq [] (_ ∷ _) h = cc
eq_of_text_eq (_ ∷ _) [] h = cc
eq_of_text_eq (a ∷ s) (b ∷ t) h = ground (arith, eq_of_text_eq s t)

pub text_eq_iff : (s t : Text) → (text_eq s t ≡ true) ↔ (s ≡ t)
text_eq_iff s t = (eq_of_text_eq s t, λ e. rw e (text_eq_refl t))

pub is_space-to_upper : (c : ℕ) → is_space (to_upper c) ≡ is_space c
unfolding to_upper
is_space-to_upper c = ground arith

pub to_lower-to_upper : (c : ℕ) → to_lower (to_upper c) ≡ to_lower c
unfolding to_upper to_lower
to_lower-to_upper c = ground arith

trim_left-upper : (s : Text) → trim_left (map to_upper s) ≡ map to_upper (trim_left s)
unfolding trim_left
trim_left-upper [] = refl
trim_left-upper (c ∷ s) = ground (arith, is_space-to_upper c, trim_left-upper s)

is_empty-map : (s : Text) → is_empty (map to_upper s) ≡ is_empty s
is_empty-map [] = refl
is_empty-map (c ∷ s) = refl

trim_right-upper : (s : Text) → trim_right (map to_upper s) ≡ map to_upper (trim_right s)
unfolding trim_right
trim_right-upper [] = refl
trim_right-upper (c ∷ s) =
    ground (arith, is_space-to_upper c, trim_right-upper s, is_empty-map (trim_right s))

pub trim_space-upper : (s : Text) → trim_space (map to_upper s) ≡ map to_upper (trim_space s)
unfolding trim_space
trim_space-upper s = rw (trim_left-upper s) (trim_right-upper (trim_left s))

pub map-lower-upper : (s : Text) → map to_lower (map to_upper s) ≡ map to_lower s
map-lower-upper [] = refl
map-lower-upper (c ∷ s) = cc (to_lower-to_upper c, map-lower-upper s)
