-- ===== src/Repository/Columns/Resolve.antt =====
-- What a resolved list of columns is.
use hellnet_lib_database.Prelude.{
  ℕ, suc, ◌+◌, ◌≡◌, refl, Bool, true, false, ◌&&◌, not, none, some, List, [], ◌∷◌, map, any, all,
  get_elem?, arith, Option-cases, inl, inr,
}
use hellnet_lib_database.Text.{Text, text_eq}
use hellnet_lib_database.Text.Laws.{text_eq_iff}
use hellnet_lib_database.World.{Reply-cases, ok}
use hellnet_lib_database.Repository.Clause.{is_identifier, validate_identifier}
use hellnet_lib_database.Repository.Columns.{
  ElemType, ColField, fields_of, slot_from, slot, column_errors, validate_column_list, slots_of,
  resolve_columns,
}

abbrev pub names : List ColField → List Text
names = map (λ (f : ColField). f.name)

slot_from-name :
    (i : ℕ) (c : Text) (fs : List ColField) (k : ℕ)
    → slot_from i c fs ≡ some k
    → (j : ℕ) × (k ≡ i + j) × (get_elem? (names fs) j ≡ some c)
unfolding slot_from
slot_from-name i c [] k h = cc
slot_from-name i c (f ∷ fs) k h = elim (Option-cases (slot_from (suc i) c fs)) [
  | inr (m, e) ↦
      let (j, a, b) = slot_from-name (suc i) c fs m e in
      let h' : some m ≡ some k = rw e at h in (suc j, ground (arith, h', a), b)
  | inl e ↦ (0, ground (arith, text_eq_iff f.name c), ground (arith, text_eq_iff f.name c))
]

slot-name :
    (c : Text) (fs : List ColField) (k : ℕ) → slot c fs ≡ some k → get_elem? (names fs) k ≡ some c
unfolding slot
slot-name c fs k h =
    let (j, a, b) = slot_from-name 0 c fs k h in let a' : k ≡ j = omega (arith, a) in rw a' b

slots_of-names :
    (kind : Text) (t : ElemType) (cols : List Text) (is : List ℕ)
    → slots_of kind t cols ≡ ok is
    → map (get_elem? (names (fields_of t))) is ≡ map some cols
unfolding slots_of
slots_of-names kind t [] is h = let e : [] ≡ is = cc h in rw (← e)
slots_of-names kind t (c ∷ cs) is h = elim (Option-cases (slot c (fields_of t))) [
  | inl e ↦ let h' = rw (e, slots_of) at h in cc h'
  | inr (i, e) ↦ elim (Reply-cases (slots_of kind t cs)) [
    | inr (x, f) ↦ let h' = rw (e, f, slots_of) at h in cc h'
    | inl (js, f) ↦
        let h' : ok (i ∷ js) ≡ ok is = rw (e, f, slots_of) at h in
        let is-eq : is ≡ i ∷ js = cc h' in
        rw is-eq (cc (slot-name c (fields_of t) i e, slots_of-names kind t cs js f))
  ]
]

-- no text stands twice in the list
abbrev pub distinct : List Text → Bool
distinct [] = true
distinct (c ∷ cs) = not (any (text_eq c) cs) && distinct cs

abbrev unseen : List Text → List Text → Bool
unseen seen = all (λ c. not (any (text_eq c) seen))

unseen-cons :
    (c : Text) (seen cs : List Text)
    → unseen (c ∷ seen) cs ≡ true
    → (unseen seen cs ≡ true) × (any (text_eq c) cs ≡ false)
unseen-cons c seen [] h = (refl, refl)
unseen-cons c seen (d ∷ cs) h =
    ground (arith, unseen-cons c seen cs, text_eq_iff c d, text_eq_iff d c)

column_errors-none :
    (kind : Text) (seen cols : List Text)
    → column_errors kind seen cols ≡ none
    → (all is_identifier cols ≡ true) × (unseen seen cols ≡ true) × (distinct cols ≡ true)
unfolding column_errors validate_identifier
column_errors-none kind seen [] h = (refl, refl, refl)
column_errors-none kind seen (c ∷ cs) h =
    ground (arith, column_errors-none kind (c ∷ seen) cs, unseen-cons c seen cs)

validate_column_list-none :
    (kind : Text) (cols : List Text)
    → validate_column_list kind cols ≡ none
    → (all is_identifier cols ≡ true) × (distinct cols ≡ true)
unfolding validate_column_list
validate_column_list-none kind [] h = cc h
validate_column_list-none kind (c ∷ cs) h =
    let (a, b, d) = column_errors-none kind [] (c ∷ cs) h in (a, d)

-- A column list that resolves has only plain identifiers, none of them twice, and the slots that
-- come back are the positions of columns with these very names, in the order of the list.
pub resolve_columns-names :
    (kind : Text) (t : ElemType) (cols : List Text) (is : List ℕ)
    → resolve_columns kind t cols ≡ ok is
    → (all is_identifier cols ≡ true)
      × (distinct cols ≡ true)
      × (map (get_elem? (names (fields_of t))) is ≡ map some cols)
unfolding resolve_columns
resolve_columns-names kind t cols is h = elim (Option-cases (validate_column_list kind cols)) [
  | inr (e, f) ↦ let h' = rw f at h in cc h'
  | inl f ↦
      let h' : slots_of kind t cols ≡ ok is = rw f at h in
      let (a, b) = validate_column_list-none kind cols f in (a, b, slots_of-names kind t cols is h')
]
