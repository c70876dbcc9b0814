-- ===== src/Bulk/Copy.antt =====
-- What COPY is sent, and when.
use mathlib.Core.List.{append_assoc}
use hellnet_lib_database.Prelude.{
  ℕ, zero, suc, ◌+◌, ◌≤◌, ◌≡◌, refl, ap, ◌⊎◌, inl, inr, Bool, true, false, none, some, List, [],
  ◌∷◌, ◌++◌, map, all, length, length-append, get_elem?-middle, ltb, arith, Bool-cases,
  Option-cases,
}
use hellnet_lib_database.Prelude.Int.{pos}
use hellnet_lib_database.Text.{Text}
use hellnet_lib_database.Errors.{Err, errorf}
use hellnet_lib_database.World.{Value, Handle, with_timeout, copy_from, Env, World, ret, push}
use hellnet_lib_database.Repository.Clause.{validate_identifier, is_identifier}
use hellnet_lib_database.Connection.{Pinned}
use hellnet_lib_database.Bulk.{drain, columns_error, bulk_error, bulk_insert}

drain_rest :
    (fuel : ℕ) (pre rest : List (List Value))
    → length rest ≤ fuel
    → drain fuel (record { rows = pre ++ rest; i = length pre }) ≡ map some rest
unfolding drain
drain_rest zero pre [] h = refl
drain_rest zero pre (r ∷ rest) h = absurd (omega arith)
drain_rest (suc fuel) pre [] h =
    let n : ltb (length pre) (length (pre ++ [])) ≡ false =
      ground (arith, length-append {0} pre []) in
    rw n
drain_rest (suc fuel) pre (r ∷ rest) h =
    let y : ltb (length pre) (length (pre ++ (r ∷ rest))) ≡ true =
      ground (arith, length-append {0} pre (r ∷ rest)) in
    let l : length pre + 1 ≡ length (pre ++ r ∷ []) =
      omega (arith, length-append {0} pre (r ∷ [])) in
    let ih = drain_rest fuel (pre ++ r ∷ []) rest (omega arith) in
    let e : (pre ++ r ∷ []) ++ rest ≡ pre ++ (r ∷ rest) = append_assoc pre (r ∷ []) rest in
    rw (y, get_elem?-middle {0} pre rest r, l) (ap (λ x. some r ∷ x) (rw e at ih))

-- A reader that asks for as many rows as there are, or more, gets each row once, in order, and never
-- an index out of range.
drain_all :
    (rows : List (List Value)) (fuel : ℕ)
    → length rows ≤ fuel
    → drain fuel (record { rows = rows; i = 0 }) ≡ map some rows
drain_all rows fuel h = drain_rest fuel [] rows h

validate-none : (s : Text) → validate_identifier s ≡ none → is_identifier s ≡ true
unfolding validate_identifier
validate-none s h = ground arith

columns-none : (cs : List Text) → columns_error cs ≡ none → all is_identifier cs ≡ true
unfolding columns_error
columns-none [] h = refl
columns-none (c ∷ cs) h = elim (Option-cases (validate_identifier c)) [
  | inl n ↦ ground (arith, validate-none c n, columns-none cs (rw n at h))
  | inr (e, s) ↦ let h' = rw s at h in cc h'
]

bulk_error-none :
    (table : Text) (columns : List Text)
    → bulk_error table columns ≡ none
    → (is_identifier table ≡ true) × (all is_identifier columns ≡ true)
unfolding bulk_error
bulk_error-none table [] h = elim (Option-cases (validate_identifier table)) [
  | inl n ↦ let h' = rw n at h in cc h'
  | inr (e, s) ↦ let h' = rw s at h in cc h'
]
bulk_error-none table (c ∷ cs) h = elim (Option-cases (validate_identifier table)) [
  | inl n ↦ (validate-none table n, columns-none (c ∷ cs) (rw n at h))
  | inr (e, s) ↦ let h' = rw s at h in cc h'
]

-- BulkInsert either returns an error and leaves the connection alone, or sends one COPY, of the
-- whole of its rows, into a table and columns that are all plain identifiers.
pub bulk_insert_safe :
    (env : Env) (supports : Handle → Bool) (c : Pinned) (table : Text) (columns : List Text)
    (rows : List (List Value)) (w : World)
    → ((e : Err) × (bulk_insert env supports c table columns rows w ≡ (ret (pos 0, some e), w)))
      ⊎ ((is_identifier table ≡ true)
          × (all is_identifier columns ≡ true)
          × ((bulk_insert env supports c table columns rows w).1
              ≡ push
                  (copy_from c.conn.r
                    (with_timeout c.conn.ctx c.conn.o.command_timeout)
                    table
                    columns
                    rows)
                  w))
unfolding bulk_insert
bulk_insert_safe env supports c table columns rows w =
    elim (Option-cases (bulk_error table columns)) [
      | inr (e, s) ↦ inl (e, rw s)
      | inl n ↦ elim (Bool-cases (supports c.conn.r)) [
        | inr f ↦ inl (errorf "database: this connection does not support COPY" [], rw (n, f))
        | inl y ↦ let (a, b) = bulk_error-none table columns n in inr (a, b, rw (n, y))
      ]
    ]
