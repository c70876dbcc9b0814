-- ===== src/Iterate/Watchdog.antt =====
-- The variable `firstRow` of runIter over the rows.
use hellnet_lib_database.Prelude.{
  ℕ, zero, suc, ◌+◌, ◌≡◌, refl, ap, ◌∙◌, Bool, true, false, not, Option, none, some, List, [], ◌∷◌,
  map, length, arith,
}
use hellnet_lib_database.Text.{Text}
use hellnet_lib_database.Errors.{Err, deadline_exceeded, wrapf, is}
use hellnet_lib_database.World.{watchdog_stop, ok, World, ret, push}
use hellnet_lib_database.World.Exec.{M}
use hellnet_lib_database.Iterate.{iter_loop, stream_end}

-- whether `firstRow` is set after `n` rows, if it was `b` before
abbrev pub toggled : ℕ → Bool → Bool
toggled zero b = b
toggled (suc n) b = toggled n (not b)

toggled-not : (n : ℕ) (b : Bool) → toggled n (not (not b)) ≡ toggled n b
toggled-not n true = refl
toggled-not n false = refl

toggled-even : (k : ℕ) (b : Bool) → toggled (k + k) b ≡ b
toggled-even zero b = refl
toggled-even (suc k) b =
    let e : suc k + suc k ≡ suc (suc (k + k)) = omega arith in
    rw e (toggled-not (k + k) b ∙ toggled-even k b)

module _ {T : Type 0} (within : Text) (fn : T → M (Option Err)) (final : Option Err)
    (accepts : (row : T) (w : World) → (fn row w).0 ≡ ret none) where
  -- If the consumer accepts every row, the loop ends by what `firstRow` has become: it is set again
  -- after every second row.
  pub iter_loop-toggled :
      (rows : List T) (first_row : Bool) (w : World)
      → (iter_loop within fn final first_row (map ok rows) w).0
        ≡ ret (stream_end within (toggled (length rows) first_row) final)
  unfolding iter_loop
  iter_loop-toggled [] first_row w = refl
  iter_loop-toggled (x ∷ xs) true w =
      rw (accepts x (push watchdog_stop w))
        (iter_loop-toggled xs false (fn x (push watchdog_stop w)).1)
  iter_loop-toggled (x ∷ xs) false w = rw (accepts x w) (iter_loop-toggled xs true (fn x w).1)

  -- If the consumer accepts every row, a stream that breaks off with a deadline error after an even
  -- number of rows is reported as one whose first row did not arrive, however many rows there were.
  pub late_deadline :
      (rows : List T) (k : ℕ) (e : Err) (w : World)
      → length rows ≡ k + k
      → final ≡ some e
      → is e deadline_exceeded ≡ true
      → (iter_loop within fn final true (map ok rows) w).0
        ≡ ret (some (wrapf "database: first row not available within %s: %w" (within ∷ []) e))
  unfolding stream_end
  late_deadline rows k e w l f d =
      let t : toggled (length rows) true ≡ true =
        ap (λ n. toggled n true) l ∙ toggled-even k true in
      iter_loop-toggled rows true w ∙ rw (t, f, d)
