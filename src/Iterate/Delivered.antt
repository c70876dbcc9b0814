-- ===== src/Iterate/Delivered.antt =====
-- The rows that an iteration hands to its consumer, its result, and its result set.
use hellnet_lib_database.Prelude.{
  ◌≡◌, refl, ap, ◌∙◌, ◌⊎◌, inl, inr, Bool, true, false, Bool-cases, Option-cases, Option, none,
  some, List, [], ◌∷◌, if◌then◌else◌,
}
use hellnet_lib_database.Prelude.Int.{ℤ}
use hellnet_lib_database.Text.{Text}
use hellnet_lib_database.Errors.{Err, deadline_exceeded, wrapf, is}
use hellnet_lib_database.World.{
  Value, Handle, with_cancel, Event, query, watchdog_stop, close_rows, Trace, Reply, ok, err, Env,
  World, Outcome, ret, push,
}
use hellnet_lib_database.World.Exec.{M}
use hellnet_lib_database.Core.{Conn}
use hellnet_lib_database.Iterate.{Stream, stream_end, consume, iter_loop, streamed, run_iter}

abbrev pub is_watchdog : Event → Bool
is_watchdog watchdog_stop = true
is_watchdog _ = false

-- the trace without the calls of the watchdog
abbrev pub unwatched : Trace → Trace
unwatched [] = []
unwatched (e ∷ t) = let rest = unwatched t in if is_watchdog e then rest else e ∷ rest

module _ {T : Type 0} (said : T → Event) (answer : T → Option Err) where
  -- the rows up to the first that is not decoded, or that is refused
  abbrev pub consumed : List (Reply T) → List T
  consumed [] = []
  consumed (err e ∷ rs) = []
  consumed (ok x ∷ rs) = let rest = consumed rs in x ∷ elim (answer x) [ none ↦ rest | some e ↦ [] ]

  -- one event for each row, in their order
  abbrev pub told : List T → Trace → Trace
  told [] t = t
  told (x ∷ xs) t = told xs (said x ∷ t)

  -- `within` is the printed CommandTimeout
  module _ (within : Text) where
    -- the results of an iteration whose stream ends with `final`
    abbrev pub Ends : Option Err → List (Reply T) → Option Err → Type 0
    Ends final [] o =
        (o ≡ final)
        ⊎ ((e : Err) × (final ≡ some e)
            × (is e deadline_exceeded ≡ true)
            × (o ≡ some (wrapf "database: first row not available within %s: %w" (within ∷ []) e)))
    Ends final (err e ∷ rs) o = o ≡ some e
    Ends final (ok x ∷ rs) o =
        ((answer x ≡ none) × Ends final rs o)
        ⊎ ((e : Err) × (answer x ≡ some e)
            × (o ≡ some (wrapf "database: iterator stopped by consumer: %w" [] e)))

    -- a loop over `rows`, begun in `w`, ended as `r`
    abbrev Loops : Option Err → List (Reply T) → World → Outcome (Option Err) × World → Type 0
    Loops final rows w r =
        (o : Option Err) × (r.0 ≡ ret o)
        × Ends final rows o
        × (unwatched r.1.trace ≡ told (consumed rows) (unwatched w.trace))

    stream_end-Ends :
        (first_row : Bool) (final : Option Err) → Ends final [] (stream_end within first_row final)
    unfolding stream_end
    stream_end-Ends first_row none = inl refl
    stream_end-Ends false (some e) = inl refl
    stream_end-Ends true (some e) = elim (Bool-cases (is e deadline_exceeded)) [
      | inl y ↦ rw y (inr (e, refl, y, refl))
      | inr n ↦ rw n (inl refl)
    ]

    module _ (fn : T → M (Option Err)) (final : Option Err)
        (says : (x : T) (w : World) → fn x w ≡ (ret (answer x), push (said x) w))
        (other : (x : T) → is_watchdog (said x) ≡ false) where
      row-Loops :
          (next : M (Option Err)) (x : T) (rs : List (Reply T)) (w : World)
          → ((v : World) → Loops final rs v (next v))
          → Loops final (ok x ∷ rs) w (consume within fn final next (ok x) w)
      row-Loops next x rs w h =
          let told_one : unwatched (push (said x) w).trace ≡ said x ∷ unwatched w.trace =
            rw (other x) refl in
          let (o, r, e, t) = h (push (said x) w) in
          elim (Option-cases (answer x)) [
            | inl n ↦ rw (says x w, n) (o, r, inl (refl, e), t ∙ ap (told (consumed rs)) told_one)
            | inr (a, s) ↦ rw (says x w, s) (_, refl, inr (a, refl, refl), told_one)
          ]

      iter_loop-Loops :
          (rows : List (Reply T)) (first_row : Bool) (w : World)
          → Loops final rows w (iter_loop within fn final first_row rows w)
      unfolding iter_loop
      iter_loop-Loops [] first_row w =
          (stream_end within first_row final, refl, stream_end-Ends first_row final, refl)
      iter_loop-Loops (err e ∷ rs) true w = (some e, refl, refl, refl)
      iter_loop-Loops (err e ∷ rs) false w = (some e, refl, refl, refl)
      iter_loop-Loops (ok x ∷ rs) true w =
          row-Loops (iter_loop within fn final false rs) x rs (push watchdog_stop w)
            (iter_loop-Loops rs false)
      iter_loop-Loops (ok x ∷ rs) false w =
          row-Loops (iter_loop within fn final true rs) x rs w (iter_loop-Loops rs true)

  module _ (env : Env) (print : ℤ → Text) (c : Conn) (sql : Text) (args : List Value)
      (fn : T → M (Option Err))
      (says : (x : T) (w : World) → fn x w ≡ (ret (answer x), push (said x) w))
      (other : (x : T) → is_watchdog (said x) ≡ false) where
    -- An iteration whose query was answered with rows sends that query once, hands the rows to its consumer in
    -- their order, each once, up to the first that is not decoded or that the consumer refuses, closes the
    -- rows once, and does nothing else but stop its watchdog. It returns the error of the decoding, the
    -- wrapped error of the consumer, or else how the stream ended. The consumer leaves one event for each
    -- row and answers by the row alone.
    pub run_iter-Delivers :
        (stream : Handle → Stream T) (rows : Handle) (w : World)
        → env.handle (query c.r (with_cancel c.ctx) sql args ∷ w.trace) ≡ ok rows
        → let r = run_iter env print c sql args stream fn w in
          (o : Option Err) × (r.0 ≡ ret o)
          × Ends (print c.o.command_timeout) (stream rows).final (stream rows).rows o
          × (unwatched r.1.trace
              ≡ close_rows rows
                ∷ told
                    (consumed (stream rows).rows)
                    (query c.r (with_cancel c.ctx) sql args ∷ unwatched w.trace))
    unfolding run_iter streamed
    run_iter-Delivers stream rows w answered =
        let sent = push (query c.r (with_cancel c.ctx) sql args) w in
        let (o, r, e, t) =
          iter_loop-Loops (print c.o.command_timeout) fn (stream rows).final says other
            (stream rows).rows true sent in
        rw answered (o, r, e, ap (λ u. close_rows rows ∷ u) t)
