-- ===== src/World/Exec.antt =====
-- Calls as functions from the world to an outcome and the world afterwards.
use hellnet_lib_database.Prelude.{◌≡◌}
use hellnet_lib_database.World.{Event, World, Panic, Outcome, ret, panics, no_fuel, push}

abbrev pub M : Type 0 → Type 0
M A = World → Outcome A × World

abbrev pub pure : {A : Type 0} → A → M A
pure a w = (ret a, w)

abbrev pub throw : {A : Type 0} → Panic → M A
throw p w = (panics p, w)

abbrev pub continue : {A B : Type 0} → Outcome A → (A → M B) → M B
continue (ret a) f w = f a w
continue (panics p) f w = (panics p, w)
continue no_fuel f w = (no_fuel, w)

infixl 5 ◌>>=◌ ◌>>◌
abbrev pub ◌>>=◌ : {A B : Type 0} → M A → (A → M B) → M B
◌>>=◌ m f w = continue (m w).0 f (m w).1

abbrev pub ◌>>◌ : {B : Type 0} → M (Unit {0}) → M B → M B
m >> k = m >>= λ _. k

-- an event to which nothing is answered
abbrev pub emit : Event → M (Unit {0})
emit e w = (ret tt, push e w)

-- an event and its answer
abbrev pub ask : {A : Type 0} → (World → A) → Event → M A
ask answer e w = (ret (answer (push e w)), push e w)

-- a first part that returns hands its value to the rest
pub bind_ret :
    {A B : Type 0} (m : M A) (f : A → M B) (w : World) {a : A}
    → (m w).0 ≡ ret a
    → (m >>= f) w ≡ f a (m w).1
bind_ret m f w h = rw h
